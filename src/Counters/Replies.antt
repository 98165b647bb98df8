-- ===== src/Counters/Replies.antt =====
-- What the operations on counters make of a response.
use cpp_client.Prelude.{
  not, ℕ, ◌≡◌, refl, ◌∙◌, ap, Bool, true, false, List, ◌++◌, none, ◌==◌, if◌then◌else◌,
}
use cpp_client.Prelude.Words.{IsU64}
use cpp_client.Prelude.Maps.{lookup}
use cpp_client.Exceptions.{
  Exception, Outcome, ok, throws, client, counter_upper_bound, counter_lower_bound,
}
use cpp_client.Wire.Stream.{Reader, ◌>>=◌, return, >>=-got}
use cpp_client.Wire.Read.{read_long}
use cpp_client.Wire.Write.{write_array, write_long}
use cpp_client.Wire.Fixed.{read_long-write_long}
use cpp_client.Protocol.OpCodes.{is_success, to_op_resp_code, respond}
use cpp_client.Protocol.Exchange.{plain_response}
use cpp_client.Operations.Exchange.{answering, Settings, Reply, answered, refused, read_body}
use cpp_client.Operations.Replies.{requested, exchange-plain_response}
use cpp_client.Counters.Operations.{
  is_positive, is_at_least, add_and_get_answer, value_answer, add_and_get_operation,
  compare_and_swap_answer, compare_and_swap_operation,
}
use cpp_client.Counters.Configuration.{CounterConfiguration}

-- The answer that a status stands for when a counter was to be increased.
abbrev pub counted : ℕ → ℕ → ℕ → List ℕ → Reply ℕ
counted delta status v rest =
    if status == 0x04
    then refused (if is_positive delta then counter_upper_bound else counter_lower_bound) none true
    else if is_success status
    then answered v none rest
    else refused client none true

long_answered :
    (s : Settings) (v : ℕ) (rest : List ℕ)
    → IsU64 v
    → read_body s.address none ((read_long >>= λ x. return (ok x)) (write_long v ++ rest))
      ≡ answered v none rest
unfolding read_body
long_answered s v rest h = ap (read_body s.address none) (
    >>=-got read_long (λ x. return {A = Outcome ℕ} (ok x)) (write_long v ++ rest)
      (read_long-write_long v rest h))

chosen_by :
    (s : Settings) (a b : Bool) (e : Exception) (v : ℕ) (rest : List ℕ)
    → IsU64 v
    → read_body s.address none (
        (if a then return (throws e) else if b then answering read_long else return (throws client))
          (write_long v ++ rest))
      ≡ (if a
          then refused e none true
          else if b
          then answered v none rest
          else refused client none true)
unfolding read_body
chosen_by s true b e v rest h = refl
chosen_by s false true e v rest h = long_answered s v rest h
chosen_by s false false e v rest h = refl

-- A response to an addition is judged by its status: where the addition was not executed, the
-- exception names the bound that the sign of the delta runs into; a success gives the value and leaves
-- what follows it; any other status is an exception of the client. The transport stays valid.
pub add_and_get_operation-counted :
    (s : Settings) (id delta status v : ℕ) (name rest : List ℕ)
    → IsU64 v
    → (add_and_get_operation s name delta id
        (plain_response (requested s id 0x52 0x53) status (write_long v ++ rest))).reply
      ≡ counted delta status v rest
unfolding add_and_get_operation to_op_resp_code respond lookup add_and_get_answer value_answer
add_and_get_operation-counted s id delta status v name rest h =
    exchange-plain_response s id 0x52 0x53 status (write_array name ++ write_long delta)
      (write_long v ++ rest) (add_and_get_answer delta) refl
    ∙ chosen_by s (status == 0x04) (is_success status)
        (if is_positive delta then counter_upper_bound else counter_lower_bound) v rest h

-- The answer that a status stands for when the value was to be replaced.
abbrev pub swapped : CounterConfiguration → ℕ → ℕ → ℕ → List ℕ → Reply ℕ
swapped cc update status v rest =
    if status == 0x04
    then refused
        (if is_at_least update cc.upper_bound then counter_upper_bound else counter_lower_bound)
        none true
    else if status == 0x00
    then answered v none rest
    else refused client none true

if_not : {A : Type 0} (b : Bool) (x y : A) → (if not b then x else y) ≡ (if b then y else x)
if_not true x y = refl
if_not false x y = refl

-- A response to a replacement is judged by its status: where it was not executed, the exception names
-- the upper bound if the new value reaches that of the configuration, and the lower one otherwise; the
-- status 0 gives the value before and leaves what follows it; any other status, successes of a
-- compatible server included, is an exception of the client. The transport stays valid.
pub compare_and_swap_operation-swapped :
    (s : Settings) (id expect update status v : ℕ) (cc : CounterConfiguration) (name rest : List ℕ)
    → IsU64 v
    → (compare_and_swap_operation s name expect update cc id
        (plain_response (requested s id 0x58 0x59) status (write_long v ++ rest))).reply
      ≡ swapped cc update status v rest
unfolding compare_and_swap_operation to_op_resp_code respond lookup compare_and_swap_answer
compare_and_swap_operation-swapped s id expect update status v cc name rest h =
    let e =
      if is_at_least update cc.upper_bound then counter_upper_bound else counter_lower_bound in
    exchange-plain_response s id 0x58 0x59 status
      (write_array name ++ (write_long expect ++ write_long update)) (write_long v ++ rest)
      (compare_and_swap_answer cc update) refl
    ∙ ap
        (λ (m : Reader (Outcome ℕ)).
          read_body s.address none
            ((if status == 0x04 then return (throws e) else m) (write_long v ++ rest)))
        (if_not (status == 0x00) (return (throws client)) (answering read_long))
    ∙ chosen_by s (status == 0x04) (status == 0x00) e v rest h
