-- ===== src/Counters/Operations.antt =====
-- The operations on counters: each is one exchange on a transport, without a cache's name.
use cpp_client.Prelude.{
  ℕ, ◌+◌, ◌%◌, ◌^◌, Bool, not, ◌&&◌, List, [], ◌∷◌, ◌++◌, ltb, leb, zero, suc, ◌==◌, if◌then◌else◌,
}
use cpp_client.Exceptions.{ok, throws, client, counter_upper_bound, counter_lower_bound}
use cpp_client.Wire.Stream.{Reader, ◌>>=◌, return}
use cpp_client.Wire.Read.{read_vint, read_long, read_array}
use cpp_client.Wire.Write.{write_array, write_long}
use cpp_client.Protocol.OpCodes.{is_success}
use cpp_client.Operations.Exchange.{Settings, Body, Exchange, exchange, answering, no_answer}
use cpp_client.Counters.Configuration.{
  CounterConfiguration, write_configuration, read_configuration,
}

abbrev pub Done : Type 0
Done = Unit {0}

unfoldable pub define_counter_operation :
    Settings → List ℕ → CounterConfiguration → ℕ → List ℕ → Exchange Bool
unfolding exchange write_configuration
define_counter_operation s name c =
    exchange s 0x4B (ok (write_array name ++ write_configuration c))
      λ status. no_answer (is_success status)

unfoldable pub configuration_answer : Body CounterConfiguration
unfolding read_configuration
configuration_answer status =
    if is_success status then read_configuration else return (throws client)

unfoldable pub get_counter_configuration_operation :
    Settings → List ℕ → ℕ → List ℕ → Exchange CounterConfiguration
unfolding exchange configuration_answer
get_counter_configuration_operation s name =
    exchange s 0x4D (ok (write_array name)) configuration_answer

-- A counter that is not there is as good as reset or removed.
unfoldable pub no_value_answer : Body Done
no_value_answer status =
    if not (is_success status) && not (status == 0x02) then return (throws client) else no_answer tt

unfoldable pub reset_counter_operation : Settings → List ℕ → ℕ → List ℕ → Exchange Done
unfolding exchange no_value_answer
reset_counter_operation s name = exchange s 0x54 (ok (write_array name)) no_value_answer

unfoldable pub remove_counter_operation : Settings → List ℕ → ℕ → List ℕ → Exchange Done
unfolding exchange no_value_answer
remove_counter_operation s name = exchange s 0x5E (ok (write_array name)) no_value_answer

unfoldable pub read_names : ℕ → Reader (List (List ℕ))
read_names zero = return []
read_names (suc n) = do name ← read_array; names ← read_names n; return (name ∷ names)

-- The names are read where the status is no success. The set is the list of what was inserted.
unfoldable pub names_answer : Body (List (List ℕ))
unfolding read_names
names_answer status =
    if not (is_success status) then answering (read_vint >>= read_names) else no_answer []

unfoldable pub get_counter_names_operation : Settings → ℕ → List ℕ → Exchange (List (List ℕ))
unfolding exchange names_answer
get_counter_names_operation s = exchange s 0x64 (ok []) names_answer

-- It sends the request that defines a counter.
unfoldable pub is_counter_defined_operation : Settings → List ℕ → ℕ → List ℕ → Exchange Bool
unfolding exchange
is_counter_defined_operation s name =
    exchange s 0x4B (ok (write_array name)) λ status. no_answer (status == 0x00)

unfoldable pub value_answer : Body ℕ
value_answer status = if is_success status then answering read_long else return (throws client)

unfoldable pub get_counter_value_operation : Settings → List ℕ → ℕ → List ℕ → Exchange ℕ
unfolding exchange value_answer
get_counter_value_operation s name = exchange s 0x56 (ok (write_array name)) value_answer

-- `delta > 0` of the pattern of a long, and `x >= y` of two.
abbrev pub is_positive : ℕ → Bool
is_positive v = ltb 0 v && ltb v (2 ^ 63)

abbrev pub offset : ℕ → ℕ
offset v = (v + 2 ^ 63) % 2 ^ 64

abbrev pub is_at_least : ℕ → ℕ → Bool
is_at_least x y = leb (offset y) (offset x)

unfoldable pub add_and_get_answer : ℕ → Body ℕ
unfolding value_answer
add_and_get_answer delta status =
    if status == 0x04
    then return (throws (if is_positive delta then counter_upper_bound else counter_lower_bound))
    else value_answer status

unfoldable pub add_and_get_operation : Settings → List ℕ → ℕ → ℕ → List ℕ → Exchange ℕ
unfolding exchange add_and_get_answer
add_and_get_operation s name delta =
    exchange s 0x52 (ok (write_array name ++ write_long delta)) (add_and_get_answer delta)

unfoldable pub compare_and_swap_answer : CounterConfiguration → ℕ → Body ℕ
compare_and_swap_answer cc update status =
    if status == 0x04
    then return (
        throws
          (if is_at_least update cc.upper_bound then counter_upper_bound else counter_lower_bound))
    else if not (status == 0x00)
    then return (throws client)
    else answering read_long

unfoldable pub compare_and_swap_operation :
    Settings → List ℕ → ℕ → ℕ → CounterConfiguration → ℕ → List ℕ → Exchange ℕ
unfolding exchange compare_and_swap_answer
compare_and_swap_operation s name expect update cc =
    exchange s 0x58 (ok (write_array name ++ (write_long expect ++ write_long update)))
      (compare_and_swap_answer cc update)

-- Whether the transport is answered, to be kept for the events.
unfoldable pub add_counter_listener_operation :
    Settings → List ℕ → List ℕ → ℕ → List ℕ → Exchange Bool
unfolding exchange
add_counter_listener_operation s name listener_id =
    exchange s 0x5A (ok (write_array name ++ write_array listener_id))
      λ status. no_answer (status == 0x00)

unfoldable pub remove_counter_listener_operation :
    Settings → List ℕ → List ℕ → ℕ → List ℕ → Exchange Bool
unfolding exchange
remove_counter_listener_operation s name listener_id =
    exchange s 0x5C (ok (write_array name ++ write_array listener_id))
      λ status. no_answer (status == 0x00)
