-- ===== src/Operations/Replies.antt =====
-- What the conditional operations make of a response.
use cpp_client.Prelude.{
  ℕ, ◌+◌, ◌^◌, ◌<◌, ◌≡◌, refl, ◌∙◌, ap, Bool, true, false, inl, inr, List, [], ◌++◌, length, none,
  ◌==◌, if◌then◌else◌, arith, Bool-cases,
}
use cpp_client.Prelude.Words.{u64}
use cpp_client.Prelude.Maps.{lookup}
use cpp_client.Exceptions.{ok, throws, invalid_response}
use cpp_client.Wire.Stream.{got, >>=-got}
use cpp_client.Wire.Write.{write_array, write_long}
use cpp_client.Wire.Arrays.{read_array-write_array}
use cpp_client.Protocol.OpCodes.{
  is_success, is_not_executed, has_previous, to_op_resp_code, respond,
}
use cpp_client.Protocol.Header.{HeaderParams, write_header, set_op_code, read_header}
use cpp_client.Protocol.Exchange.{plain_response, read_header-responses}
use cpp_client.Protocol.Params.{return_possible_prev_value}
use cpp_client.Operations.Exchange.{
  Settings, Body, exchange, begin_request, send, header_params, Reply, answered, refused, read_body,
  read_reply, RspCode, success, no_such_key, modified_key, Versioned, rsp_code, versioned_of,
  return_versioned_operation_response,
}
use cpp_client.Operations.Keys.{remove_if_unmodified_operation}

-- The parameters of a request once its header is written.
abbrev pub requested : Settings → ℕ → ℕ → ℕ → HeaderParams
requested s id code r = record (header_params s) {
  op_code = code;
  op_resp_code = r;
  message_id = u64 (id + 1);
}

module _ (s : Settings) (id : ℕ) where
  set_op_code-ok :
      (code r : ℕ)
      → to_op_resp_code code ≡ ok r
      → set_op_code code (header_params s)
        ≡ ok (record (header_params s) { op_code = code; op_resp_code = r })
  unfolding set_op_code
  set_op_code-ok code r e = rw (e, set_op_code) refl

  begun-reply :
      {A : Type 0} (code r : ℕ) (body input : List ℕ) (answer : Body A)
      → (begin_request s
          (ok (record (header_params s) { op_code = code; op_resp_code = r }))
          (ok body)
          answer
          id
          input).reply
        ≡ read_reply s.address answer (read_header s.address (requested s id code r) input)
  unfolding begin_request send write_header
  begun-reply code r body input answer = refl

  pub exchange-plain_response :
      {A : Type 0} (code r status : ℕ) (body rest : List ℕ) (answer : Body A)
      → to_op_resp_code code ≡ ok r
      → (exchange s code
          (ok body)
          answer
          id
          (plain_response (requested s id code r) status rest)).reply
        ≡ read_body s.address none (answer status rest)
  unfolding exchange read_reply
  exchange-plain_response code r status body rest answer e =
      let p = requested s id code r in
      let input = plain_response p status rest in
      ap (λ o. (begin_request s o (ok body) answer id input).reply) (set_op_code-ok code r e)
      ∙ begun-reply code r body input answer
      ∙ ap (read_reply s.address answer)
          (read_header-responses s.address p status 0 0 [] [] rest (omega arith) (omega arith)
            (omega arith) tt (omega arith) tt).0

-- What follows the header: a previous value where the status says so.
abbrev pub payload : ℕ → List ℕ → List ℕ → List ℕ
payload status v rest = if has_previous status then write_array v ++ rest else rest

abbrev pub kept_value : ℕ → List ℕ → List ℕ
kept_value status v = if has_previous status then v else []

prev_value-payload :
    (status : ℕ) (v rest : List ℕ)
    → length v < 2 ^ 32
    → return_possible_prev_value status (payload status v rest) ≡ got (kept_value status v) rest
unfolding return_possible_prev_value
prev_value-payload status v rest h = elim (Bool-cases (has_previous status)) [
  | inl has ↦ rw has (read_array-write_array v rest h)
  | inr none_ ↦ rw none_ refl
]

-- The answer that the status stands for.
abbrev pub judged : ℕ → List ℕ → List ℕ → Reply Versioned
judged status v rest =
    if is_success status
    then answered (kept_value status v, success) none rest
    else if is_not_executed status
    then answered (kept_value status v, modified_key) none rest
    else if status == 0x02
    then answered (kept_value status v, no_such_key) none rest
    else refused invalid_response none true

versioned-got :
    (code : RspCode) (status : ℕ) (v rest : List ℕ)
    → length v < 2 ^ 32
    → versioned_of (ok code) status (payload status v rest)
      ≡ got (ok (kept_value status v, code)) rest
unfolding versioned_of
versioned-got code status v rest h =
    >>=-got (return_possible_prev_value status) _ _ (prev_value-payload status v rest h)

judged_by :
    (s : Settings) (a b c : Bool) (status : ℕ) (v rest : List ℕ)
    → length v < 2 ^ 32
    → read_body s.address none (
        versioned_of
          (if a
            then ok success
            else if b
            then ok modified_key
            else if c
            then ok no_such_key
            else throws invalid_response)
          status
          (payload status v rest))
      ≡ (if a
          then answered (kept_value status v, success) none rest
          else if b
          then answered (kept_value status v, modified_key) none rest
          else if c
          then answered (kept_value status v, no_such_key) none rest
          else refused invalid_response none true)
unfolding read_body
judged_by s true b c status v rest h =
    ap (read_body s.address none) (versioned-got success status v rest h)
judged_by s false true c status v rest h =
    ap (read_body s.address none) (versioned-got modified_key status v rest h)
judged_by s false false true status v rest h =
    ap (read_body s.address none) (versioned-got no_such_key status v rest h)
judged_by s false false false status v rest h = unfold versioned_of in refl

-- A response to a conditional removal is judged by its status: it is done, or not done because the
-- entry has changed, or there is no entry, with the previous value exactly where the status announces
-- one and what follows left on the transport; any other status is an InvalidResponseException.
pub remove_if_unmodified_operation-judged :
    (s : Settings) (id version status : ℕ) (key v rest : List ℕ)
    → length v < 2 ^ 32
    → (remove_if_unmodified_operation s key version id
        (plain_response (requested s id 0x0D 0x0E) status (payload status v rest))).reply
      ≡ judged status v rest
unfolding remove_if_unmodified_operation to_op_resp_code respond lookup
    return_versioned_operation_response rsp_code
remove_if_unmodified_operation-judged s id version status key v rest h =
    exchange-plain_response s id 0x0D 0x0E status (write_array key ++ write_long version)
      (payload status v rest) return_versioned_operation_response refl
    ∙ judged_by s (is_success status) (is_not_executed status) (status == 0x02) status v rest h
