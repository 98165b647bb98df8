-- ===== src/Operations/Values.antt =====
-- The operations that send a key and a value: PutOperation, PutIfAbsentOperation, ReplaceOperation
-- and ReplaceIfUnmodifiedOperation of impl/operations.
use cpp_client.Prelude.{ℕ, List, [], ◌++◌, if◌then◌else◌}
use cpp_client.Exceptions.{throws, invalid_response}
use cpp_client.Wire.Stream.{return}
use cpp_client.Wire.Write.{write_array, write_long}
use cpp_client.Protocol.OpCodes.{is_success, is_not_executed}
use cpp_client.Protocol.Params.{write_expiration_params}
use cpp_client.Operations.Exchange.{
  Settings, Body, Exchange, exchange, send_put_operation, with_expiration, no_answer,
  previous_value, Versioned, return_versioned_operation_response,
}

unfoldable pub put_answer : Body (List ℕ)
unfolding previous_value
put_answer status =
    if is_success status then previous_value status else return (throws invalid_response)

unfoldable pub put_operation : Settings → List ℕ → List ℕ → ℕ → ℕ → ℕ → List ℕ → Exchange (List ℕ)
unfolding send_put_operation put_answer
put_operation s key value lifespan max_idle =
    send_put_operation s 0x01 key value lifespan max_idle put_answer

unfoldable pub put_if_absent_answer : Body (List ℕ)
unfolding previous_value
put_if_absent_answer status = if is_not_executed status then previous_value status else no_answer []

unfoldable pub put_if_absent_operation :
    Settings → List ℕ → List ℕ → ℕ → ℕ → ℕ → List ℕ → Exchange (List ℕ)
unfolding send_put_operation put_if_absent_answer
put_if_absent_operation s key value lifespan max_idle =
    send_put_operation s 0x05 key value lifespan max_idle put_if_absent_answer

unfoldable pub replace_operation :
    Settings → List ℕ → List ℕ → ℕ → ℕ → ℕ → List ℕ → Exchange (List ℕ)
unfolding send_put_operation previous_value
replace_operation s key value lifespan max_idle =
    send_put_operation s 0x07 key value lifespan max_idle previous_value

unfoldable pub replace_if_unmodified_operation :
    Settings → List ℕ → List ℕ → ℕ → ℕ → ℕ → ℕ → List ℕ → Exchange Versioned
unfolding exchange with_expiration write_expiration_params return_versioned_operation_response
replace_if_unmodified_operation s key value lifespan max_idle version =
    exchange s 0x09
      (with_expiration (write_array key) (write_expiration_params lifespan max_idle)
        (write_long version ++ write_array value))
      return_versioned_operation_response
