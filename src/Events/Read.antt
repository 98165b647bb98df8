-- ===== src/Events/Read.antt =====
-- The events of include/infinispan/hotrod/ClientEvent.h, and how Codec20.cpp and Codec21.cpp read them.
use cpp_client.Prelude.{ℕ, Bool, not, List, Option, some, ◌==◌}
use cpp_client.Prelude.{if◌then◌else◌}
use cpp_client.Address.{Address}
use cpp_client.Exceptions.{Exception, Outcome, ok, throws, fault, invalid_response}
use cpp_client.Wire.Stream.{Reader, got, ◌>>=◌, return}
use cpp_client.Wire.Read.{read_byte, read_vlong, read_long, read_array}
use cpp_client.Protocol.OpCodes.{response_magic, error_response}
use cpp_client.Protocol.Header.{check_for_errors}

-- A key with the version of its entry and whether the command was retried; `custom` has the data of
-- the converter.
pub data Event : Type 0 where
  created : List ℕ → ℕ → Bool → Event
  modified : List ℕ → ℕ → Bool → Event
  removed : List ℕ → Bool → Event
  expired : List ℕ → Event
  custom : List ℕ → Bool → Event

abbrev pub thrown : {A : Type 0} → Outcome Exception → Outcome A
thrown (ok e) = throws e
thrown (throws e) = throws e
thrown fault = fault

-- The code of the event, or the exception of an error response.
unfoldable pub event_code : Address → ℕ → ℕ → Reader (Outcome ℕ)
unfolding check_for_errors
event_code a code status input =
    if code == error_response
    then got (thrown (check_for_errors a status input)) input
    else got (ok code) input

-- The message id, the code, the status and the byte of the topology.
unfoldable pub after_event_magic : Address → ℕ → Reader (Outcome ℕ)
unfolding event_code
after_event_magic a magic =
    if magic == response_magic
    then (do
      id ← read_vlong
      code ← read_byte
      status ← read_byte
      topology ← read_byte
      event_code a code status)
    else return (throws invalid_response)

unfoldable pub read_event_header : Address → Reader (Outcome ℕ)
unfolding after_event_magic
read_event_header a = do magic ← read_byte; after_event_magic a magic

abbrev pub is_set : ℕ → Bool
is_set flag = not (flag == 0)

unfoldable pub read_custom_event : ℕ → Reader Event
read_custom_event retried = do bytes ← read_array; return (custom bytes (is_set retried))

unfoldable pub read_created_event : ℕ → Reader Event
read_created_event retried = do
  key ← read_array
  version ← read_long
  return (created key version (is_set retried))

unfoldable pub read_modified_event : ℕ → Reader Event
read_modified_event retried = do
  key ← read_array
  version ← read_long
  return (modified key version (is_set retried))

unfoldable pub read_removed_event : ℕ → Reader Event
read_removed_event retried = do key ← read_array; return (removed key (is_set retried))

unfoldable pub read_expired_event : Reader Event
read_expired_event = do key ← read_array; return (expired key)

abbrev pub just : Reader Event → Reader (Option Event)
just m = m >>= λ e. return (some e)
