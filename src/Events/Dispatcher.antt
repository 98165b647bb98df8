-- ===== src/Events/Dispatcher.antt =====
-- EventDispatcher::run of impl/event/EventDispatcher.cpp over the bytes that the server sends.
-- Callbacks of the application that throw are not modelled.
use cpp_client.Prelude.{◌&&◌, ℕ, zero, suc, List, [], ◌∷◌, length, Option, none, some, ◌==◌}
use cpp_client.Prelude.{leb, if◌then◌else◌}
use cpp_client.Address.{Address}
use cpp_client.Exceptions.{Exception, Outcome, ok, throws, fault, transport}
use cpp_client.Wire.Stream.{Read, Reader, got, ended, undefined, ◌>>=◌, return}
use cpp_client.Wire.Read.{read_byte, read_array}
use cpp_client.Protocol.OpCodes.{is_event}
use cpp_client.Events.Read.{
  Event, read_event_header, is_set, read_custom_event, read_created_event, read_modified_event,
  read_removed_event, read_expired_event, just,
}

-- The switch on the code. Before version 2.1 an expired event is reported and not read.
unfoldable pub read_event : ℕ → ℕ → ℕ → ℕ → Reader (Option Event)
unfolding read_custom_event read_created_event read_modified_event read_removed_event
    read_expired_event
read_event version code is_custom retried =
    if is_set is_custom
    then just (read_custom_event retried)
    else if code == 0x60
    then just (read_created_event retried)
    else if code == 0x61
    then just (read_modified_event retried)
    else if code == 0x62
    then just (read_removed_event retried)
    else if (code == 0x63) && leb 21 version
    then just read_expired_event
    else return none

-- One turn of the loop: it ends, or a listener gets an event, if there is one.
pub data Turn : Type 0 where
  stops : Turn
  delivers : List ℕ → Option Event → Turn

unfoldable pub read_body : ℕ → Outcome ℕ → Reader (Outcome Turn)
unfolding is_event read_event
read_body version (ok code) =
    if is_event code
    then (do
      list_id ← read_array
      is_custom ← read_byte
      is_retried ← read_byte
      e ← read_event version code is_custom is_retried
      return (ok (delivers list_id e)))
    else return (ok stops)
read_body version (throws e) = return (throws e)
read_body version fault = return fault

unfoldable pub turn : Address → ℕ → Reader (Outcome Turn)
unfolding read_event_header read_body
turn a version = do h ← read_event_header a; read_body version h

-- How the thread ends: after a message that is no event, with the recovery after a TransportException,
-- with the program by an exception that nothing catches, or without a defined end. `running` is the
-- end of the fuel.
pub data Ending : Type 0 where
  breaks : Ending
  recovers : Ending
  terminates : Exception → Ending
  faults : Ending
  running : Ending

pub record Dispatched : Type 0 where
  pub processed : List (List ℕ × Event)
  pub ending : Ending

abbrev pub ends : Ending → Dispatched
ends e = record { processed = []; ending = e }

unfoldable pub deliver : List ℕ → Option Event → Dispatched → Dispatched
deliver list_id none d = d
deliver list_id (some e) d = record d { processed = (list_id, e) ∷ d.processed }

-- `catch (const TransportException&)` is the only handler of the loop.
unfoldable pub caught : Exception → Ending
caught (transport h p) = recovers
caught e = terminates e

unfoldable pub after_turn : (List ℕ → Dispatched) → Read (Outcome Turn) → Dispatched
unfolding deliver caught
after_turn next (got (ok stops) rest) = ends breaks
after_turn next (got (ok (delivers list_id e)) rest) = deliver list_id e (next rest)
after_turn next (got (throws e) rest) = ends (caught e)
after_turn next (got fault rest) = ends faults
after_turn next ended = ends recovers
after_turn next undefined = ends faults

-- The loop, by the turns that it may make.
unfoldable pub run : Address → ℕ → ℕ → List ℕ → Dispatched
unfolding turn after_turn
run a version zero input = ends running
run a version (suc fuel) input = after_turn (run a version fuel) (turn a version input)

-- Each turn takes a byte.
unfoldable pub dispatch : Address → ℕ → List ℕ → Dispatched
unfolding run
dispatch a version input = run a version (suc (length input)) input
