-- ===== src/Events/Shrinks.antt =====
-- A turn of the dispatcher leaves less than it found.
use cpp_client.Prelude.{
  Option, leb, ◌&&◌, some, ◌==◌, none, ℕ, List, ◌∷◌, length, arith, if◌then◌else◌,
}
use cpp_client.Events.Layout.{flagged}
use cpp_client.Protocol.OpCodes.{response_magic, error_response, is_event}
use cpp_client.Protocol.Header.{check_for_errors}
use cpp_client.Address.{Address}
use cpp_client.Exceptions.{Outcome, ok, throws, fault, invalid_response}
use cpp_client.Wire.Stream.{Reader, got, ◌>>=◌, return}
use cpp_client.Wire.Read.{read_byte, read_vlong, read_long, read_array}
use cpp_client.Events.Read.{
  Event, created, modified, removed, expired, custom, is_set, just, thrown, read_event_header,
  after_event_magic, event_code, read_custom_event, read_created_event, read_modified_event,
  read_removed_event, read_expired_event,
}
use cpp_client.Events.Dispatcher.{Turn, stops, delivers, read_event, read_body, turn}
use cpp_client.Wire.Shrinks.{
  Leaves, Shrinks, if-Leaves, bind-Shrinks, return-Shrinks, if-Shrinks, read_vlong-Shrinks,
  read_long-Shrinks, array_then, byte_then,
}

just-Shrinks : (m : Reader Event) → Shrinks m → Shrinks (just m)
just-Shrinks m h = bind-Shrinks m (λ e. return (some e)) h λ e. return-Shrinks (some e)

keyed-Shrinks :
    (f : List ℕ → ℕ → Event)
    → Shrinks (read_array >>= λ key. read_long >>= λ version. return (f key version))
keyed-Shrinks f =
    array_then (λ key. read_long >>= λ version. return (f key version))
      λ key.
        bind-Shrinks read_long (λ version. return (f key version)) read_long-Shrinks
          λ version. return-Shrinks (f key version)

named-Shrinks : (f : List ℕ → Event) → Shrinks (read_array >>= λ key. return (f key))
named-Shrinks f = array_then (λ key. return (f key)) λ key. return-Shrinks (f key)

read_event-Shrinks : (version code c r : ℕ) → Shrinks (read_event version code c r)
unfolding read_event read_custom_event read_created_event read_modified_event read_removed_event
    read_expired_event
read_event-Shrinks version code c r =
    let none_read : Shrinks (return {A = Option Event} none) =
      return-Shrinks {A = Option Event} none in
    let e3 =
      if-Shrinks ((code == 0x63) && leb 21 version) (just read_expired_event) (return none)
        (just-Shrinks read_expired_event (named-Shrinks expired)) none_read in
    let rest2 = if (code == 0x63) && leb 21 version then just read_expired_event else return none in
    let e2 =
      if-Shrinks (code == 0x62) (just (read_removed_event r)) rest2
        (just-Shrinks (read_removed_event r) (named-Shrinks λ key. removed key (is_set r))) e3 in
    let rest1 = if code == 0x62 then just (read_removed_event r) else rest2 in
    let e1 =
      if-Shrinks (code == 0x61) (just (read_modified_event r)) rest1
        (just-Shrinks (read_modified_event r) (keyed-Shrinks λ key v. modified key v (is_set r)))
        e2 in
    let rest0 = if code == 0x61 then just (read_modified_event r) else rest1 in
    let e0 =
      if-Shrinks (code == 0x60) (just (read_created_event r)) rest0
        (just-Shrinks (read_created_event r) (keyed-Shrinks λ key v. created key v (is_set r)))
        e1 in
    let others = if code == 0x60 then just (read_created_event r) else rest0 in
    if-Shrinks (is_set c) (just (read_custom_event r)) others
      (just-Shrinks (read_custom_event r) (named-Shrinks λ bytes. custom bytes (is_set r))) e0

read_body-Shrinks : (version : ℕ) (h : Outcome ℕ) → Shrinks (read_body version h)
unfolding read_body
read_body-Shrinks version (throws e) = return-Shrinks {A = Outcome Turn} (throws e)
read_body-Shrinks version fault = return-Shrinks {A = Outcome Turn} fault
read_body-Shrinks version (ok code) =
    let flags : (list_id : List ℕ) → Shrinks (flagged version code list_id) = λ list_id.
      byte_then
        (λ c.
          read_byte >>= λ r. read_event version code c r >>= λ e. return (ok (delivers list_id e)))
        λ c.
          byte_then (λ r. read_event version code c r >>= λ e. return (ok (delivers list_id e)))
            λ r.
              bind-Shrinks (read_event version code c r) (λ e. return (ok (delivers list_id e)))
                (read_event-Shrinks version code c r)
                λ e. return-Shrinks (ok (delivers list_id e)) in
    if-Shrinks (is_event code) (read_array >>= flagged version code) (return (ok stops))
      (array_then (flagged version code) flags) (return-Shrinks (ok stops))

event_code-Shrinks : (a : Address) (code status : ℕ) → Shrinks (event_code a code status)
unfolding event_code
event_code-Shrinks a code status input =
    if-Leaves (length input) (code == error_response)
      (got (thrown (check_for_errors a status input)) input) (got (ok code) input) (omega arith)
      (omega arith)

after_event_magic-Shrinks : (a : Address) (magic : ℕ) → Shrinks (after_event_magic a magic)
unfolding after_event_magic
after_event_magic-Shrinks a magic =
    let statused =
      λ (code : ℕ). read_byte >>= λ status. read_byte >>= λ topology. event_code a code status in
    let coded = λ (id : ℕ). read_byte >>= statused in
    if-Shrinks (magic == response_magic) (read_vlong >>= coded)
      (return {A = Outcome ℕ} (throws invalid_response))
      (bind-Shrinks read_vlong coded read_vlong-Shrinks λ id. byte_then statused λ code.
        byte_then (λ status. read_byte >>= λ topology. event_code a code status)
          λ status.
            byte_then (λ topology. event_code a code status)
              λ topology. event_code-Shrinks a code status)
      (return-Shrinks {A = Outcome ℕ} (throws invalid_response))

-- A turn that goes on has taken a byte.
pub turn-Leaves :
    (a : Address) (version b : ℕ) (input : List ℕ)
    → Leaves (length input) (turn a version (b ∷ input))
unfolding turn read_event_header read_byte
turn-Leaves a version b input =
    bind-Shrinks (after_event_magic a b) (read_body version) (after_event_magic-Shrinks a b)
      (read_body-Shrinks version) input
