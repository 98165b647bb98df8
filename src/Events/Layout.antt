-- ===== src/Events/Layout.antt =====
-- The bytes of an event, as the protocol lays them out, and what the reader makes of them.
use cpp_client.Prelude.{
  ℕ, ◌^◌, ◌<◌, ◌≤◌, ◌≡◌, refl, ap, ◌∙◌, Bool, true, false, List, ◌∷◌, ◌++◌, length, some, ◌==◌, leb,
  arith, if◌then◌else◌,
}
use cpp_client.Prelude.Words.{IsU64}
use cpp_client.Address.{Address}
use cpp_client.Exceptions.{Outcome, ok}
use cpp_client.Wire.Stream.{Reader, got, ◌>>=◌, >>=-got, return}
use cpp_client.Wire.Read.{read_byte, read_vlong, read_long, read_array}
use cpp_client.Wire.Write.{write_vlong, write_long, write_array}
use cpp_client.Wire.VarInt.{read_vlong-write_vlong}
use cpp_client.Wire.Fixed.{read_long-write_long}
use cpp_client.Wire.Arrays.{read_array-write_array}
use cpp_client.Protocol.OpCodes.{error_response, is_event}
use cpp_client.Events.Read.{
  Event, created, modified, removed, expired, custom, read_event_header, after_event_magic,
  event_code, is_set, read_custom_event, read_created_event, read_modified_event,
  read_removed_event, read_expired_event, just,
}
use cpp_client.Events.Dispatcher.{read_event, read_body, turn, Turn, delivers}

-- A converter makes a custom event of an entry that was created, modified, removed or expired.
pub data EntryKind : Type 0 where
  of_created : EntryKind
  of_modified : EntryKind
  of_removed : EntryKind
  of_expired : EntryKind

abbrev pub code_of_kind : EntryKind → ℕ
code_of_kind of_created = 0x60
code_of_kind of_modified = 0x61
code_of_kind of_removed = 0x62
code_of_kind of_expired = 0x63

abbrev pub code_of : EntryKind → Event → ℕ
code_of kind (created k v r) = 0x60
code_of kind (modified k v r) = 0x61
code_of kind (removed k r) = 0x62
code_of kind (expired k) = 0x63
code_of kind (custom bytes r) = code_of_kind kind

abbrev pub flag : Bool → ℕ
flag b = if b then 1 else 0

abbrev pub custom_flag : Event → ℕ
custom_flag (custom bytes r) = 1
custom_flag _ = 0

abbrev pub retried_flag : Event → ℕ
retried_flag (created k v r) = flag r
retried_flag (modified k v r) = flag r
retried_flag (removed k r) = flag r
retried_flag (expired k) = 0
retried_flag (custom bytes r) = flag r

abbrev pub event_body : Event → List ℕ → List ℕ
event_body (created k v r) rest = write_array k ++ (write_long v ++ rest)
event_body (modified k v r) rest = write_array k ++ (write_long v ++ rest)
event_body (removed k r) rest = write_array k ++ rest
event_body (expired k) rest = write_array k ++ rest
event_body (custom bytes r) rest = write_array bytes ++ rest

abbrev pub Fits : Event → Type 0
Fits (created k v r) = (length k < 2 ^ 32) × IsU64 v
Fits (modified k v r) = (length k < 2 ^ 32) × IsU64 v
Fits (removed k r) = length k < 2 ^ 32
Fits (expired k) = length k < 2 ^ 32
Fits (custom bytes r) = length bytes < 2 ^ 32

-- A message of the server, whose `kind` is that of the entry of a custom event.
pub record Message : Type 0 where
  pub message_id : ℕ
  pub listener_id : List ℕ
  pub kind : EntryKind
  pub event : Event

-- The message, but for its first byte, with the bytes that follow it.
abbrev pub after_magic : Message → List ℕ → List ℕ
after_magic m rest =
    (write_vlong m.message_id
      ++ (code_of m.kind m.event
          ∷ 0
          ∷ 0
          ∷ (write_array m.listener_id
              ++ (custom_flag m.event ∷ retried_flag m.event ∷ event_body m.event rest))))

abbrev pub event_bytes : Message → List ℕ → List ℕ
event_bytes m rest = 0xA1 ∷ after_magic m rest

pub record IsSendable (m : Message) : Type 0 where
  pub id_fits : IsU64 m.message_id
  pub listener_fits : length m.listener_id < 2 ^ 32
  pub event_fits : Fits m.event

pub read_event_header-bytes :
    (a : Address) (id code : ℕ) (rest : List ℕ)
    → IsU64 id
    → (code == error_response) ≡ false
    → read_event_header a (0xA1 ∷ (write_vlong id ++ (code ∷ 0 ∷ 0 ∷ rest))) ≡ got (ok code) rest
unfolding read_event_header after_event_magic read_byte event_code
read_event_header-bytes a id code rest h c =
    >>=-got read_vlong _ _ (read_vlong-write_vlong id (code ∷ 0 ∷ 0 ∷ rest) h) ∙ rw (c) refl

keyed :
    (k : List ℕ) (v : ℕ) (f : List ℕ → ℕ → Event) (rest : List ℕ)
    → length k < 2 ^ 32
    → IsU64 v
    → (read_array >>= λ key. read_long >>= λ version. return (f key version))
        (write_array k ++ (write_long v ++ rest))
      ≡ got (f k v) rest
keyed k v f rest hk hv =
    >>=-got read_array (λ key. read_long >>= λ version. return (f key version)) _
      (read_array-write_array k (write_long v ++ rest) hk)
    ∙ >>=-got read_long (λ version. return (f k version)) _ (read_long-write_long v rest hv)

named :
    (k : List ℕ) (f : List ℕ → Event) (rest : List ℕ)
    → length k < 2 ^ 32
    → (read_array >>= λ key. return (f key)) (write_array k ++ rest) ≡ got (f k) rest
named k f rest h = >>=-got read_array (λ key. return (f key)) _ (read_array-write_array k rest h)

just-got :
    (m : Reader Event) (e : Event) (input rest : List ℕ)
    → m input ≡ got e rest
    → just m input ≡ got (some e) rest
just-got m e input rest h = >>=-got m (λ e. return (some e)) input h

is_set-flag : (b : Bool) → is_set (flag b) ≡ b
is_set-flag true = refl
is_set-flag false = refl

read_event-body :
    (version : ℕ) (kind : EntryKind) (e : Event) (rest : List ℕ)
    → 21 ≤ version
    → Fits e
    → read_event version (code_of kind e) (custom_flag e) (retried_flag e) (event_body e rest)
      ≡ got (some e) rest
unfolding read_event read_created_event read_modified_event read_removed_event read_expired_event
    read_custom_event
read_event-body version kind (created k v r) rest new h =
    just-got (read_created_event (flag r)) (created k v r) (event_body (created k v r) rest) rest (
      keyed k v (λ key x. created key x (is_set (flag r))) rest h.0 h.1
      ∙ ap (λ t. got (created k v t) rest) (is_set-flag r))
read_event-body version kind (modified k v r) rest new h =
    just-got (read_modified_event (flag r)) (modified k v r) (event_body (modified k v r) rest) rest
      (keyed k v (λ key x. modified key x (is_set (flag r))) rest h.0 h.1
        ∙ ap (λ t. got (modified k v t) rest) (is_set-flag r))
read_event-body version kind (removed k r) rest new h =
    just-got (read_removed_event (flag r)) (removed k r) (event_body (removed k r) rest) rest (
      named k (λ key. removed key (is_set (flag r))) rest h
      ∙ ap (λ t. got (removed k t) rest) (is_set-flag r))
read_event-body version kind (expired k) rest new h =
    let recent : leb 21 version ≡ true = ground arith in
    rw recent (
      just-got (read_expired_event) (expired k) (event_body (expired k) rest) rest
        (named k expired rest h))
read_event-body version kind (custom bytes r) rest new h =
    just-got (read_custom_event (flag r)) (custom bytes r) (event_body (custom bytes r) rest) rest (
      named bytes (λ key. custom key (is_set (flag r))) rest h
      ∙ ap (λ t. got (custom bytes t) rest) (is_set-flag r))

is_event-code :
    (kind : EntryKind) (e : Event)
    → (is_event (code_of kind e) ≡ true) × ((code_of kind e == error_response) ≡ false)
unfolding is_event
is_event-code kind (created k v r) = (refl, refl)
is_event-code kind (modified k v r) = (refl, refl)
is_event-code kind (removed k r) = (refl, refl)
is_event-code kind (expired k) = (refl, refl)
is_event-code of_created (custom bytes r) = (refl, refl)
is_event-code of_modified (custom bytes r) = (refl, refl)
is_event-code of_removed (custom bytes r) = (refl, refl)
is_event-code of_expired (custom bytes r) = (refl, refl)

-- What is read of a message after its header.
abbrev pub flagged : ℕ → ℕ → List ℕ → Reader (Outcome Turn)
flagged version code list_id = read_byte >>= λ is_custom. read_byte >>= λ is_retried.
    read_event version code is_custom is_retried >>= λ e. return (ok (delivers list_id e))

-- The message after its header.
abbrev after_header : Message → List ℕ → List ℕ
after_header m rest =
    write_array m.listener_id
    ++ (custom_flag m.event ∷ retried_flag m.event ∷ event_body m.event rest)

read_body-after_header :
    (version : ℕ) (m : Message) (rest : List ℕ)
    → 21 ≤ version
    → IsSendable m
    → read_body version (ok (code_of m.kind m.event)) (after_header m rest)
      ≡ got (ok (delivers m.listener_id (some m.event))) rest
unfolding read_body read_byte
read_body-after_header version m rest new h =
    let code = code_of m.kind m.event in
    rw ((is_event-code m.kind m.event).0) (
      >>=-got read_array (flagged version code) (after_header m rest) (
        read_array-write_array m.listener_id
          (custom_flag m.event ∷ retried_flag m.event ∷ event_body m.event rest) h.listener_fits)
      ∙ >>=-got (read_event version code (custom_flag m.event) (retried_flag m.event))
          (λ e. return (ok (delivers m.listener_id e))) (event_body m.event rest)
          (read_event-body version m.kind m.event rest new h.event_fits))

pub turn-event_bytes :
    (a : Address) (version : ℕ) (m : Message) (rest : List ℕ)
    → 21 ≤ version
    → IsSendable m
    → turn a version (event_bytes m rest) ≡ got (ok (delivers m.listener_id (some m.event))) rest
unfolding turn
turn-event_bytes a version m rest new h =
    >>=-got (read_event_header a) (read_body version) (event_bytes m rest) (
      read_event_header-bytes a m.message_id (code_of m.kind m.event) (after_header m rest)
        h.id_fits (is_event-code m.kind m.event).1)
    ∙ read_body-after_header version m rest new h
