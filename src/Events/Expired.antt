-- ===== src/Events/Expired.antt =====
-- An expired event before version 2.1 of the protocol, which EventDispatcher::run does not read.
use cpp_client.Prelude.{
  ◌==◌, ◌==◌, ℕ, ◌<◌, ◌^◌, ◌≡◌, refl, ap, ◌∙◌, false, List, ◌∷◌, ◌++◌, length, none, arith, leb,
}
use cpp_client.Prelude.Words.{u32, IsU64}
use cpp_client.Address.{Address}
use cpp_client.Exceptions.{Outcome, ok, throws, invalid_response}
use cpp_client.Wire.Stream.{Reader, got, ◌>>=◌, >>=-got, return}
use cpp_client.Wire.Read.{read_byte, read_array}
use cpp_client.Wire.Write.{write_vint, write_array}
use cpp_client.Wire.VarInt.{write_vint-small}
use cpp_client.Wire.Arrays.{read_array-write_array}
use cpp_client.Protocol.OpCodes.{is_event}
use cpp_client.Events.Read.{expired, read_event_header, after_event_magic}
use cpp_client.Events.Dispatcher.{
  read_event, read_body, turn, Turn, delivers, ends, terminates, caught, deliver, after_turn, run,
  dispatch,
}
use cpp_client.Events.Layout.{
  of_expired, Message, after_magic, event_bytes, flagged, read_event_header-bytes,
}

module _ (a : Address) (version : ℕ) (old : version < 21) where
  unread : (input : List ℕ) → read_event version 0x63 0 0 input ≡ got none input
  unfolding read_event
  unread input = let earlier : leb 21 version ≡ false = ground arith in rw (earlier) refl

  -- What follows the header of the event.
  abbrev after_header : List ℕ → List ℕ → List ℕ → List ℕ
  after_header list_id key rest = write_array list_id ++ (0 ∷ 0 ∷ (write_array key ++ rest))

  read_body-unread :
      (list_id key rest : List ℕ)
      → length list_id < 2 ^ 32
      → read_body version (ok 0x63) (after_header list_id key rest)
        ≡ got (ok (delivers list_id none)) (write_array key ++ rest)
  unfolding read_body read_byte is_event
  read_body-unread list_id key rest hl =
      >>=-got read_array (flagged version 0x63) (after_header list_id key rest)
        (read_array-write_array list_id (0 ∷ 0 ∷ (write_array key ++ rest)) hl)
      ∙ >>=-got (read_event version 0x63 0 0)
          (λ e. return {A = Outcome Turn} (ok (delivers list_id e))) (write_array key ++ rest)
          (unread (write_array key ++ rest))

  turn-unread :
      (id : ℕ) (list_id key rest : List ℕ)
      → IsU64 id
      → length list_id < 2 ^ 32
      → turn a version (
          event_bytes
            (record {
              message_id = id;
              listener_id = list_id;
              kind = of_expired;
              event = expired key;
            })
            rest)
        ≡ got (ok (delivers list_id none)) (write_array key ++ rest)
  unfolding turn
  turn-unread id list_id key rest hid hl =
      >>=-got (read_event_header a) (read_body version)
        (event_bytes
          (record {
            message_id = id;
            listener_id = list_id;
            kind = of_expired;
            event = expired key;
          })
          rest)
        (read_event_header-bytes a id 0x63 (after_header list_id key rest) hid refl)
      ∙ read_body-unread list_id key rest hl

  wrong_magic : (n : ℕ) → n < 128 → after_event_magic a n ≡ return (throws invalid_response)
  unfolding after_event_magic
  wrong_magic n h = let other : (n == 0xA1) ≡ false = ground arith in rw (other) refl

  misread :
      (n : ℕ) (rest : List ℕ)
      → n < 128
      → turn a version (n ∷ rest) ≡ got (throws invalid_response) rest
  unfolding turn read_event_header read_byte read_body
  misread n rest h =
      ap (λ (m : Reader (Outcome ℕ)). (m >>= read_body version) rest) (wrong_magic n h)

  unread_key : (key : List ℕ) → length key < 128 → write_array key ≡ length key ∷ key
  unfolding write_array
  unread_key key h =
      let n : u32 (length key) ≡ length key = omega arith in
      ap (λ t. write_vint t ++ key) n ∙ ap (λ t. t ++ key) (write_vint-small (length key) h)

  -- Before version 2.1, an expired event whose key has less than 128 bytes ends the program: no
  -- listener gets it, and the key, which is left on the stream, is taken for the next message, so that
  -- an exception that is no TransportException leaves the thread.
  pub dispatch-expired :
      (id : ℕ) (list_id key rest : List ℕ)
      → IsU64 id
      → length list_id < 2 ^ 32
      → length key < 128
      → dispatch a version (
          event_bytes
            (record {
              message_id = id;
              listener_id = list_id;
              kind = of_expired;
              event = expired key;
            })
            rest)
        ≡ ends (terminates invalid_response)
  unfolding dispatch run after_turn caught deliver
  dispatch-expired id list_id key rest hid hl hk =
      let message : Message = record {
        message_id = id;
        listener_id = list_id;
        kind = of_expired;
        event = expired key;
      } in
      let next = run a version (length (event_bytes message rest)) in
      ap (after_turn next) (turn-unread id list_id key rest hid hl)
      ∙ ap (λ t. next (t ++ rest)) (unread_key key hk)
      ∙ ap (after_turn (run a version (length (after_magic message rest))))
          (misread (length key) (key ++ rest) hk)
