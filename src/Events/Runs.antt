-- ===== src/Events/Runs.antt =====
-- What the thread of a dispatcher makes of all that the server sends.
use cpp_client.Prelude.{
  Bool, true, false, sym, ℕ, zero, suc, ◌≤◌, ◌<◌, ◌≡◌, ◌≢◌, refl, ap, ◌∙◌, subst, List, [], ◌∷◌,
  length, All, Option, none, some, arith,
}
use cpp_client.Address.{Address}
use cpp_client.Exceptions.{Exception, Outcome, ok, throws, fault, transport}
use cpp_client.Wire.Stream.{Read, got, ended, undefined}
use cpp_client.Wire.Read.{read_byte}
use cpp_client.Wire.Shrinks.{Leaves}
use cpp_client.Events.Read.{Event, read_event_header}
use cpp_client.Events.Dispatcher.{
  Turn, stops, delivers, turn, Dispatched, Ending, running, deliver, after_turn, caught, run,
  dispatch,
}
use cpp_client.Events.Layout.{Message, after_magic, IsSendable, event_bytes, turn-event_bytes}
use cpp_client.Events.Shrinks.{turn-Leaves}

after_turn-same :
    (n : ℕ) (next later : List ℕ → Dispatched) (x : Read (Outcome Turn))
    → Leaves n x
    → ((rest : List ℕ) → length rest ≤ n → next rest ≡ later rest)
    → after_turn next x ≡ after_turn later x
unfolding after_turn
after_turn-same n next later (got (ok stops) rest) h e = refl
after_turn-same n next later (got (ok (delivers l o)) rest) h e = ap (deliver l o) (e rest h)
after_turn-same n next later (got (throws x) rest) h e = refl
after_turn-same n next later (got fault rest) h e = refl
after_turn-same n next later ended h e = refl
after_turn-same n next later undefined h e = refl

abbrev is_running : Ending → Bool
is_running running = true
is_running _ = false

caught-ends : (e : Exception) → is_running (caught e) ≡ false
unfolding caught
caught-ends (transport h p) = refl
caught-ends _ = refl

deliver-ends :
    (l : List ℕ) (o : Option Event) (d : Dispatched)
    → is_running d.ending ≡ false
    → is_running (deliver l o d).ending ≡ false
unfolding deliver
deliver-ends l none d h = h
deliver-ends l (some e) d h = h

after_turn-ends :
    (n : ℕ) (next : List ℕ → Dispatched) (x : Read (Outcome Turn))
    → Leaves n x
    → ((rest : List ℕ) → length rest ≤ n → is_running (next rest).ending ≡ false)
    → is_running (after_turn next x).ending ≡ false
unfolding after_turn
after_turn-ends n next (got (ok stops) rest) h e = refl
after_turn-ends n next (got (ok (delivers l o)) rest) h e = deliver-ends l o (next rest) (e rest h)
after_turn-ends n next (got (throws x) rest) h e = caught-ends x
after_turn-ends n next (got fault rest) h e = refl
after_turn-ends n next ended h e = refl
after_turn-ends n next undefined h e = refl

module _ (a : Address) (version : ℕ) where
  run-enough :
      (fuel more : ℕ) (input : List ℕ)
      → length input < fuel
      → length input < more
      → run a version fuel input ≡ run a version more input
  unfolding run turn read_event_header read_byte
  run-enough zero more input h g = absurd (omega arith)
  run-enough (suc fuel) zero input h g = absurd (omega arith)
  run-enough (suc fuel) (suc more) [] h g = refl
  run-enough (suc fuel) (suc more) (b ∷ input) h g =
      after_turn-same (length input) (run a version fuel) (run a version more)
        (turn a version (b ∷ input)) (turn-Leaves a version b input)
        λ rest le. run-enough fuel more rest (omega arith) (omega arith)

  -- The messages, one after the other, with the bytes that follow them.
  abbrev pub stream : List Message → List ℕ → List ℕ
  stream [] rest = rest
  stream (m ∷ ms) rest = event_bytes m (stream ms rest)

  abbrev pub deliveries : List Message → Dispatched → Dispatched
  deliveries [] d = d
  deliveries (m ∷ ms) d = deliver m.listener_id (some m.event) (deliveries ms d)

  -- From version 2.1 of the protocol on, listeners get exactly the events that the server sends, a
  -- custom one under any of the four codes, each with the id of its listener and in their order, and
  -- then what follows is read.
  pub dispatch-stream :
      (ms : List Message) (rest : List ℕ)
      → 21 ≤ version
      → All IsSendable ms
      → dispatch a version (stream ms rest) ≡ deliveries ms (dispatch a version rest)
  unfolding dispatch
  dispatch-stream [] rest new all = refl
  dispatch-stream (m ∷ ms) rest new all =
      let later = stream ms rest in
      let turned = turn-event_bytes a version m later new all.0 in
      let left : Leaves (length (after_magic m later))
          (got (ok (delivers m.listener_id (some m.event))) later) =
        subst (Leaves (length (after_magic m later))) turned
          (turn-Leaves a version 0xA1 (after_magic m later)) in
      ap (after_turn (run a version (length (event_bytes m later)))) turned
      ∙ ap (deliver m.listener_id (some m.event)) (
          run-enough (length (event_bytes m later)) (suc (length later)) later (omega (arith, left))
            (omega arith)
          ∙ dispatch-stream ms rest new all.1)

  run-ends :
      (fuel : ℕ) (input : List ℕ)
      → length input < fuel
      → is_running (run a version fuel input).ending ≡ false
  unfolding run turn read_event_header read_byte after_turn
  run-ends zero input h = absurd (omega arith)
  run-ends (suc fuel) [] h = refl
  run-ends (suc fuel) (b ∷ input) h =
      after_turn-ends (length input) (run a version fuel) (turn a version (b ∷ input))
        (turn-Leaves a version b input) λ rest le. run-ends fuel rest (omega arith)

  -- Whatever the server sends before the stream ends, the loop comes to an end of its own.
  pub dispatch-ends : (input : List ℕ) → (dispatch a version input).ending ≢ running
  unfolding dispatch
  dispatch-ends input h =
      let no : is_running running ≡ false =
        ap is_running (sym h) ∙ run-ends (suc (length input)) input (omega arith) in
      cc
