-- ===== src/NearCache/Operations.antt =====
-- The public operations of NearRemoteCacheImpl, the handlers of its listener, and histories of
-- them. What RemoteCacheImpl does over the network is an interface of this module.
use cpp_client.Prelude.{ℕ, ◌+◌, Bool, true, false, List, [], ◌∷◌, Option, none, some, if◌then◌else◌}
use cpp_client.Exceptions.{Outcome, ok, throws, fault}
use cpp_client.NearCache.Map.{
  Bytes, VersionedValue, Near, near_find, add_element_to_map, remove_element_from_map, clear_map,
  invalidate_cache,
}

-- The remote operations of the base class and the marshaller of the cache. A state `World` stands
-- for the server and the connection; values are objects of the application.
pub record Remote : Type 1 where
  pub World : Type 0
  pub Object : Type 0
  pub marshall : Object → Bytes
  pub unmarshall : Bytes → Object
  pub get_with_version : Bytes → World → Outcome (Option (Object × ℕ)) × World
  pub put : Bytes → Object → World → Outcome (Option Object) × World
  pub replace : Bytes → Object → World → Outcome (Option Object) × World
  pub replace_with_version : Bytes → Object → ℕ → World → Outcome Bool × World
  pub remove : Bytes → World → Outcome (Option Object) × World
  pub remove_with_version : Bytes → ℕ → World → Outcome Bool × World
  pub clear : World → Outcome (Unit {0}) × World
  pub add_client_listener : World → Outcome (Unit {0}) × World
  pub remove_client_listener : World → Outcome (Unit {0}) × World

module _ (r : Remote) where
  -- The near cache beside the world.
  pub record State : Type 0 where
    pub near : Near
    pub world : r.World

  -- `getWithVersion` after a miss: what the server returned is marshalled and kept.
  unfoldable pub keep_remote :
      Bytes
      → Near
      → Outcome (Option (r.Object × ℕ)) × r.World
      → Outcome (Option (r.Object × ℕ)) × State
  keep_remote k c (ok (some (v, version)), w) =
      let kept : VersionedValue = record { value = r.marshall v; version = version } in
      (ok (some (v, version)), record { near = add_element_to_map k kept c; world = w })
  keep_remote k c (ok none, w) = (ok none, record { near = c; world = w })
  keep_remote k c (throws e, w) = (throws e, record { near = c; world = w })
  keep_remote k c (fault, w) = (fault, record { near = c; world = w })

  unfoldable pub get_with_version : Bytes → State → Outcome (Option (r.Object × ℕ)) × State
  unfolding keep_remote
  get_with_version k s = elim (near_find k s.near) [
    | some e ↦ (
      ok (some (r.unmarshall e.value, e.version)),
      record s { near = record s.near { hits = s.near.hits + 1 } },
    )
    | none ↦ keep_remote k s.near (r.get_with_version k s.world)
  ]

  -- The near entry goes first, then the server is asked.
  unfoldable pub forget_then {ℓ} :
      {A : Type ℓ} → Bytes → (r.World → Outcome A × r.World) → State → Outcome A × State
  forget_then k op s =
      let (result, w) = op s.world in
      (result, record { near = remove_element_from_map k s.near; world = w })

  unfoldable pub put : Bytes → r.Object → State → Outcome (Option r.Object) × State
  unfolding forget_then
  put k v = forget_then k (r.put k v)

  unfoldable pub replace : Bytes → r.Object → State → Outcome (Option r.Object) × State
  unfolding forget_then
  replace k v = forget_then k (r.replace k v)

  unfoldable pub remove : Bytes → State → Outcome (Option r.Object) × State
  unfolding forget_then
  remove k = forget_then k (r.remove k)

  -- The server is asked first, and the near entry goes if it did what was asked.
  unfoldable pub forget_if : Bytes → Near → Outcome Bool × r.World → Outcome Bool × State
  forget_if k c (ok true, w) = (ok true, record { near = remove_element_from_map k c; world = w })
  forget_if k c (ok false, w) = (ok false, record { near = c; world = w })
  forget_if k c (throws e, w) = (throws e, record { near = c; world = w })
  forget_if k c (fault, w) = (fault, record { near = c; world = w })

  unfoldable pub replace_with_version : Bytes → r.Object → ℕ → State → Outcome Bool × State
  unfolding forget_if
  replace_with_version k v version s =
      forget_if k s.near (r.replace_with_version k v version s.world)

  unfoldable pub remove_with_version : Bytes → ℕ → State → Outcome Bool × State
  unfolding forget_if
  remove_with_version k version s = forget_if k s.near (r.remove_with_version k version s.world)

  unfoldable pub clear_near : Near → Outcome (Unit {0}) × r.World → Outcome (Unit {0}) × State
  clear_near c (ok _, w) = (ok tt, record { near = clear_map c; world = w })
  clear_near c (throws e, w) = (throws e, record { near = c; world = w })
  clear_near c (fault, w) = (fault, record { near = c; world = w })

  unfoldable pub clear : State → Outcome (Unit {0}) × State
  unfolding clear_near
  clear s = clear_near s.near (r.clear s.world)

  -- startListener: the four handlers are added to the listener, which is registered.
  unfoldable pub start_listener : State → Outcome (Unit {0}) × State
  start_listener s =
      let (result, w) = r.add_client_listener s.world in (result, record s { world = w })

  -- The fail-over handler.
  unfoldable pub fail_over : State → Outcome (Unit {0}) × State
  unfolding start_listener
  fail_over s =
      if s.near.shutdown
      then (ok tt, s)
      else start_listener (record s { near = invalidate_cache s.near })

  -- stop: whatever is thrown stays inside, and then the map is kept.
  unfoldable pub stopped : Near → Outcome (Unit {0}) × r.World → Outcome (Unit {0}) × State
  stopped c (ok _, w) = (ok tt, record { near = invalidate_cache c; world = w })
  stopped c (throws e, w) = (ok tt, record { near = c; world = w })
  stopped c (fault, w) = (fault, record { near = c; world = w })

  unfoldable pub stop : State → Outcome (Unit {0}) × State
  unfolding stopped
  stop s = stopped (record s.near { shutdown = true }) (r.remove_client_listener s.world)

  -- What the application calls and what the listener's thread is told of. The four events call
  -- `removeElementFromMap` alike.
  pub data Call : Type 0 where
    gets : Bytes → Call
    puts : Bytes → r.Object → Call
    replaces : Bytes → r.Object → Call
    replaces_with_version : Bytes → r.Object → ℕ → Call
    removes : Bytes → Call
    removes_with_version : Bytes → ℕ → Call
    clears : Call
    entry_event : Bytes → Call
    fails_over : Call
    stops : Call

  unfoldable pub step : State → Call → State
  step s (gets k) = (get_with_version k s).1
  step s (puts k v) = (put k v s).1
  step s (replaces k v) = (replace k v s).1
  step s (replaces_with_version k v n) = (replace_with_version k v n s).1
  step s (removes k) = (remove k s).1
  step s (removes_with_version k n) = (remove_with_version k n s).1
  step s clears = (clear s).1
  step s (entry_event k) = record s { near = remove_element_from_map k s.near }
  step s fails_over = (fail_over s).1
  step s stops = (stop s).1

  unfoldable pub run : State → List Call → State
  run s [] = s
  run s (c ∷ cs) = run (step s c) cs
