-- ===== src/NearCache/Calls.antt =====
-- The public operations: what they answer, when they ask the server, and what they leave near.
use cpp_client.Prelude.{
  ap, ◌≤◌, length, ◌<◌, Bool-cases, ℕ, ◌+◌, ◌≡◌, refl, Bool, true, false, List, [], ◌∷◌, Option,
  none, some, arith, if◌then◌else◌, Option-cases, inl, inr,
}
use cpp_client.Exceptions.{Outcome, ok, throws, fault}
use cpp_client.Prelude.Maps.{bytes_same}
use cpp_client.NearCache.Map.{
  add_element_to_map, init_near, Bytes, VersionedValue, Near, near_find, add_element_to_map,
}
use cpp_client.NearCache.Operations.{
  Remote, State, get_with_version, put, replace, remove, replace_with_version, remove_with_version,
  forget_if, keep_remote, clear, fail_over, stop, Call, gets, puts, replaces, replaces_with_version,
  removes, removes_with_version, clears, entry_event, fails_over, stops, step, run, clear_near,
  stopped,
}
use cpp_client.NearCache.Contents.{near_find-remove, near_find-add_self}
use cpp_client.NearCache.Bound.{Reach-trans, Reach-within-limit, Change, adds, Reach, here, next}

-- The server answered that it did what was asked.
abbrev pub is_done : Outcome Bool → Bool
is_done (ok b) = b
is_done (throws e) = false
is_done fault = false

module _ (r : Remote) where
  -- A hit is answered from the near map: the server is not asked, no entry changes, and one hit more
  -- is counted.
  get-hit :
      (k : Bytes) (s : State r) (e : VersionedValue)
      → near_find k s.near ≡ some e
      → get_with_version r k s ≡ (
        ok (some (r.unmarshall e.value, e.version)),
        record s { near = record s.near { hits = s.near.hits + 1 } },
      )
  unfolding get_with_version
  get-hit k s e h = ground arith

  keep_remote-Reach :
      (k : Bytes) (c : Near) (a : Outcome (Option (r.Object × ℕ)) × r.World)
      → Reach c (keep_remote r k c a).1.near
  unfolding keep_remote
  keep_remote-Reach k c (ok (some (v, n)), w) = next here (adds k _ c)
  keep_remote-Reach k c (ok none, w) = here
  keep_remote-Reach k c (throws e, w) = here
  keep_remote-Reach k c (fault, w) = here

  forget_if-Reach :
      (k : Bytes) (c : Near) (a : Outcome Bool × r.World) → Reach c (forget_if r k c a).1.near
  unfolding forget_if
  forget_if-Reach k c (ok true, w) = next here (Change.removes k c)
  forget_if-Reach k c (ok false, w) = here
  forget_if-Reach k c (throws e, w) = here
  forget_if-Reach k c (fault, w) = here

  clear_near-Reach :
      (c : Near) (a : Outcome (Unit {0}) × r.World) → Reach c (clear_near r c a).1.near
  unfolding clear_near
  clear_near-Reach c (ok _, w) = next here (Change.clears c)
  clear_near-Reach c (throws e, w) = here
  clear_near-Reach c (fault, w) = here

  stopped-Reach :
      (c : Near) (a : Outcome (Unit {0}) × r.World)
      → Reach c (stopped r (record c { shutdown = true }) a).1.near
  unfolding stopped
  stopped-Reach c (ok _, w) = next (next here (Change.shuts_down c)) (Change.invalidates _)
  stopped-Reach c (throws e, w) = next here (Change.shuts_down c)
  stopped-Reach c (fault, w) = next here (Change.shuts_down c)

  get-Reach : (k : Bytes) (s : State r) → Reach s.near (get_with_version r k s).1.near
  unfolding get_with_version
  get-Reach k s = elim (Option-cases (near_find k s.near)) [
    | inl miss ↦ rw (miss, get_with_version) (keep_remote-Reach k s.near _)
    | inr (e, hit) ↦ rw (hit, get_with_version) (next here (Change.hits s.near))
  ]

  fail_over-Reach : (s : State r) → Reach s.near (fail_over r s).1.near
  unfolding fail_over
  fail_over-Reach s = elim (Bool-cases s.near.shutdown) [
    | inl down ↦ simp down here
    | inr up ↦ simp up (next here (Change.invalidates s.near))
  ]

  -- Each call changes the near cache by a sequence of the sections under its mutex.
  pub step-Reach : (s : State r) (call : Call r) → Reach s.near (step r s call).near
  unfolding step put replace remove replace_with_version remove_with_version clear stop
  step-Reach s (gets k) = get-Reach k s
  step-Reach s (puts k v) = next here (Change.removes k s.near)
  step-Reach s (replaces k v) = next here (Change.removes k s.near)
  step-Reach s (replaces_with_version k v n) = forget_if-Reach k s.near _
  step-Reach s (removes k) = next here (Change.removes k s.near)
  step-Reach s (removes_with_version k n) = forget_if-Reach k s.near _
  step-Reach s clears = clear_near-Reach s.near _
  step-Reach s (entry_event k) = next here (Change.removes k s.near)
  step-Reach s fails_over = fail_over-Reach s
  step-Reach s stops = stopped-Reach s.near _

  run-Reach : (s : State r) (calls : List (Call r)) → Reach s.near (run r s calls).near
  unfolding run
  run-Reach s [] = here
  run-Reach s (c ∷ cs) = Reach-trans (step-Reach s c) (run-Reach (step r s c) cs)

  -- Any sequence of calls from the start of a cache with a positive limit, whatever the server
  -- answers or throws, leaves at most that many entries near.
  run-within-limit :
      (max : ℕ) (w : r.World) (calls : List (Call r))
      → 0 < max
      → length (run r (record { near = init_near max; world = w }) calls).near.near_map ≤ max
  run-within-limit max w calls pos =
      Reach-within-limit max _ pos (run-Reach (record { near = init_near max; world = w }) calls)

  get_miss :
      (k : Bytes) (s : State r) (v : r.Object) (n : ℕ) (w : r.World)
      → near_find k s.near ≡ none
      → r.get_with_version k s.world ≡ (ok (some (v, n)), w)
      → get_with_version r k s ≡ (
        ok (some (v, n)),
        record {
          near = add_element_to_map k (record { value = r.marshall v; version = n }) s.near;
          world = w;
        },
      )
  unfolding get_with_version
  get_miss k s v n w miss answer = rw (miss, answer, get_with_version, keep_remote)

  -- After a miss that the server answered with a value, the next get of the key gives that value, as
  -- it was marshalled, and its version, and does not ask the server again.
  pub get-get_miss :
      (k : Bytes) (s : State r) (v : r.Object) (n : ℕ) (w : r.World)
      → near_find k s.near ≡ none
      → r.get_with_version k s.world ≡ (ok (some (v, n)), w)
      → let s' = (get_with_version r k s).1 in
        (s'.world ≡ w)
        × (get_with_version r k s' ≡ (
          ok (some (r.unmarshall (r.marshall v), n)),
          record s' { near = record s'.near { hits = s'.near.hits + 1 } },
        ))
  get-get_miss k s v n w miss answer =
      let kept : VersionedValue = record { value = r.marshall v; version = n } in
      let e = get_miss k s v n w miss answer in
      let s' = (get_with_version r k s).1 in
      let found : near_find k s'.near ≡ some kept = rw e (near_find-add_self k kept s.near) in
      (ap (λ (p : Outcome (Option (r.Object × ℕ)) × State r). p.1.world) e, get-hit k s' kept found)

  -- put, replace and remove drop the key's near entry and no other, whatever the server answers.
  forget_then-near_find :
      (k j : Bytes) (v : r.Object) (s : State r)
      → (near_find j (put r k v s).1.near ≡ (if bytes_same k j then none else near_find j s.near))
        × (near_find j (replace r k v s).1.near
            ≡ (if bytes_same k j then none else near_find j s.near))
        × (near_find j (remove r k s).1.near
            ≡ (if bytes_same k j then none else near_find j s.near))
  unfolding put replace remove
  forget_then-near_find k j v s =
      (near_find-remove k j s.near, near_find-remove k j s.near, near_find-remove k j s.near)

  forget_if-near_find :
      (k j : Bytes) (c : Near) (a : Outcome Bool × r.World)
      → near_find j (forget_if r k c a).1.near
        ≡ (if is_done a.0 then (if bytes_same k j then none else near_find j c) else near_find j c)
  unfolding forget_if
  forget_if-near_find k j c (ok true, w) = near_find-remove k j c
  forget_if-near_find k j c (ok false, w) = refl
  forget_if-near_find k j c (throws e, w) = refl
  forget_if-near_find k j c (fault, w) = refl

  -- replaceWithVersion and removeWithVersion drop the key's near entry if the server answers that it
  -- did what was asked, and otherwise, an exception included, change no entry.
  versioned-near_find :
      (k j : Bytes) (v : r.Object) (n : ℕ) (s : State r)
      → (near_find j (replace_with_version r k v n s).1.near ≡ (
          if is_done (r.replace_with_version k v n s.world).0
          then (if bytes_same k j then none else near_find j s.near)
          else near_find j s.near))
        × (near_find j (remove_with_version r k n s).1.near ≡ (
            if is_done (r.remove_with_version k n s.world).0
            then (if bytes_same k j then none else near_find j s.near)
            else near_find j s.near))
  unfolding replace_with_version remove_with_version
  versioned-near_find k j v n s =
      (forget_if-near_find k j s.near _, forget_if-near_find k j s.near _)
