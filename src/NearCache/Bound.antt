-- ===== src/NearCache/Bound.antt =====
-- The size of the near map over every interleaving of the threads that share it: the application's,
-- the listener's, and that of a fail-over. Each step is one section under `_nearMutex`.
use cpp_client.Prelude.{
  ℕ, ◌+◌, ◌≤◌, ◌<◌, ◌≡◌, refl, ap, ◌∙◌, inl, inr, true, List, [], ◌∷◌, ◌++◌, length, arith, ltb,
  leb, Bool-cases,
}
use cpp_client.Prelude.Maps.{
  bytes_same_iff, bytes_key, contains, erase, contains-insert, contains-erase, length-insert,
  length-erase, length-erase_lt,
}
use cpp_client.NearCache.Map.{
  Bytes, VersionedValue, Near, drop_stale, evict_front, make_room, enqueue, add_element_to_map,
  remove_element_from_map, clear_map, invalidate_cache, init_near,
}
use cpp_client.NearCache.Queue.{
  mem, NearMap, mem-append, mem_last, mem-erase_first, mem-drop_stale, drop_stale-append,
  drop_stale_head, some_key,
}

-- Every key of the map stands in the queue; with a limit, the map keeps to it.
pub record IsBounded (c : Near) : Type 0 where
  pub tracked :
      0 < c.max_entries → (k : Bytes) → contains k c.near_map ≡ true → mem k c.near_fifo ≡ true
  pub bounded : 0 < c.max_entries → length c.near_map ≤ c.max_entries

init-IsBounded : (max : ℕ) → IsBounded (init_near max)
unfolding init_near contains
init-IsBounded max = record { tracked = λ h k live. cc; bounded = λ h. omega arith }

-- The queue once a key has been pushed and room has been made: the map is below the limit, its keys
-- and the pushed one stand in the queue.
record HasRoom (k : Bytes) (c : Near) : Type 0 where
  kept : (j : Bytes) → contains j c.near_map ≡ true → mem j c.near_fifo ≡ true
  pushed : mem k c.near_fifo ≡ true
  below : length c.near_map < c.max_entries

survivor :
    (k j i : Bytes) (js : List Bytes) (m : NearMap)
    → contains i (erase j m) ≡ true
    → (contains i m ≡ true → mem i (j ∷ js) ≡ true)
    → mem i (js ++ (k ∷ [])) ≡ true
unfolding mem
survivor k j i js m h all =
    ground (arith, contains-erase j i m, bytes_same_iff j i, mem-append i js (k ∷ []))

evicted-HasRoom :
    (k j : Bytes) (js : List Bytes) (c : Near)
    → 0 < c.max_entries
    → IsBounded c
    → contains j c.near_map ≡ true
    → ((i : Bytes) → contains i c.near_map ≡ true → mem i (j ∷ js) ≡ true)
    → HasRoom k (evict_front (enqueue k c) (j ∷ (js ++ (k ∷ []))))
unfolding evict_front enqueue
evicted-HasRoom k j js c pos b live all = record {
  kept = λ i h. survivor k j i js c.near_map h (all i);
  pushed = mem_last k js;
  below = omega (arith, length-erase_lt j c.near_map live, b.bounded pos);
}

full-HasRoom :
    (k : Bytes) (c : Near) (front : List Bytes)
    → 0 < c.max_entries
    → IsBounded c
    → drop_stale c.near_map c.near_fifo ≡ front
    → c.max_entries ≤ length c.near_map
    → HasRoom k (evict_front (enqueue k c) (front ++ (k ∷ [])))
full-HasRoom k c [] pos b e full =
    let (x, live) = some_key c.near_map (omega arith) in
    let found = mem-drop_stale c.near_map x c.near_fifo live (b.tracked pos x live) in
    absurd (unfold mem in cc (found, e))
full-HasRoom k c (j ∷ js) pos b e full =
    evicted-HasRoom k j js c pos b (drop_stale_head c.near_map c.near_fifo j js e)
      λ i h. rw (← e) (mem-drop_stale c.near_map i c.near_fifo h (b.tracked pos i h))

free-HasRoom :
    (k : Bytes) (c : Near)
    → 0 < c.max_entries
    → IsBounded c
    → length c.near_map < c.max_entries
    → HasRoom k (enqueue k c)
unfolding enqueue
free-HasRoom k c pos b free = record {
  kept = λ i h. ground (arith, mem-append i c.near_fifo (k ∷ []), b.tracked pos i h);
  pushed = mem_last k c.near_fifo;
  below = free;
}

make_room-HasRoom :
    (k : Bytes) (c : Near) → 0 < c.max_entries → IsBounded c → HasRoom k (make_room (enqueue k c))
unfolding make_room enqueue
make_room-HasRoom k c pos b = elim (Bool-cases (leb c.max_entries (length c.near_map))) [
  | inr free ↦ rw free (unfold enqueue in free-HasRoom k c pos b (ground arith))
  | inl full ↦
      let over : c.max_entries ≤ length c.near_map = ground arith in
      let (x, live) = some_key c.near_map (omega arith) in
      rw (full, drop_stale-append c.near_map x c.near_fifo (k ∷ []) live (b.tracked pos x live))
        (unfold enqueue in full-HasRoom k c (drop_stale c.near_map c.near_fifo) pos b refl over)
]

evict_front-max : (c : Near) (ks : List Bytes) → (evict_front c ks).max_entries ≡ c.max_entries
unfolding evict_front
evict_front-max c [] = refl
evict_front-max c (k ∷ ks) = refl

make_room-max : (k : Bytes) (c : Near) → (make_room (enqueue k c)).max_entries ≡ c.max_entries
unfolding make_room enqueue
make_room-max k c =
    ground (arith, evict_front-max (enqueue k c) (drop_stale c.near_map (c.near_fifo ++ (k ∷ []))))

add-IsBounded :
    (k : Bytes) (v : VersionedValue) (c : Near) → IsBounded c → IsBounded (add_element_to_map k v c)
unfolding add_element_to_map
add-IsBounded k v c b = elim (Bool-cases (ltb 0 c.max_entries)) [
  | inr unlimited ↦
      rw unlimited
        (record { tracked = λ h. absurd (ground arith); bounded = λ h. absurd (ground arith) })
  | inl limited ↦
      let room = make_room-HasRoom k c (ground arith) b in
      rw limited (record {
        tracked = λ _ j h. ground (
          arith,
          contains-insert k j v (make_room (enqueue k c)).near_map,
          bytes_same_iff k j,
          room.kept j,
          room.pushed,
        );
        bounded =
            λ _. omega (arith, length-insert k v (make_room (enqueue k c)).near_map, room.below);
      })
]

remove-IsBounded : (k : Bytes) (c : Near) → IsBounded c → IsBounded (remove_element_from_map k c)
unfolding remove_element_from_map
remove-IsBounded k c b = record {
  tracked = λ pos j h.
      ground
        (arith, contains-erase k j c.near_map, b.tracked pos j, mem-erase_first k j c.near_fifo);
  bounded = λ pos. omega (arith, length-erase k c.near_map, b.bounded pos);
}

emptied-IsBounded : (c : Near) → c.near_map ≡ [] → IsBounded c
unfolding contains
emptied-IsBounded c e = record { tracked = λ _ j h. cc; bounded = λ _. omega (arith, ap length e) }

-- The sections under `_nearMutex` (and the flag of `stop`), as steps of whichever thread.
pub data Change : Near → Near → Type 0 where
  adds : (k : Bytes) (v : VersionedValue) (c : Near) → Change c (add_element_to_map k v c)
  removes : (k : Bytes) (c : Near) → Change c (remove_element_from_map k c)
  clears : (c : Near) → Change c (clear_map c)
  invalidates : (c : Near) → Change c (invalidate_cache c)
  hits : (c : Near) → Change c (record c { hits = c.hits + 1 })
  shuts_down : (c : Near) → Change c (record c { shutdown = true })

pub data Reach (c : Near) : Near → Type 0 where
  here : Reach c c
  next : {d e : Near} → Reach c d → Change d e → Reach c e

pub Reach-trans : {c d e : Near} → Reach c d → Reach d e → Reach c e
Reach-trans r here = r
Reach-trans r (next q ch) = next (Reach-trans r q) ch

Change-IsBounded : {c d : Near} → Change c d → IsBounded c → IsBounded d
Change-IsBounded (adds k v c) b = add-IsBounded k v c b
Change-IsBounded (removes k c) b = remove-IsBounded k c b
Change-IsBounded (clears c) b = emptied-IsBounded _ (unfold clear_map in refl)
Change-IsBounded (invalidates c) b = emptied-IsBounded _ (unfold invalidate_cache in refl)
Change-IsBounded (hits c) b = record { tracked = b.tracked; bounded = b.bounded }
Change-IsBounded (shuts_down c) b = record { tracked = b.tracked; bounded = b.bounded }

pub Reach-IsBounded : {c d : Near} → IsBounded c → Reach c d → IsBounded d
Reach-IsBounded b here = b
Reach-IsBounded b (next r ch) = Change-IsBounded ch (Reach-IsBounded b r)

Change-max : {c d : Near} → Change c d → d.max_entries ≡ c.max_entries
Change-max (adds k v c) = unfold add_element_to_map in ground (arith, make_room-max k c)
Change-max (removes k c) = unfold remove_element_from_map in refl
Change-max (clears c) = unfold clear_map in refl
Change-max (invalidates c) = unfold invalidate_cache in refl
Change-max (hits c) = refl
Change-max (shuts_down c) = refl

Reach-max : {c d : Near} → Reach c d → d.max_entries ≡ c.max_entries
Reach-max here = refl
Reach-max (next r ch) = Change-max ch ∙ Reach-max r

-- With a positive limit, however the threads interleave their sections from the start of the cache,
-- the near map never holds more entries than the limit.
pub Reach-within-limit :
    (max : ℕ) (c : Near) → 0 < max → Reach (init_near max) c → length c.near_map ≤ max
Reach-within-limit max c pos r =
    let e : c.max_entries ≡ max = unfold init_near in Reach-max r in
    omega (arith, e, (Reach-IsBounded (init-IsBounded max) r).bounded (omega (arith, e)))

-- With a positive limit, however the threads interleave their sections from the start of the cache,
-- every key of the near map stands in the eviction queue.
Reach-tracked :
    (max : ℕ) (c : Near) (k : Bytes)
    → 0 < max
    → Reach (init_near max) c
    → contains k c.near_map ≡ true
    → mem k c.near_fifo ≡ true
Reach-tracked max c k pos r =
    let e : c.max_entries ≡ max = unfold init_near in Reach-max r in
    (Reach-IsBounded (init-IsBounded max) r).tracked (omega (arith, e)) k
