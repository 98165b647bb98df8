-- ===== src/NearCache/Contents.antt =====
-- Which entries the near map holds after each of its operations.
use cpp_client.Prelude.{◌≤◌, ◌<◌, ◌≡◌, List, [], ◌∷◌, length, none, some, arith, if◌then◌else◌}
use cpp_client.Prelude.Maps.{
  bytes_same_iff, insert, lookup, erase, bytes_same, bytes_key, lookup-insert, lookup-erase,
}
use cpp_client.NearCache.Map.{
  Bytes, VersionedValue, Near, near_find, drop_stale, evict_front, make_room, enqueue,
  add_element_to_map, remove_element_from_map,
}
use cpp_client.NearCache.Bound.{IsBounded}
use cpp_client.NearCache.Queue.{NearMap, some_key, drop_stale-append}

-- An invalidated key is gone, and every other entry stays.
pub near_find-remove :
    (k j : Bytes) (c : Near)
    → near_find j (remove_element_from_map k c) ≡ (if bytes_same k j then none else near_find j c)
unfolding remove_element_from_map
near_find-remove k j c = lookup-erase k j c.near_map

-- At the limit, the entry that leaves is that of the first queued key that is still in the map; the
-- added entry is found under its key, and no other entry changes.
near_find-add_full :
    (k j front : Bytes) (v : VersionedValue) (c : Near) (later : List Bytes)
    → 0 < c.max_entries
    → c.max_entries ≤ length c.near_map
    → IsBounded c
    → drop_stale c.near_map c.near_fifo ≡ front ∷ later
    → near_find j (add_element_to_map k v c)
      ≡ (if bytes_same k j then some v else if bytes_same front j then none else near_find j c)
unfolding add_element_to_map make_room enqueue evict_front
near_find-add_full k j front v c later pos full b e =
    let (x, live) = some_key c.near_map (omega arith) in
    let queue = drop_stale-append c.near_map x c.near_fifo (k ∷ []) live (b.tracked pos x live) in
    ground
      (arith, queue, lookup-insert k j v (erase front c.near_map), lookup-erase front j c.near_map)

newest : (k : Bytes) (v : VersionedValue) (m : NearMap) → lookup k (insert k v m) ≡ some v
newest k v m = ground (arith, lookup-insert k k v m, bytes_same_iff k k)

-- With or without a limit, what has just been added is found.
pub near_find-add_self :
    (k : Bytes) (v : VersionedValue) (c : Near) → near_find k (add_element_to_map k v c) ≡ some v
unfolding add_element_to_map
near_find-add_self k v c = newest k v _
