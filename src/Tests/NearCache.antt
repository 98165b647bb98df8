-- ===== src/Tests/NearCache.antt =====
-- A near cache before a server that holds one value for every key.
use cpp_client.Prelude.{ℕ, ◌+◌, ◌≤◌, ◌≡◌, refl, true, false, [], ◌∷◌, length, some, none, arith}
use cpp_client.Prelude.Maps.{lookup, insert, bytes_same, contains, bytes_key}
use cpp_client.Exceptions.{ok}
use cpp_client.NearCache.Map.{
  enqueue, make_room, Bytes, VersionedValue, Near, add_element_to_map, init_near,
}
use cpp_client.NearCache.Queue.{mem}
use cpp_client.NearCache.Bound.{here, next, adds, IsBounded, Reach-within-limit}
use cpp_client.NearCache.Operations.{Remote, State, get_with_version}
use cpp_client.NearCache.Calls.{get-get_miss}

abbrev server : Remote
server = record {
  World = ℕ;
  Object = Bytes;
  marshall = λ v. v;
  unmarshall = λ v. v;
  get_with_version = λ k w. (ok (some (9 ∷ [], 4)), w + 1);
  put = λ k v w. (ok none, w + 1);
  replace = λ k v w. (ok none, w + 1);
  replace_with_version = λ k v n w. (ok true, w + 1);
  remove = λ k w. (ok none, w + 1);
  remove_with_version = λ k n w. (ok false, w + 1);
  clear = λ w. (ok tt, w + 1);
  add_client_listener = λ w. (ok tt, w + 1);
  remove_client_listener = λ w. (ok tt, w + 1);
}

abbrev kept : VersionedValue
kept = record { value = 9 ∷ []; version = 4 }

abbrev one_entry : Near
one_entry = record {
  max_entries = 1;
  near_map = (1 ∷ [], kept) ∷ [];
  near_fifo = (1 ∷ []) ∷ [];
  shutdown = false;
  hits = 0;
  removed = 0;
}

abbrev near_one : State server
near_one = record { near = one_entry; world = 0 }

abbrev empty : State server
empty = record { near = init_near 1; world = 0 }

Reach-within-limit_example : length (add_element_to_map (1 ∷ []) kept (init_near 1)).near_map ≤ 1
Reach-within-limit_example =
    Reach-within-limit 1 _ (omega arith) (next here (adds (1 ∷ []) kept (init_near 1)))

one_tracked : contains (1 ∷ []) (add_element_to_map (1 ∷ []) kept (init_near 1)).near_map ≡ true
unfolding contains add_element_to_map init_near insert make_room enqueue bytes_same
one_tracked = refl

one_entry-IsBounded : IsBounded one_entry
unfolding contains mem
one_entry-IsBounded = record { tracked = λ _ k h. ground arith; bounded = λ _. omega arith }

get-get_miss_example :
    ((get_with_version server (1 ∷ []) empty).1.world ≡ 1)
    × (get_with_version server (1 ∷ []) (get_with_version server (1 ∷ []) empty).1 ≡ (
      ok (some (9 ∷ [], 4)),
      record (get_with_version server (1 ∷ []) empty).1 {
        near = record (get_with_version server (1 ∷ []) empty).1.near {
          hits = (get_with_version server (1 ∷ []) empty).1.near.hits + 1;
        };
      },
    ))
unfolding init_near lookup
get-get_miss_example = get-get_miss server (1 ∷ []) empty (9 ∷ []) 4 1 refl refl
