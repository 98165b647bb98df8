-- ===== src/NearCache/Queue.antt =====
-- The eviction queue of the near cache: which keys it holds, and what its clean-up keeps.
use cpp_client.Prelude.{◌<◌, ◌≡◌, refl, Bool, true, false, ◌||◌, List, [], ◌∷◌, ◌++◌, length, arith}
use cpp_client.Prelude.Maps.{bytes_same, bytes_same_iff, bytes_key, contains}
use cpp_client.NearCache.Map.{Bytes, VersionedValue, drop_stale, erase_first}

unfoldable pub mem : Bytes → List Bytes → Bool
mem k [] = false
mem k (j ∷ js) = bytes_same j k || mem k js

abbrev pub NearMap : Type 0
NearMap = List (Bytes × VersionedValue)

pub mem-append : (k : Bytes) (xs ys : List Bytes) → mem k (xs ++ ys) ≡ (mem k xs || mem k ys)
unfolding mem
mem-append k [] ys = refl
mem-append k (x ∷ xs) ys = ground (arith, mem-append k xs ys)

pub mem_last : (k : Bytes) (xs : List Bytes) → mem k (xs ++ (k ∷ [])) ≡ true
unfolding mem
mem_last k [] = ground (arith, bytes_same_iff k k)
mem_last k (x ∷ xs) = ground (arith, mem_last k xs)

pub mem-erase_first :
    (k j : Bytes) (xs : List Bytes)
    → mem j xs ≡ true
    → bytes_same k j ≡ false
    → mem j (erase_first k xs) ≡ true
unfolding mem erase_first
mem-erase_first k j [] h ne = cc
mem-erase_first k j (x ∷ xs) h ne =
    ground
      (arith, bytes_same_iff x k, bytes_same_iff x j, bytes_same_iff k j, mem-erase_first k j xs)

-- A key that is in the map survives the loop, and the loop does not reach what stands behind it.
pub mem-drop_stale :
    (m : NearMap) (k : Bytes) (xs : List Bytes)
    → contains k m ≡ true
    → mem k xs ≡ true
    → mem k (drop_stale m xs) ≡ true
unfolding mem drop_stale
mem-drop_stale m k [] live h = cc
mem-drop_stale m k (x ∷ xs) live h = ground (arith, bytes_same_iff x k, mem-drop_stale m k xs live)

pub drop_stale-append :
    (m : NearMap) (k : Bytes) (xs ys : List Bytes)
    → contains k m ≡ true
    → mem k xs ≡ true
    → drop_stale m (xs ++ ys) ≡ drop_stale m xs ++ ys
unfolding mem drop_stale
drop_stale-append m k [] ys live h = cc
drop_stale-append m k (x ∷ xs) ys live h =
    ground (arith, bytes_same_iff x k, drop_stale-append m k xs ys live)

-- What the loop stops at is in the map.
pub drop_stale_head :
    (m : NearMap) (xs : List Bytes) (k : Bytes) (ks : List Bytes)
    → drop_stale m xs ≡ k ∷ ks
    → contains k m ≡ true
unfolding drop_stale
drop_stale_head m [] k ks e = cc
drop_stale_head m (x ∷ xs) k ks e = ground (arith, drop_stale_head m xs k ks)

pub some_key : (m : NearMap) → 0 < length m → (k : Bytes) × (contains k m ≡ true)
unfolding contains
some_key [] h = elim h [ ]
some_key ((k, v) ∷ m) h = (k, ground (arith, bytes_same_iff k k))
