-- ===== src/NearCache/Map.antt =====
-- The near map and its queue: addElementToMap, removeElementFromMap, clearMap, invalidateCache.
-- Each runs under `_nearMutex`, hence as one step.
use cpp_client.Prelude.{
  ℕ, ◌+◌, Bool, false, List, [], ◌∷◌, ◌++◌, length, Option, ltb, leb, if◌then◌else◌,
}
use cpp_client.Prelude.Maps.{bytes_key, bytes_same, lookup, contains, insert, erase}

-- A marshalled key or value.
abbrev pub Bytes : Type 0
Bytes = List ℕ

pub record VersionedValue : Type 0 where
  pub value : Bytes
  pub version : ℕ

pub record Near : Type 0 where
  pub max_entries : ℕ
  pub near_map : List (Bytes × VersionedValue)
  pub near_fifo : List Bytes
  pub shutdown : Bool
  pub hits : ℕ
  pub removed : ℕ

abbrev pub near_find : Bytes → Near → Option VersionedValue
near_find k c = lookup k c.near_map

-- `while (!fifo.empty() && map.find(fifo.front()) == map.end()) fifo.pop_front();`
unfoldable pub drop_stale : List (Bytes × VersionedValue) → List Bytes → List Bytes
drop_stale m [] = []
drop_stale m (k ∷ ks) = let rest = drop_stale m ks in if contains k m then k ∷ ks else rest

-- `if (!fifo.empty()) { map.erase(fifo.front()); fifo.pop_front(); }`
unfoldable pub evict_front : Near → List Bytes → Near
evict_front c [] = record c { near_fifo = [] }
evict_front c (k ∷ ks) = record c { near_map = erase k c.near_map; near_fifo = ks }

unfoldable pub make_room : Near → Near
make_room c =
    if leb c.max_entries (length c.near_map)
    then evict_front c (drop_stale c.near_map c.near_fifo)
    else c

unfoldable pub enqueue : Bytes → Near → Near
enqueue k c = record c { near_fifo = c.near_fifo ++ (k ∷ []) }

unfoldable pub add_element_to_map : Bytes → VersionedValue → Near → Near
add_element_to_map k v c =
    let c' = if ltb 0 c.max_entries then make_room (enqueue k c) else c in
    record c' { near_map = insert k v c'.near_map }

-- `find` and `erase` of the first occurrence.
unfoldable pub erase_first : Bytes → List Bytes → List Bytes
erase_first k [] = []
erase_first k (j ∷ js) = if bytes_same j k then js else j ∷ erase_first k js

unfoldable pub remove_element_from_map : Bytes → Near → Near
remove_element_from_map k c = record c {
  near_fifo = if ltb 0 c.max_entries then erase_first k c.near_fifo else c.near_fifo;
  near_map = erase k c.near_map;
  removed = c.removed + 1;
}

unfoldable pub clear_map : Near → Near
clear_map c = record c { near_fifo = []; near_map = [] }

-- The queue is left as it is.
unfoldable pub invalidate_cache : Near → Near
invalidate_cache c = record c { near_map = [] }

unfoldable pub init_near : ℕ → Near
init_near max = record {
  max_entries = max;
  near_map = [];
  near_fifo = [];
  shutdown = false;
  hits = 0;
  removed = 0;
}
