-- ===== src/Topology.antt =====
-- impl/TopologyInfo.h and impl/TopologyInfo.cpp: what the client knows of the cluster, for each
-- cache: the consistent hash, the number of segments and the topology id. The two mutexes make each
-- method one step.
pub mod Info
use cpp_client.Prelude.{
  ℕ, zero, suc, ◌+◌, ◌-◌, ◌^◌, Bool, List, [], ◌∷◌, ◌++◌, Option, none, some, if◌then◌else◌, map,
}
use cpp_client.Prelude.Maps.{lookup, contains, insert, bytes_key}
use cpp_client.Address.{Address, no_address, address_key}
use cpp_client.Exceptions.{Outcome, ok, throws, fault}
use cpp_client.Hash.Segments.{
  SegmentConsistentHash, init, get_server, get_segments_by_servers, SegmentMap,
}

abbrev pub CacheName : Type 0
CacheName = List ℕ

-- A topology id is an int, kept as the pattern of its 32 bits; `default_topology` is -1.
abbrev pub default_topology : ℕ
default_topology = 0xFFFF_FFFF

-- A hash is held by a shared pointer, `none` for a null one.
pub record TopologyInfo : Type 0 where
  pub hashes : List (CacheName × Option SegmentConsistentHash)
  pub segments_by_cache : List (CacheName × ℕ)
  pub topology_ids : List (CacheName × ℕ)
  pub servers : List Address

pub record CacheTopologyInfo : Type 0 where
  pub segments_per_servers : SegmentMap
  pub num_segments : ℕ
  pub topology_id : ℕ

unfoldable pub new_topology_info : List Address → TopologyInfo
new_topology_info servers = record {
  hashes = [];
  segments_by_cache = [];
  topology_ids = ([], default_topology) ∷ [];
  servers = servers;
}

-- `map::insert`, which keeps the entry of a key that is there.
unfoldable pub create_topology_id : CacheName → ℕ → TopologyInfo → TopologyInfo
create_topology_id name id t = record t {
  topology_ids =
      if contains name t.topology_ids then t.topology_ids else insert name id t.topology_ids;
}

unfoldable pub updated : CacheName → ℕ → ℕ → SegmentConsistentHash → TopologyInfo → TopologyInfo
unfolding create_topology_id
updated name num id h t =
    let t' = create_topology_id name id t in
    record t' {
      segments_by_cache = insert name num t'.segments_by_cache;
      topology_ids = insert name id t'.topology_ids;
      hashes = insert name (some h) t'.hashes;
    }

unfoldable pub update_topology :
    List (List Address) → ℕ → CacheName → ℕ → TopologyInfo → Outcome TopologyInfo
unfolding updated
update_topology owners num name id t = elim (init owners num) [
  | ok h ↦ ok (updated name num id h t)
  | throws e ↦ throws e
  | fault ↦ fault
]

-- `m[name]` of a map of ints, which makes an entry 0 for a key that is not there.
abbrev pub number_at : CacheName → List (CacheName × ℕ) → ℕ
number_at name m = elim (lookup name m) [ none ↦ 0 | some n ↦ n ]

unfoldable pub touch : CacheName → List (CacheName × ℕ) → List (CacheName × ℕ)
touch name m = if contains name m then m else insert name 0 m

touched : CacheName → TopologyInfo → TopologyInfo
touched name t = record t {
  segments_by_cache = touch name t.segments_by_cache;
  topology_ids = touch name t.topology_ids;
}

-- The numbers from `i` on, `n` of them: `std::iota`.
abbrev pub iota : ℕ → ℕ → List ℕ
iota i zero = []
iota i (suc n) = i ∷ iota (suc i) n

-- `segmentPerServers_[*it] = v` for each server.
unfoldable pub all_segments : List Address → List ℕ → SegmentMap → SegmentMap
all_segments [] v m = m
all_segments (a ∷ rest) v m = all_segments rest v (insert a v m)

unfoldable pub get_cache_topology_info :
    CacheName → TopologyInfo → Outcome CacheTopologyInfo × TopologyInfo
unfolding touched
get_cache_topology_info name t =
    let t' = touched name t in
    let n = number_at name t.segments_by_cache in
    let id = number_at name t.topology_ids in
    elim (lookup name t.hashes) [
      | some (some h) ↦ (
        ok (record {
          segments_per_servers = get_segments_by_servers h;
          num_segments = n;
          topology_id = id;
        }),
        t',
      )
      | some none ↦ (fault, t)
      | none ↦ (
        ok (record {
          segments_per_servers = all_segments t.servers (iota 0 n) [];
          num_segments = n;
          topology_id = id;
        }),
        t',
      )
    ]

-- The test of the pointer is the source's, `if (!element->second)`.
unfoldable pub get_hash_aware_server : List ℕ → CacheName → TopologyInfo → Outcome Address
get_hash_aware_server key name t = elim (lookup name t.hashes) [
  | some none ↦ fault
  | some (some h) ↦ ok no_address
  | none ↦ ok no_address
]

unfoldable pub update_servers : List Address → TopologyInfo → TopologyInfo
update_servers s t = record t { servers = s }
