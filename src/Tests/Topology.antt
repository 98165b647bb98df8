-- ===== src/Tests/Topology.antt =====
-- The topology of one cache after an update.
use cpp_client.Prelude.{◌≡◌, List, [], ◌∷◌, if◌then◌else◌, arith}
use cpp_client.Prelude.Maps.{bytes_same}
use cpp_client.Address.{Address, no_address}
use cpp_client.Exceptions.{ok}
use cpp_client.Hash.Segments.{SegmentConsistentHash, init}
use cpp_client.Topology.{
  TopologyInfo, new_topology_info, update_topology, get_cache_topology_info, get_hash_aware_server,
  update_servers,
}
use cpp_client.Topology.Info.{
  starts, serves, answer, get_hash_aware_server-no_address, get_cache_topology_info-update_topology,
}

abbrev a : Address
a = record { hostname = 97 ∷ []; port = 11222 }

abbrev owners : List (List Address)
owners = (a ∷ []) ∷ []

abbrev started : TopologyInfo
started = new_topology_info (a ∷ [])

get_hash_aware_server-no_address_example :
    get_hash_aware_server (1 ∷ []) (2 ∷ []) (update_servers (a ∷ []) started) ≡ ok no_address
get_hash_aware_server-no_address_example =
    get_hash_aware_server-no_address (1 ∷ []) (2 ∷ []) (update_servers (a ∷ []) started)
      (serves (a ∷ []) (starts (a ∷ [])))

get_cache_topology_info-update_topology_example :
    (h : SegmentConsistentHash) × (u : TopologyInfo) × (init owners 1 ≡ ok h)
    × (update_topology owners 1 (2 ∷ []) 5 started ≡ ok u)
    × ((get_cache_topology_info (3 ∷ []) u).0 ≡ (
        if bytes_same (2 ∷ []) (3 ∷ [])
        then ok (answer h 1 5)
        else (get_cache_topology_info (3 ∷ []) started).0))
get_cache_topology_info-update_topology_example =
    get_cache_topology_info-update_topology owners 1 (2 ∷ []) (3 ∷ []) 5 started (omega arith)
