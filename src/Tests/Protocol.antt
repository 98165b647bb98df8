-- ===== src/Tests/Protocol.antt =====
-- Headers of a ping, with and without a topology.
use cpp_client.Prelude.Maps.{insert, bytes_same, lookup}
use cpp_client.Prelude.{
  ℕ, ◌≡◌, refl, not, ◌&&◌, ◌==◌, List, [], ◌∷◌, none, some, if◌then◌else◌, arith,
}
use cpp_client.Address.{Address}
use cpp_client.Exceptions.{ok}
use cpp_client.Hash.Segments.{SegmentConsistentHash, init}
use cpp_client.Wire.Stream.{got}
use cpp_client.Topology.{
  all_segments, TopologyInfo, new_topology_info, get_cache_topology_info, CacheTopologyInfo,
}
use cpp_client.Topology.Info.{answer}
use cpp_client.Protocol.OpCodes.{to_op_resp_code}
use cpp_client.Protocol.Topology.{TopologyUpdate, read_new_topology_and_hash, apply_topology}
use cpp_client.Protocol.Layout.{topology_bytes, rows_at, read_new_topology_and_hash-topology_bytes}
use cpp_client.Protocol.Header.{HeaderParams, accepted, read_header}
use cpp_client.Protocol.Exchange.{plain_response, topology_response, read_header-responses}
use cpp_client.Protocol.Effect.{apply_topology-cases}

abbrev a : Address
a = record { hostname = 97 ∷ []; port = 11222 }

abbrev ping : HeaderParams
ping = record {
  op_code = 0x17;
  op_resp_code = 0x18;
  cache_name = [];
  flags = 0;
  client_intel = 3;
  topology_id = 0;
  message_id = 200;
  topology_age = 0;
}

ping_code : to_op_resp_code 0x17 ≡ ok 0x18
unfolding to_op_resp_code lookup
ping_code = refl

abbrev rows : List (List ℕ)
rows = (0 ∷ []) ∷ (0 ∷ []) ∷ []

abbrev update : TopologyUpdate
update = record {
  new_topology_id = 9;
  addresses = a ∷ [];
  hash_function_version = 3;
  num_segments = 2;
  segment_owners = rows_at (a ∷ []) rows;
}

read_new_topology_and_hash-topology_bytes_example :
    read_new_topology_and_hash (topology_bytes 9 (a ∷ []) 3 rows (5 ∷ [])) ≡ got update (5 ∷ [])
read_new_topology_and_hash-topology_bytes_example =
    read_new_topology_and_hash-topology_bytes 9 (a ∷ []) 2 rows (5 ∷ []) (omega arith) (omega arith)
      (omega arith, omega arith, tt) (omega arith)
      (omega arith, (omega arith, tt), (omega arith, (omega arith, tt), tt))

read_header-responses_example :
    (read_header a ping (plain_response ping 0 (5 ∷ [])) ≡ accepted 0 none (5 ∷ []))
    × (read_header a ping (topology_response ping 0 9 (a ∷ []) 3 rows (5 ∷ []))
        ≡ accepted 0 (some update) (5 ∷ []))
read_header-responses_example =
    read_header-responses a ping 0 9 2 (a ∷ []) rows (5 ∷ []) (omega arith) (omega arith)
      (omega arith) (omega arith, omega arith, tt) (omega arith)
      (omega arith, (omega arith, tt), (omega arith, (omega arith, tt), tt))

abbrev started : TopologyInfo
started = new_topology_info (a ∷ [])

abbrev nothing_known : CacheTopologyInfo
nothing_known = record { segments_per_servers = (a, []) ∷ []; num_segments = 0; topology_id = 0 }

started-nothing_known : (get_cache_topology_info (2 ∷ []) started).0 ≡ ok nothing_known
unfolding get_cache_topology_info lookup new_topology_info all_segments bytes_same insert
started-nothing_known = refl

apply_topology-cases_example :
    (t' : TopologyInfo) × (h : SegmentConsistentHash) × (init (rows_at (a ∷ []) rows) 2 ≡ ok h)
    × (apply_topology (2 ∷ []) 0 0 update started ≡ ok t')
    × (if (0 == 0) && not (0 == 9)
        then (get_cache_topology_info (2 ∷ []) t').0 ≡ ok (answer h 2 9)
        else t' ≡ (get_cache_topology_info (2 ∷ []) started).1)
apply_topology-cases_example =
    apply_topology-cases (2 ∷ []) 0 0 update started nothing_known started-nothing_known
      (omega arith)
