-- ===== src/Protocol/Effect.antt =====
-- When a topology that was received takes effect.
use cpp_client.Prelude.{ℕ, ◌<◌, ◌≡◌, refl, not, ◌&&◌, ◌==◌, if◌then◌else◌, Bool-cases, inl, inr}
use cpp_client.Prelude.Maps.{bytes_key, bytes_same_iff}
use cpp_client.Exceptions.{ok}
use cpp_client.Hash.Segments.{SegmentConsistentHash, init}
use cpp_client.Topology.{
  TopologyInfo, CacheName, CacheTopologyInfo, get_cache_topology_info, update_servers,
}
use cpp_client.Topology.Info.{answer, get_cache_topology_info-update_topology}
use cpp_client.Protocol.Topology.{TopologyUpdate, apply_topology}

-- A topology that is new to the cache, for a request of the present age and with a positive number of
-- segments, becomes what is known of the cache; the one that is known, or one for a request of another
-- age, changes nothing but the entries that the look-up makes.
pub apply_topology-cases :
    (name : CacheName) (request_age age : ℕ) (u : TopologyUpdate) (t : TopologyInfo)
    (known : CacheTopologyInfo)
    → (get_cache_topology_info name t).0 ≡ ok known
    → 0 < u.num_segments
    → (t' : TopologyInfo) × (h : SegmentConsistentHash) × (init u.segment_owners u.num_segments
        ≡ ok h)
      × (apply_topology name request_age age u t ≡ ok t')
      × (if (request_age == age) && not (known.topology_id == u.new_topology_id)
          then (get_cache_topology_info name t').0 ≡ ok (answer h u.num_segments u.new_topology_id)
          else t' ≡ (get_cache_topology_info name t).1)
unfolding apply_topology
apply_topology-cases name request_age age u t known e pos =
    let start = update_servers u.addresses (get_cache_topology_info name t).1 in
    let (h, t', i, taken, found) =
      get_cache_topology_info-update_topology u.segment_owners u.num_segments name name
        u.new_topology_id start pos in
    elim (Bool-cases ((request_age == age) && not (known.topology_id == u.new_topology_id))) [
      | inl fresh ↦ (
        t',
        h,
        i,
        rw (e, fresh, apply_topology) taken,
        rw fresh (rw ((bytes_same_iff name name).1 refl) at found),
      )
      | inr old ↦
          ((get_cache_topology_info name t).1, h, i, rw (e, old, apply_topology) refl, rw old refl)
    ]
