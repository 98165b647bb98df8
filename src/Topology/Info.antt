-- ===== src/Topology/Info.antt =====
-- What an update of a cache's topology makes known, and the routing that never happens.
use cpp_client.Prelude.{
  Bool-cases, if◌then◌else◌, ◌/◌, ℕ, zero, suc, ◌+◌, ◌<◌, ◌≡◌, ◌≢◌, refl, ◌⊎◌, inl, inr, false,
  List, none, some, arith,
}
use cpp_client.Prelude.Maps.{lookup, bytes_key, bytes_same, bytes_same_iff, lookup-insert}
use cpp_client.Address.{Address, no_address}
use cpp_client.Exceptions.{ok, fault}
use cpp_client.Hash.Segments.{
  get_segment_size, SegmentConsistentHash, init, get_segments_by_servers,
}
use cpp_client.Hash.Routing.{init-routed}
use cpp_client.Topology.{
  CacheName, TopologyInfo, CacheTopologyInfo, new_topology_info, create_topology_id, updated,
  update_topology, touched, get_cache_topology_info, get_hash_aware_server, update_servers,
}

-- No hash is a null pointer.
pub record HasHashes (t : TopologyInfo) : Type 0 where
  pub set : (name : CacheName) → lookup name t.hashes ≢ some none

new-HasHashes : (servers : List Address) → HasHashes (new_topology_info servers)
unfolding new_topology_info lookup
new-HasHashes servers = record { set = λ name e. cc }

updated-HasHashes :
    (name : CacheName) (num id : ℕ) (h : SegmentConsistentHash) (t : TopologyInfo)
    → HasHashes t
    → HasHashes (updated name num id h t)
unfolding updated
updated-HasHashes name num id h t v = record {
  set = λ j e. ground (arith, lookup-insert name j (some h) t.hashes, v.set j);
}

-- Topologies that the program reaches: from the start by updates of a cache and of the server list,
-- and by lookups.
pub data Known : TopologyInfo → Type 0 where
  starts : (servers : List Address) → Known (new_topology_info servers)
  updates :
      {t u : TopologyInfo} (owners : List (List Address)) (num : ℕ) (name : CacheName) (id : ℕ)
      → Known t
      → update_topology owners num name id t ≡ ok u
      → Known u
  looks_up :
      {t : TopologyInfo} (name : CacheName) → Known t → Known (get_cache_topology_info name t).1
  serves : {t : TopologyInfo} (servers : List Address) → Known t → Known (update_servers servers t)

init-cases :
    (owners : List (List Address)) (num : ℕ)
    → ((h : SegmentConsistentHash) × (init owners num ≡ ok h)) ⊎ (init owners num ≡ fault)
unfolding init get_segment_size
init-cases owners zero = inr refl
init-cases owners (suc n) = inl (_, init-routed owners (suc n) (omega arith))

update_topology-ok :
    (owners : List (List Address)) (num : ℕ) (name : CacheName) (id : ℕ) (t u : TopologyInfo)
    → update_topology owners num name id t ≡ ok u
    → (h : SegmentConsistentHash) × (u ≡ updated name num id h t)
unfolding update_topology
update_topology-ok owners num name id t u e = elim (init-cases owners num) [
  | inl (h, i) ↦ (h, ground arith)
  | inr f ↦ ground arith
]

update_topology-HasHashes :
    (owners : List (List Address)) (num : ℕ) (name : CacheName) (id : ℕ) (t u : TopologyInfo)
    → update_topology owners num name id t ≡ ok u
    → HasHashes t
    → HasHashes u
update_topology-HasHashes owners num name id t u e v =
    let (h, eq) = update_topology-ok owners num name id t u e in
    rw eq (updated-HasHashes name num id h t v)

lookup-hashes :
    (name : CacheName) (t : TopologyInfo) → (get_cache_topology_info name t).1.hashes ≡ t.hashes
unfolding get_cache_topology_info touched
lookup-hashes name t = ground arith

lookup-HasHashes :
    (name : CacheName) (t : TopologyInfo)
    → HasHashes t
    → HasHashes (get_cache_topology_info name t).1
lookup-HasHashes name t v = record { set = λ j. rw lookup-hashes (v.set j) }

serve-HasHashes :
    (servers : List Address) (t : TopologyInfo) → HasHashes t → HasHashes (update_servers servers t)
unfolding update_servers
serve-HasHashes servers t v = record { set = v.set }

Known-HasHashes : {t : TopologyInfo} → Known t → HasHashes t
Known-HasHashes (starts servers) = new-HasHashes servers
Known-HasHashes (updates {t = t} {u = u} owners num name id k e) =
    update_topology-HasHashes owners num name id t u e (Known-HasHashes k)
Known-HasHashes (looks_up {t = t} name k) = lookup-HasHashes name t (Known-HasHashes k)
Known-HasHashes (serves {t = t} servers k) = serve-HasHashes servers t (Known-HasHashes k)

-- Whatever topologies the client has received, no key is ever routed to the owner of its segment:
-- the answer is the empty address, on which the caller falls back to the balancer.
pub get_hash_aware_server-no_address :
    (key : List ℕ) (name : CacheName) (t : TopologyInfo)
    → Known t
    → get_hash_aware_server key name t ≡ ok no_address
unfolding get_hash_aware_server
get_hash_aware_server-no_address key name t k = ground (arith, (Known-HasHashes k).set name)

abbrev known : List (List Address) → ℕ → SegmentConsistentHash
known owners num = record {
  segment_owners = owners;
  num_segments = num;
  segment_size = 0x7FFF_FFFF / num + 1;
}

abbrev pub answer : SegmentConsistentHash → ℕ → ℕ → CacheTopologyInfo
answer h num id = record {
  segments_per_servers = get_segments_by_servers h;
  num_segments = num;
  topology_id = id;
}

get_cache_topology_info-updated :
    (name : CacheName) (num id : ℕ) (h : SegmentConsistentHash) (t : TopologyInfo)
    → (get_cache_topology_info name (updated name num id h t)).0 ≡ ok (answer h num id)
unfolding get_cache_topology_info updated create_topology_id
get_cache_topology_info-updated name num id h t =
    let m = create_topology_id name id t in
    ground (
      arith,
      lookup-insert name name (some h) m.hashes,
      lookup-insert name name num m.segments_by_cache,
      lookup-insert name name id m.topology_ids,
      bytes_same_iff name name,
    )

get_cache_topology_info-others :
    (name j : CacheName) (num id : ℕ) (h : SegmentConsistentHash) (t : TopologyInfo)
    → bytes_same name j ≡ false
    → (get_cache_topology_info j (updated name num id h t)).0 ≡ (get_cache_topology_info j t).0
unfolding get_cache_topology_info updated create_topology_id
get_cache_topology_info-others name j num id h t ne =
    let m = create_topology_id name id t in
    ground (
      arith,
      lookup-insert name j (some h) m.hashes,
      lookup-insert name j num m.segments_by_cache,
      lookup-insert name j id m.topology_ids,
      lookup-insert name j id t.topology_ids,
    )

update_topology-init :
    (owners : List (List Address)) (num : ℕ) (name : CacheName) (id : ℕ) (h : SegmentConsistentHash)
    (t : TopologyInfo)
    → init owners num ≡ ok h
    → update_topology owners num name id t ≡ ok (updated name num id h t)
unfolding update_topology
update_topology-init owners num name id h t e = rw (e, update_topology) refl

-- After an update with a positive number of segments, the cache's information is what the update
-- said, and what is known of every other cache is as it was.
pub get_cache_topology_info-update_topology :
    (owners : List (List Address)) (num : ℕ) (name j : CacheName) (id : ℕ) (t : TopologyInfo)
    → 0 < num
    → (h : SegmentConsistentHash) × (u : TopologyInfo) × (init owners num ≡ ok h)
      × (update_topology owners num name id t ≡ ok u)
      × ((get_cache_topology_info j u).0
          ≡ (if bytes_same name j then ok (answer h num id) else (get_cache_topology_info j t).0))
get_cache_topology_info-update_topology owners num name j id t pos =
    let h = known owners num in
    (
      h,
      updated name num id h t,
      init-routed owners num pos,
      update_topology-init owners num name id h t (init-routed owners num pos),
      elim (Bool-cases (bytes_same name j)) [
        | inl same ↦
            rw (same, ← (bytes_same_iff name j).0 same)
              (get_cache_topology_info-updated name num id h t)
        | inr other ↦ rw other (get_cache_topology_info-others name j num id h t other)
      ],
    )
