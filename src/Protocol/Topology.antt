-- ===== src/Protocol/Topology.antt =====
-- readNewTopologyIfPresent and readNewTopologyAndHash of impl/protocol/Codec20.cpp: the topology that
-- a response may carry, and when it takes effect.
use cpp_client.Prelude.{
  ℕ, zero, suc, List, [], ◌∷◌, Option, none, some, ◌==◌, get_elem?, if◌then◌else◌,
}
use cpp_client.Prelude.Words.{sign_extend16}
use cpp_client.Topology.{
  TopologyInfo, CacheName, get_cache_topology_info, update_servers, update_topology,
}
use cpp_client.Exceptions.{Outcome, ok, throws, fault}
use cpp_client.Prelude.{not, ◌&&◌}
use cpp_client.Address.{Address, new_address}
use cpp_client.Wire.Stream.{Reader, got, undefined, ◌>>=◌, return}
use cpp_client.Wire.Read.{read_byte, read_vint, read_array, read_unsigned_short}

pub record TopologyUpdate : Type 0 where
  pub new_topology_id : ℕ
  pub addresses : List Address
  pub hash_function_version : ℕ
  pub num_segments : ℕ
  pub segment_owners : List (List Address)

unfoldable pub read_addresses : ℕ → Reader (List Address)
read_addresses zero = return []
read_addresses (suc n) = do
  host ← read_array
  port ← read_unsigned_short
  later ← read_addresses n
  return (new_address host (sign_extend16 port) ∷ later)

-- `addresses[memberIndex]`, undefined past the end.
unfoldable pub member : List Address → ℕ → Reader Address
member addresses i input = elim (get_elem? addresses i) [ none ↦ undefined | some a ↦ got a input ]

unfoldable pub read_owners : List Address → ℕ → Reader (List Address)
unfolding member
read_owners addresses zero = return []
read_owners addresses (suc n) = do
  i ← read_vint
  a ← member addresses i
  later ← read_owners addresses n
  return (a ∷ later)

unfoldable pub read_segments : List Address → ℕ → Reader (List (List Address))
unfolding read_owners
read_segments addresses zero = return []
read_segments addresses (suc n) = do
  num_owners ← read_byte
  row ← read_owners addresses num_owners
  later ← read_segments addresses n
  return (row ∷ later)

-- Without a hash function the rows of owners stay empty.
abbrev pub no_owners : ℕ → List (List Address)
no_owners zero = []
no_owners (suc n) = [] ∷ no_owners n

unfoldable pub read_segments_if : ℕ → List Address → ℕ → Reader (List (List Address))
unfolding read_segments
read_segments_if zero addresses n = return (no_owners n)
read_segments_if (suc version) addresses n = read_segments addresses n

unfoldable pub read_new_topology_and_hash : Reader TopologyUpdate
unfolding read_addresses read_segments_if
read_new_topology_and_hash = do
  id ← read_vint
  cluster_size ← read_vint
  addresses ← read_addresses cluster_size
  version ← read_byte
  num_segments ← read_vint
  owners ← read_segments_if version addresses num_segments
  return (record {
    new_topology_id = id;
    addresses = addresses;
    hash_function_version = version;
    num_segments = num_segments;
    segment_owners = owners;
  })

unfoldable pub read_if_changed : ℕ → Reader (Option TopologyUpdate)
unfolding read_new_topology_and_hash
read_if_changed topology_change_byte =
    if topology_change_byte == 1
    then (do update ← read_new_topology_and_hash; return (some update))
    else return none

unfoldable pub read_new_topology_if_present : Reader (Option TopologyUpdate)
unfolding read_if_changed
read_new_topology_if_present = do
  topology_change_byte ← read_byte
  read_if_changed topology_change_byte

-- The end of readNewTopologyAndHash: the age of the topology at the request and now. `updateServers`
-- stands for its effect on the topology; the pools that it closes and opens are not part of it.
unfoldable pub apply_topology :
    CacheName → ℕ → ℕ → TopologyUpdate → TopologyInfo → Outcome TopologyInfo
apply_topology name request_age age u t =
    let (known, t') = get_cache_topology_info name t in
    let updated =
      update_topology u.segment_owners u.num_segments name u.new_topology_id
        (update_servers u.addresses t') in
    elim known [
      | ok info ↦
          if (request_age == age) && not (info.topology_id == u.new_topology_id)
          then updated
          else ok t'
      | throws e ↦ updated
      | fault ↦ fault
    ]
