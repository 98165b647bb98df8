-- ===== src/RemoteCache/GetAll.antt =====
-- RemoteCacheImpl::getAll of impl/RemoteCacheImpl.cpp: the keys by server, an operation for each server,
-- and one map of what they answer. Sets and maps of bytes are lists in order.
use cpp_client.Prelude.{ℕ, List, [], ◌∷◌, none, some, if◌then◌else◌}
use cpp_client.Prelude.Maps.{bytes_same, bytes_less, bytes_key, lookup, insert, contains}
use cpp_client.Exceptions.{Outcome, ok, throws, fault, Run, ◌>>=◌, return}
use cpp_client.Address.{Address, address_key}
use cpp_client.Topology.{TopologyInfo, CacheName, get_hash_aware_server}
use cpp_client.Operations.Requests.{gets_all}
use cpp_client.RemoteCache.Impl.{Executes, RemoteCacheImpl, assert_is_started, issue}

abbrev pub Keys : Type 0
Keys = List (List ℕ)

abbrev pub Entries : Type 0
Entries = List (List ℕ × List ℕ)

-- `set.insert(key)`
unfoldable pub insert_key : List ℕ → Keys → Keys
insert_key k [] = k ∷ []
insert_key k (j ∷ js) =
    let later = insert_key k js in
    if bytes_same k j then j ∷ js else if bytes_less k j then k ∷ j ∷ js else j ∷ later

-- `m[addr]`, which is an empty set for a new server.
abbrev pub keys_of : Address → List (Address × Keys) → Keys
keys_of a m = elim (lookup a m) [ none ↦ [] | some ks ↦ ks ]

unfoldable pub split_keys :
    TopologyInfo → CacheName → Keys → List (Address × Keys) → Outcome (List (Address × Keys))
unfolding insert_key
split_keys t name [] m = ok m
split_keys t name (k ∷ ks) m = elim (get_hash_aware_server k name t) [
  | ok a ↦ split_keys t name ks (insert a (insert_key k (keys_of a m)) m)
  | throws e ↦ throws e
  | fault ↦ fault
]

-- `result.insert(first, last)`: the entries whose keys are not there.
unfoldable pub merge : Entries → Entries → Entries
merge result [] = result
merge result ((k, v) ∷ m) = merge (if contains k result then result else insert k v result) m

module _ (r : Executes) where
  unfoldable pub execute_parts : List (Address × Keys) → Entries → Run (RemoteCacheImpl r) Entries
  unfolding issue merge
  execute_parts [] result = return result
  execute_parts ((a, ks) ∷ rest) result =
      issue r (gets_all ks) >>= λ m. execute_parts rest (merge result m)

  unfoldable pub execute_split : Outcome (List (Address × Keys)) → Run (RemoteCacheImpl r) Entries
  unfolding execute_parts
  execute_split (ok parts) s = execute_parts parts [] s
  execute_split (throws e) s = (throws e, s)
  execute_split fault s = (fault, s)

  unfoldable pub get_all : Keys → Run (RemoteCacheImpl r) Entries
  unfolding assert_is_started split_keys execute_split
  get_all ks = assert_is_started r >>= λ _ s.
      execute_split (split_keys (r.topology_info s.world) r.name ks []) s
