-- ===== src/Tests/RemoteCache.antt =====
-- A cache whose operations are counted, at concrete values.
use cpp_client.Prelude.{
  none, arith, if◌then◌else◌, List, List, if◌then◌else◌, ℕ, ◌≡◌, refl, true, false, [], ◌∷◌,
}
use cpp_client.Exceptions.{ok}
use cpp_client.Address.{Address, no_address}
use cpp_client.Prelude.Maps.{bytes_key, lookup, bytes_same_iff}
use cpp_client.Topology.{new_topology_info, get_hash_aware_server}
use cpp_client.RemoteCache.GetAll.{Keys, Entries, get_all}
use cpp_client.RemoteCache.Found.{has, Answering}
use cpp_client.Operations.Requests.{
  Request, gets, gets_with_version, gets_with_metadata, asks_for, removes, removes_if_unmodified,
  puts, puts_if_absent, replaces, replaces_if_unmodified, clears, counts, asks_stats, gets_all,
  commits, rolls_back,
}
use cpp_client.Operations.Exchange.{success}
use cpp_client.RemoteCache.Impl.{Executes, ResultOf, RemoteCacheImpl, put}
use cpp_client.RemoteCache.Issued.{puts_value, did, issued, goes_on, did-issued}

abbrev stored_entries : Entries
stored_entries = (1 ∷ [], 11 ∷ []) ∷ (2 ∷ [], 22 ∷ []) ∷ (3 ∷ [], 33 ∷ []) ∷ []

-- The entries of some keys.
abbrev picked : Keys → Entries → Entries
picked ks [] = []
picked ks ((k, v) ∷ m) = if has k ks then (k, v) ∷ picked ks m else picked ks m

lookup-picked :
    (j : List ℕ) (ks : Keys) (m : Entries)
    → lookup j (picked ks m) ≡ (if has j ks then lookup j m else none)
unfolding lookup
lookup-picked j ks [] = ground arith
lookup-picked j ks ((k, v) ∷ m) = ground (arith, lookup-picked j ks m, bytes_same_iff k j)

abbrev answers : (q : Request) → ResultOf q
answers (gets k) = 9 ∷ []
answers (gets_with_version k) = (3, 9 ∷ [])
answers (gets_with_metadata k) =
    (record { lifespan = 0; max_idle = 0; created = 0; last_used = 0; version = 3 }, 9 ∷ [])
answers (asks_for k) = true
answers (removes k) = []
answers (removes_if_unmodified k version) = ([], success)
answers (puts k v l i) = []
answers (puts_if_absent k v l i) = []
answers (replaces k v l i) = []
answers (replaces_if_unmodified k v l i version) = ([], success)
answers clears = tt
answers counts = 1
answers asks_stats = []
answers (gets_all ks) = picked ks stored_entries
answers (commits format xid) = 0
answers (rolls_back format xid) = 0

-- The world is the list of flags that were sent, the last first.
abbrev operations : Executes
operations = record {
  World = List ℕ;
  Key = ℕ;
  Value = ℕ;
  topology_info = λ w. new_topology_info [];
  name = [];
  key_marshall = λ k. k ∷ [];
  value_marshall = λ v. v ∷ [];
  value_unmarshall = λ bs. 9;
  execute = λ flags q w. (ok (answers q), flags ∷ w);
}

abbrev running : RemoteCacheImpl operations
running = record {
  is_started = true;
  factory = record { force_return_value = true; flags = 8 };
  world = [];
}

-- The flags of withFlags, those of two times that are zero, and the one of the configuration.
did-issued_example : did operations (puts_value 7 5 0 0) running ≡ (
    if goes_on operations (puts_value 7 5 0 0) true
    then issued operations (puts_value 7 5 0 0) running
    else running)
did-issued_example = did-issued operations (puts_value 7 5 0 0) running

flags_of_two_puts :
    (did operations (puts_value 7 5 1 0) (did operations (puts_value 7 5 0 0) running)).world
    ≡ (5 ∷ 15 ∷ [])
unfolding put
flags_of_two_puts = refl

-- A lifespan of 2^32 seconds asks for no default and is sent as 0.
long_lifespan :
    issued operations (puts_value 7 5 4_294_967_296 1) running
    ≡ issued operations (puts_value 7 5 8_589_934_592 1) running
long_lifespan = refl

stopped :
    did operations (puts_value 7 5 0 0) (record running { is_started = false })
    ≡ record running { is_started = false }
unfolding put
stopped = refl

abbrev answering : Answering operations (λ w. stored_entries)
answering = record {
  found = λ flags ks w. picked ks stored_entries;
  after = λ flags ks w. flags ∷ w;
  executes = λ flags ks w. refl;
  finds = λ flags ks w j. lookup-picked j ks stored_entries;
  keeps = λ flags ks w. refl;
}

abbrev server : Address
server = record { hostname = 65 ∷ []; port = 11222 }

abbrev two_keys : Keys
two_keys = (1 ∷ []) ∷ (3 ∷ []) ∷ []

-- Two parts, which share the key 3, and an entry that was found before.
abbrev two_parts : List (Address × Keys)
two_parts = (no_address, two_keys) ∷ (server, (3 ∷ []) ∷ (2 ∷ []) ∷ []) ∷ []

abbrev before : Entries
before = (1 ∷ [], 10 ∷ []) ∷ []

all_of_two :
    (get_all operations two_keys running).0 ≡ ok ((1 ∷ [], 11 ∷ []) ∷ (3 ∷ [], 33 ∷ []) ∷ [])
unfolding get_all get_hash_aware_server lookup new_topology_info cpp_client.Prelude.Maps.insert
    cpp_client.Address.address_same cpp_client.Prelude.Maps.bytes_same
    cpp_client.Prelude.Maps.bytes_less
all_of_two = refl
