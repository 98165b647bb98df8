-- ===== src/Tests/TransportFactory.antt =====
-- updateServers at concrete clusters.
use cpp_client.TransportFactory.Sets.{is_distinct}
use cpp_client.Prelude.{arith, ℕ, ◌+◌, ◌≡◌, refl, false, List, [], ◌∷◌, none, some}
use cpp_client.Prelude.Maps.{insert, lookup, bytes_same, contains}
use cpp_client.Address.{address_less, address_same, Address, address_key}
use cpp_client.Exceptions.{ok, Outcome}
use cpp_client.Prelude.{Bool, true, Option}
use cpp_client.TransportFactory.Clusters.{Clustered, cluster_switch}
use cpp_client.Topology.{new_topology_info}
use cpp_client.Pool.State.{ConnectionPoolConfiguration, ObjectFactory, exception, success}
use cpp_client.TransportFactory.Servers.{TransportFactory, update_servers}
use cpp_client.TransportFactory.Covers.{IsCovered, update_servers-IsCovered}

abbrev factory : ObjectFactory
factory = record {
  World = ℕ;
  make_object = λ k w. (ok w, w + 1);
  destroy_object = λ k t w. w;
  ping = λ t w. (ok success, w);
}

abbrev limits : ConnectionPoolConfiguration
limits = record {
  exhausted_action = exception;
  max_active = none;
  max_total = 0;
  min_idle = 1;
  test_on_borrow = false;
  test_on_return = false;
}

abbrev server_a : Address
server_a = record { hostname = 65 ∷ []; port = 1 }

abbrev server_b : Address
server_b = record { hostname = 66 ∷ []; port = 1 }

abbrev known : List Address → TransportFactory factory limits
known servers = record {
  connection_pool = record {
    idle = (server_a, some (0 ∷ [])) ∷ [];
    busy = (server_a, some []) ∷ [];
    total_idle = 1;
    total_active = 0;
    allocation_queue = [];
    closed = false;
    world = 1;
  };
  balancer = record { servers = servers; index = 0 };
  topology_info = new_topology_info servers;
}

known-IsCovered : IsCovered factory limits (known (server_a ∷ []))
unfolding contains cpp_client.Prelude.Maps.lookup cpp_client.TransportFactory.Sets.is_distinct
    cpp_client.TransportFactory.Sets.mem new_topology_info
known-IsCovered = record {
  paired = record {
    both = λ j h. h;
    idle_whole = λ j. ground arith;
    busy_whole = λ j. ground arith;
  };
  distinct = refl;
  of_topology = λ j h. h;
  of_balancer = λ j h. h;
}

update_servers-IsCovered_example :
    IsCovered factory limits
      (update_servers factory limits (server_b ∷ server_a ∷ []) (known (server_a ∷ []))).1
unfolding is_distinct address_same bytes_same
update_servers-IsCovered_example =
    update_servers-IsCovered factory limits (server_b ∷ server_a ∷ []) (known (server_a ∷ [])) refl
      known-IsCovered

-- A server that was configured twice loses its queue of idle transports when it is announced once.
twice_lost :
    contains server_a
      (update_servers factory limits
        (server_a ∷ [])
        (known (server_a ∷ server_a ∷ []))).1.connection_pool.idle
    ≡ false
unfolding contains update_servers new_topology_info address_less bytes_same address_same
twice_lost = refl

abbrev clusters : List (List ℕ × List Address)
clusters = (65 ∷ [], server_a ∷ []) ∷ (66 ∷ [], server_b ∷ []) ∷ []

-- The other cluster is taken, and the balancer has its servers.
unfoldable switched_to :
    Option (Outcome Bool × Clustered factory limits) → Option (Outcome Bool × List Address)
switched_to none = none
switched_to (some x) = some (x.0, x.1.factory.balancer.servers)

other_cluster :
    switched_to (
      cluster_switch factory limits 3 clusters
        (record { curr_cluster = 65 ∷ []; factory = known (server_a ∷ []) }))
    ≡ some (ok true, server_b ∷ [])
unfolding switched_to cluster_switch lookup insert address_same
other_cluster = refl
