-- ===== src/TransportFactory/Start.antt =====
-- What start and clusterSwitch of TransportFactory.cpp share: a new pool for the servers of the
-- topology, and a new balancer over them. Also getTransport with a key.
use cpp_client.Prelude.{ℕ, List, Option, some, Bool, if◌then◌else◌}
use cpp_client.Address.{Address, is_empty}
use cpp_client.Exceptions.{Outcome, ok, throws, fault, Run}
use cpp_client.Balancer.{set_servers, new_instance}
use cpp_client.Topology.{TopologyInfo, get_hash_aware_server, CacheName}
use cpp_client.Pool.State.{ConnectionPoolConfiguration, ObjectFactory, new_pool}
use cpp_client.Pool.Return.{clear, close}
use cpp_client.TransportFactory.Servers.{TransportFactory, add_each, borrow_from, get_transport}

module _ (f : ObjectFactory) (c : ConnectionPoolConfiguration) where
  -- The pool that is replaced closes and clears itself.
  unfoldable pub create_and_prepare_pool : Run (TransportFactory f c) (Unit {0})
  unfolding add_each clear close
  create_and_prepare_pool t =
      let (x, p) =
        add_each f c t.topology_info.servers
          (new_pool f (clear f (close f t.connection_pool)).world) in
      (x, record t { connection_pool = p })

  -- The assignments around createAndPreparePool.
  unfoldable pub balanced :
      List Address
      → Outcome (Unit {0}) × TransportFactory f c
      → Outcome (Unit {0}) × TransportFactory f c
  unfolding set_servers
  balanced servers (ok _, t) = (ok tt, record t { balancer = set_servers servers t.balancer })
  balanced servers (throws e, t) = (throws e, t)
  balanced servers (fault, t) = (fault, t)

  unfoldable pub switch_servers : List Address → Run (TransportFactory f c) (Unit {0})
  unfolding balanced create_and_prepare_pool new_instance cpp_client.Topology.update_servers
  switch_servers servers t = balanced servers (
      create_and_prepare_pool (record t {
        balancer = new_instance;
        topology_info = cpp_client.Topology.update_servers servers t.topology_info;
      }))

  unfoldable pub routed :
      ℕ
      → (Address → Bool)
      → TransportFactory f c
      → Outcome Address
      → Option (Outcome (Option ℕ)) × TransportFactory f c
  unfolding borrow_from get_transport is_empty
  routed fuel failed t (ok server) =
      if is_empty server
      then get_transport f c fuel failed t
      else borrow_from f c fuel t (ok server, t.balancer)
  routed fuel failed t (throws e) = (some (throws e), t)
  routed fuel failed t fault = (some fault, t)

  -- getTransport with a key.
  unfoldable pub get_transport_for_key :
      ℕ
      → (Address → Bool)
      → List ℕ
      → CacheName
      → TransportFactory f c
      → Option (Outcome (Option ℕ)) × TransportFactory f c
  unfolding routed get_hash_aware_server
  get_transport_for_key fuel failed key name t =
      routed fuel failed t (get_hash_aware_server key name t.topology_info)
