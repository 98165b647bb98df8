-- ===== src/TransportFactory/Switching.antt =====
-- After the servers are replaced as a whole, the pool knows those that the balancer hands out.
use cpp_client.Prelude.{◌≡◌, refl, sym, List, true}
use cpp_client.Prelude.Maps.{lookup, contains}
use cpp_client.Address.{Address}
use cpp_client.Exceptions.{Outcome, ok, throws, fault}
use cpp_client.Balancer.{set_servers, new_instance}
use cpp_client.Topology.{TopologyInfo}
use cpp_client.Pool.State.{ConnectionPoolConfiguration, ObjectFactory, Pool, new_pool}
use cpp_client.Pool.Return.{clear, close}
use cpp_client.Transactions.Steps.{OnOk}
use cpp_client.TransportFactory.Sets.{is_distinct}
use cpp_client.TransportFactory.Servers.{add_each, TransportFactory}
use cpp_client.TransportFactory.Start.{balanced, create_and_prepare_pool, switch_servers}
use cpp_client.TransportFactory.Adding.{add_each-AddsEach, AddsEach, IsPaired}
use cpp_client.TransportFactory.Covers.{IsCovered}

module _ (f : ObjectFactory) (c : ConnectionPoolConfiguration) where
  new_pool-IsPaired : (w : f.World) → IsPaired f (new_pool f w)
  unfolding contains lookup
  new_pool-IsPaired w = record { both = λ j h. h; idle_whole = λ j. refl; busy_whole = λ j. refl }

  balanced-IsCovered :
      (servers : List Address) (t : TransportFactory f c) (w : f.World)
      → (x : Outcome (Unit {0}) × Pool f) → is_distinct servers ≡ true
      → t.topology_info.servers ≡ servers
      → OnOk (λ _ q. AddsEach f c servers (new_pool f w) q) x
      → OnOk
          (λ _ t'. IsCovered f c t')
          (balanced f c servers (x.0, record t { connection_pool = x.1 }))
  unfolding balanced set_servers
  balanced-IsCovered servers t w (throws e, p) d same adds = tt
  balanced-IsCovered servers t w (fault, p) d same adds = tt
  balanced-IsCovered servers t w (ok _, p) d same adds = record {
    paired = adds.onward.paired (new_pool-IsPaired w);
    distinct = rw same d;
    of_topology = λ j h. adds.added j (rw (sym same) h);
    of_balancer = adds.added;
  }

  -- When the servers of a cluster, none of which stands twice, replace those of the factory with a
  -- new pool and a new balancer, and no connection fails, the pool has both queues for every server
  -- of the topology and for every one that the balancer hands out.
  pub switch_servers-IsCovered :
      (servers : List Address) (t : TransportFactory f c)
      → is_distinct servers ≡ true
      → OnOk (λ _ t'. IsCovered f c t') (switch_servers f c servers t)
  unfolding switch_servers create_and_prepare_pool cpp_client.Topology.update_servers
  switch_servers-IsCovered servers t d =
      let w = (clear f (close f t.connection_pool)).world in
      let topology_info = cpp_client.Topology.update_servers servers t.topology_info in
      let t' = record t { balancer = new_instance; topology_info = topology_info } in
      balanced-IsCovered servers t' w (add_each f c servers (new_pool f w)) d refl
        (add_each-AddsEach f c servers (new_pool f w))
