-- ===== src/TransportFactory/Servers.antt =====
-- updateServers and the transports of TransportFactory.cpp, over the pool, the balancer and what is
-- known of the cluster. The lock of the factory makes each a step.
use cpp_client.Prelude.{
  ℕ, Bool, true, false, ◌&&◌, List, [], ◌∷◌, Option, none, some, if◌then◌else◌,
}
use cpp_client.Address.{Address}
use cpp_client.Exceptions.{Outcome, ok, throws, fault, Run, ◌>>=◌, return}
use cpp_client.Balancer.{next_server, Balancer, set_servers}
use cpp_client.Topology.{TopologyInfo}
use cpp_client.Pool.State.{ConnectionPoolConfiguration, ObjectFactory, Pool}
use cpp_client.Pool.Borrow.{borrow_object, add_object}
use cpp_client.Pool.Return.{return_object, invalidate_object, clear, clear_key, close}
use cpp_client.TransportFactory.Sets.{sort, set_difference}

-- `clear(key)` of one server after another.
unfoldable pub clear_each : (f : ObjectFactory) → List Address → Pool f → Pool f
unfolding clear_key
clear_each f [] p = p
clear_each f (k ∷ ks) p = clear_each f ks (clear_key f k p)

unfoldable pub is_empty_list : List Address → Bool
is_empty_list [] = true
is_empty_list (x ∷ xs) = false

module _ (f : ObjectFactory) (c : ConnectionPoolConfiguration) where
  pub record TransportFactory : Type 0 where
    pub connection_pool : Pool f
    pub balancer : Balancer
    pub topology_info : TopologyInfo

  -- addObject, or preparePool, of one server after another.
  unfoldable pub add_each : List Address → Run (Pool f) (Unit {0})
  unfolding add_object
  add_each [] = return tt
  add_each (k ∷ ks) = add_object f c k >>= λ _. add_each ks

  -- What follows the new servers: the balancer, the servers that are gone, and the topology.
  unfoldable pub settle :
      List Address
      → List Address
      → TransportFactory
      → Outcome (Unit {0}) × Pool f
      → Outcome (Unit {0}) × TransportFactory
  unfolding clear_each set_servers cpp_client.Topology.update_servers
  settle new failed t (ok _, p) = (
    ok tt,
    record {
      connection_pool = clear_each f failed p;
      balancer = set_servers new t.balancer;
      topology_info = cpp_client.Topology.update_servers new t.topology_info;
    },
  )
  settle new failed t (throws e, p) = (throws e, record t { connection_pool = p })
  settle new failed t (fault, p) = (fault, record t { connection_pool = p })

  unfoldable pub update_servers : List Address → Run TransportFactory (Unit {0})
  unfolding sort set_difference is_empty_list add_each settle
  update_servers servers t =
      let new = sort servers in
      let old = sort t.topology_info.servers in
      let failed = set_difference old new in
      if is_empty_list failed && is_empty_list new
      then (ok tt, t)
      else settle new failed t (add_each (set_difference new old) t.connection_pool)

  unfoldable pub destroy : TransportFactory → TransportFactory
  unfolding clear close
  destroy t = record t { connection_pool = close f (clear f t.connection_pool) }

  -- getTransport without a key: `failed` tests membership in the set of failed servers. The answer is
  -- `none` when the pool comes to no end in its rounds.
  unfoldable pub borrow_from :
      ℕ
      → TransportFactory
      → Outcome Address × Balancer
      → Option (Outcome (Option ℕ)) × TransportFactory
  unfolding borrow_object
  borrow_from fuel t (ok server, b) = elim (borrow_object f c fuel server t.connection_pool) [
    | none ↦ (none, record t { balancer = b })
    | some x ↦ (some x.0, record t { connection_pool = x.1; balancer = b })
  ]
  borrow_from fuel t (throws e, b) = (some (throws e), record t { balancer = b })
  borrow_from fuel t (fault, b) = (some fault, record t { balancer = b })

  unfoldable pub get_transport :
      ℕ → (Address → Bool) → TransportFactory → Option (Outcome (Option ℕ)) × TransportFactory
  unfolding borrow_from next_server
  get_transport fuel failed t = borrow_from fuel t (next_server failed t.balancer)

  -- releaseTransport of a transport to `server` that is valid or not.
  unfoldable pub release_transport : Address → ℕ → Bool → Run TransportFactory (Unit {0})
  unfolding return_object invalidate_object
  release_transport server p valid t =
      let (x, q) =
        if valid
        then return_object f c server p t.connection_pool
        else invalidate_object f c server (some p) t.connection_pool in
      (x, record t { connection_pool = q })

  unfoldable pub invalidate_transport : Address → Option ℕ → Run TransportFactory (Unit {0})
  unfolding invalidate_object
  invalidate_transport server p t =
      let (x, q) = invalidate_object f c server p t.connection_pool in
      (x, record t { connection_pool = q })
