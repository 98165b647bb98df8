-- ===== src/TransportFactory/Covers.antt =====
-- The servers that the balancer hands out are known to the pool.
use cpp_client.Prelude.{
  ◌∙◌, sym, ◌&&◌, ◌≡◌, refl, true, false, List, [], ◌∷◌, arith, inl, inr, Bool-cases, Bool,
  if◌then◌else◌,
}
use cpp_client.Prelude.Maps.{contains, lookup}
use cpp_client.Address.{Address, address_same_iff, address_key}
use cpp_client.Exceptions.{Outcome, ok, throws, fault}
use cpp_client.Balancer.{set_servers}
use cpp_client.Topology.{TopologyInfo}
use cpp_client.Pool.State.{ConnectionPoolConfiguration, ObjectFactory, Pool}
use cpp_client.Pool.Return.{clear_key}
use cpp_client.Transactions.Steps.{OnOk}
use cpp_client.TransportFactory.Sets.{
  mem-sort, distinct-sort, sort, mem, set_difference, is_distinct, difference-within,
  distinct-difference, mem-difference, apart,
}
use cpp_client.TransportFactory.Servers.{
  update_servers, add_each, is_empty_list, TransportFactory, settle, clear_each,
}
use cpp_client.TransportFactory.Adding.{
  add_each-AddsEach, IsPaired, AddsEach, cleared, Onward, add_each-Onward,
}

module _ (f : ObjectFactory) (c : ConnectionPoolConfiguration) where
  -- The pool after some servers were cleared.
  record KeptEach (ks : List Address) (p q : Pool f) : Type 0 where
    kept : (j : Address) → mem j ks ≡ false → contains j p.idle ≡ true → contains j q.idle ≡ true
    paired : IsPaired f p → IsPaired f q

  clear_each-KeptEach :
      (ks : List Address) (p : Pool f)
      → is_distinct ks ≡ true
      → ((j : Address) → mem j ks ≡ true → contains j p.idle ≡ true)
      → KeptEach ks p (clear_each f ks p)
  unfolding clear_each mem is_distinct
  clear_each-KeptEach [] p d all = record { kept = λ j _ h. h; paired = λ h. h }
  clear_each-KeptEach (k ∷ ks) p d all =
      let one =
        cleared f c k p (lookup k p.idle) refl (all k (ground (arith, address_same_iff k k))) in
      let two =
        clear_each-KeptEach ks (clear_key f k p) (ground arith)
          λ j h. one.kept j (ground (arith, h, address_same_iff k j)) (all j (ground arith)) in
      record {
        kept = λ j out h. two.kept j (ground arith) (one.kept j (ground arith) h);
        paired = λ h. two.paired (one.paired h);
      }

  -- The pool has a queue of idle transports and one of lent ones, and no null pointer in place of one,
  -- for every server that the balancer hands out, and for every server of the topology, in which no server stands twice.
  pub record IsCovered (t : TransportFactory f c) : Type 0 where
    pub paired : IsPaired f t.connection_pool
    pub distinct : is_distinct t.topology_info.servers ≡ true
    pub of_topology :
        (j : Address)
        → mem j t.topology_info.servers ≡ true
        → contains j t.connection_pool.idle ≡ true
    pub of_balancer :
        (j : Address) → mem j t.balancer.servers ≡ true → contains j t.connection_pool.idle ≡ true

  -- A pool that only grew still covers the servers.
  grown :
      (t : TransportFactory f c) (p : Pool f)
      → IsCovered t
      → Onward f t.connection_pool p
      → IsCovered (record t { connection_pool = p })
  grown t p h on = record {
    paired = on.paired h.paired;
    distinct = h.distinct;
    of_topology = λ j there. on.kept j (h.of_topology j there);
    of_balancer = λ j there. on.kept j (h.of_balancer j there);
  }

  settled :
      (t : TransportFactory f c) (new old : List Address) (x : Outcome (Unit {0}) × Pool f)
      → IsCovered t
      → is_distinct new ≡ true
      → is_distinct old ≡ true
      → ((j : Address) → mem j old ≡ true → contains j t.connection_pool.idle ≡ true)
      → Onward f t.connection_pool x.1
      → OnOk (λ _ q. AddsEach f c (set_difference new old) t.connection_pool q) x
      → IsCovered (settle f c new (set_difference old new) t x).1
  unfolding settle set_servers cpp_client.Topology.update_servers
  settled t new old (throws e, p) h dn dold covered on adds = grown t p h on
  settled t new old (fault, p) h dn dold covered on adds = grown t p h on
  settled t new old (ok _, p) h dn dold covered on adds =
      let failed = set_difference old new in
      let clears =
        clear_each-KeptEach failed p (distinct-difference old new dold)
          λ j h. on.kept j (covered j (difference-within j old new h)) in
      let there : (j : Address) → mem j new ≡ true → contains j p.idle ≡ true = λ j h.
        elim (Bool-cases (mem j old)) [
          | inl was ↦ on.kept j (covered j was)
          | inr new_ ↦ adds.added j (mem-difference j new old h new_)
        ] in
      let stays_in : (j : Address)
          → mem j new ≡ true
          → contains j (clear_each f failed p).idle ≡ true =
        λ j h. clears.kept j (apart j old new dold h) (there j h) in
      record {
        paired = clears.paired (on.paired h.paired);
        distinct = dn;
        of_topology = stays_in;
        of_balancer = stays_in;
      }

  if_factory :
      (b : Bool) (x y : Outcome (Unit {0}) × TransportFactory f c)
      → IsCovered x.1
      → IsCovered y.1
      → IsCovered (if b then x else y).1
  if_factory true x y t e = t
  if_factory false x y t e = e

  -- The pool has both queues, and no null pointer among them, for every server that the balancer hands out and for every server of
  -- the topology, and none of these stands twice, after the servers of a new topology, none of
  -- which stands twice, replaced those that were known, if it was so before; also when adding a new
  -- server throws.
  pub update_servers-IsCovered :
      (servers : List Address) (t : TransportFactory f c)
      → is_distinct servers ≡ true
      → IsCovered t
      → IsCovered (update_servers f c servers t).1
  unfolding update_servers
  update_servers-IsCovered servers t d h =
      let new = sort servers in
      let old = sort t.topology_info.servers in
      let adds = add_each f c (set_difference new old) t.connection_pool in
      if_factory (is_empty_list (set_difference old new) && is_empty_list new) (ok tt, t)
        (settle f c new (set_difference old new) t adds) h
        (settled t new old adds h (distinct-sort servers d)
          (distinct-sort t.topology_info.servers h.distinct)
          (λ j there. h.of_topology j (sym (mem-sort j t.topology_info.servers) ∙ there))
          (add_each-Onward f c (set_difference new old) t.connection_pool)
          (add_each-AddsEach f c (set_difference new old) t.connection_pool))
