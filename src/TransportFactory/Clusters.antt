-- ===== src/TransportFactory/Clusters.antt =====
-- pingExternalServer, pingServers, getNextWorkingServersConfiguration and clusterSwitch of
-- TransportFactory.cpp: the cluster that is used, and the change to another one.
use cpp_client.Prelude.{ℕ, ◌∷◌, List, [], Option, none, some, Bool, true, false, if◌then◌else◌}
use cpp_client.Prelude.Maps.{bytes_same, bytes_key, lookup}
use cpp_client.Address.{Address}
use cpp_client.Exceptions.{Outcome, ok, throws, fault}
use cpp_client.Pool.State.{ConnectionPoolConfiguration, ObjectFactory, Pool}
use cpp_client.Pool.Borrow.{borrow_object}
use cpp_client.Pool.Return.{return_object, close}
use cpp_client.TransportFactory.Servers.{TransportFactory}
use cpp_client.TransportFactory.Start.{switch_servers}

abbrev pub ServersMap : Type 0
ServersMap = List (List ℕ × List Address)

module _ (f : ObjectFactory) where
  -- A transport whose ping throws is not destroyed.
  unfoldable pub ping_made : Address → Outcome ℕ × f.World → Outcome (Unit {0}) × f.World
  ping_made s (ok t, w) = elim (f.ping t w).0 [
    | ok _ ↦ (ok tt, f.destroy_object s t (f.ping t w).1)
    | throws e ↦ (throws e, (f.ping t w).1)
    | fault ↦ (fault, (f.ping t w).1)
  ]
  ping_made s (throws e, w) = (throws e, w)
  ping_made s (fault, w) = (fault, w)

  unfoldable pub ping_external_server : Address → f.World → Outcome (Unit {0}) × f.World
  unfolding ping_made
  ping_external_server s w = ping_made s (f.make_object s w)

  -- Whether one of the servers of a cluster answers; those after it are not asked.
  unfoldable pub one_answers : List Address → f.World → Outcome Bool × f.World
  unfolding ping_external_server
  one_answers [] w = (ok false, w)
  one_answers (s ∷ ss) w =
      let rest = one_answers ss (ping_external_server s w).1 in
      elim (ping_external_server s w).0 [
        | ok _ ↦ (ok true, (ping_external_server s w).1)
        | throws e ↦ rest
        | fault ↦ (fault, (ping_external_server s w).1)
      ]

  -- The name and the servers of the first other cluster that works.
  unfoldable pub get_next_working_servers :
      List ℕ → ServersMap → f.World → Outcome (Option (List ℕ × List Address)) × f.World
  unfolding one_answers bytes_same
  get_next_working_servers current [] w = (ok none, w)
  get_next_working_servers current ((name, servers) ∷ ps) w =
      let skipped = get_next_working_servers current ps w in
      let x = one_answers servers w in
      let later = get_next_working_servers current ps x.1 in
      if bytes_same name current then skipped else elim x.0 [
        | ok b ↦ (if b then (ok (some (name, servers)), x.1) else later)
        | throws e ↦ (throws e, x.1)
        | fault ↦ (fault, x.1)
      ]

module _ (f : ObjectFactory) (c : ConnectionPoolConfiguration) where
  abbrev pub After : Type 0 → Type 0
  After S = Option (Outcome (Unit {0}) × S)

  -- The transport goes back whether its ping throws or not; one that cannot be borrowed is passed
  -- over. No answer stands for a thread that waits for a transport.
  unfoldable pub pinged_borrowed : Address → Outcome (Option ℕ) × Pool f → After (Pool f)
  unfolding return_object
  pinged_borrowed s (ok (some t), p) = elim (f.ping t p.world).0 [
    | ok _ ↦ some (return_object f c s t (record p { world = (f.ping t p.world).1 }))
    | throws e ↦ some (return_object f c s t (record p { world = (f.ping t p.world).1 }))
    | fault ↦ some (fault, record p { world = (f.ping t p.world).1 })
  ]
  pinged_borrowed s (ok none, p) = none
  pinged_borrowed s (throws e, p) = some (ok tt, p)
  pinged_borrowed s (fault, p) = some (fault, p)

  unfoldable pub ping_server : ℕ → Address → Pool f → After (Pool f)
  unfolding borrow_object pinged_borrowed
  ping_server fuel s p = elim (borrow_object f c fuel s p) [
    | none ↦ none
    | some x ↦ pinged_borrowed s x
  ]

  -- The next server after one whose transport went back.
  unfoldable pub and_then : (Pool f → After (Pool f)) → After (Pool f) → After (Pool f)
  and_then k (some (ok _, p)) = k p
  and_then k (some (throws e, p)) = some (throws e, p)
  and_then k (some (fault, p)) = some (fault, p)
  and_then k none = none

  unfoldable pub ping_servers : ℕ → List Address → Pool f → After (Pool f)
  unfolding ping_server and_then
  ping_servers fuel [] p = some (ok tt, p)
  ping_servers fuel (s ∷ ss) p = and_then (ping_servers fuel ss) (ping_server fuel s p)

  -- The factory with the name of the cluster that it uses.
  pub record Clustered : Type 0 where
    pub curr_cluster : List ℕ
    pub factory : TransportFactory f c

  unfoldable pub with_pool : Clustered → Outcome (Unit {0}) × Pool f → Outcome Bool × Clustered
  with_pool s (ok _, p) = (ok true, record s { factory = record s.factory { connection_pool = p } })
  with_pool s (throws e, p) =
      (throws e, record s { factory = record s.factory { connection_pool = p } })
  with_pool s (fault, p) = (fault, record s { factory = record s.factory { connection_pool = p } })

  unfoldable pub switched :
      ℕ → List ℕ → Outcome (Unit {0}) × TransportFactory f c → Option (Outcome Bool × Clustered)
  unfolding with_pool ping_servers
  switched fuel name (ok _, t) =
      elim (ping_servers fuel t.topology_info.servers t.connection_pool) [
        | none ↦ none
        | some x ↦ some (with_pool (record { curr_cluster = name; factory = t }) x)
      ]
  switched fuel name (throws e, t) = some (throws e, record { curr_cluster = name; factory = t })
  switched fuel name (fault, t) = some (fault, record { curr_cluster = name; factory = t })

  -- The current pool is closed once another cluster answers.
  unfoldable pub switch_to :
      ℕ
      → Clustered
      → Outcome (Option (List ℕ × List Address)) × f.World
      → Option (Outcome Bool × Clustered)
  unfolding switched switch_servers close
  switch_to fuel s (x, w) =
      let asked = record s.factory {
        connection_pool = record s.factory.connection_pool { world = w };
      } in
      let closed = record asked { connection_pool = close f asked.connection_pool } in
      elim x [
        | ok none ↦ some (ok false, record s { factory = asked })
        | ok (some next) ↦ switched fuel next.0 (switch_servers f c next.1 closed)
        | throws e ↦ some (throws e, record s { factory = asked })
        | fault ↦ some (fault, record s { factory = asked })
      ]

  unfoldable pub cluster_switch : ℕ → ServersMap → Clustered → Option (Outcome Bool × Clustered)
  unfolding switch_to get_next_working_servers
  cluster_switch fuel servers s =
      switch_to fuel s
        (get_next_working_servers f s.curr_cluster servers s.factory.connection_pool.world)

  -- clusterSwitch with a name: the name that was current stays.
  unfoldable pub cluster_switch_named :
      ℕ → ServersMap → List ℕ → Clustered → Option (Outcome Bool × Clustered)
  unfolding switched switch_servers lookup
  cluster_switch_named fuel servers name s = elim (lookup name servers) [
    | none ↦ some (ok false, s)
    | some next ↦ switched fuel s.curr_cluster (switch_servers f c next s.factory)
  ]
