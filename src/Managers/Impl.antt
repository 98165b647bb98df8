-- ===== src/Managers/Impl.antt =====
-- impl/RemoteCacheManagerImpl.cpp: starting and stopping, and the caches by name and flag. A method is
-- one section under the lock; start and createRemoteCache keep it while they talk to the servers.
use cpp_client.Prelude.{
  ℕ, zero, suc, ◌+◌, Bool, true, false, List, [], ◌∷◌, ◌++◌, length, get_elem?, Option, none, some,
  if◌then◌else◌,
}
use cpp_client.Prelude.Maps.{bytes_key, bytes_same, lookup, insert}
use cpp_client.Exceptions.{Outcome, ok, fault, Run, ◌>>=◌, return}
use cpp_client.Protocol.OpCodes.{is_success, has_compatibility}
use cpp_client.Pool.State.{PingResult, success, success_with_compat, cache_does_not_exist, fail}

abbrev pub Name : Type 0
Name = List ℕ

-- The parts that the manager starts and stops, on the connections and the servers. A transport factory
-- is known by its place among those that were made. `ping` is the exchange of the operation with its
-- retries, and gives the status of the reply; the listener of a near cache is registered through
-- the notifier of one of them.
pub record Parts : Type 1 where
  pub World : Type 0
  pub start_factory : ℕ → World → Outcome (Unit {0}) × World
  pub destroy_factory : Option ℕ → World → World
  pub start_listener : Name → ℕ → World → Outcome (Unit {0}) × World
  pub stop_listener : Name → World → World
  pub ping : Name → ℕ → World → Outcome ℕ × World
  pub start_counters : World → World
  pub stop_counters : World → World
  pub stop_notifier : World → World

-- A RemoteCacheImpl with the transport factory and the flag of its OperationsFactory.
pub record ManagedCache : Type 0 where
  pub name : Name
  pub factory : Option ℕ
  pub force_return_value : Bool
  pub is_near : Bool
  pub is_shut_down : Bool

-- What PingOperation::execute makes of the status of the reply.
unfoldable pub ping_result : ℕ → PingResult
ping_result status =
    if is_success status
    then if has_compatibility status then success_with_compat else success
    else fail

-- `name + "/true"` and `name + "/false"`
unfoldable pub name_and_force : Name → Bool → Name
name_and_force name true = name ++ (47 ∷ 116 ∷ 114 ∷ 117 ∷ 101 ∷ [])
name_and_force name false = name ++ (47 ∷ 102 ∷ 97 ∷ 108 ∷ 115 ∷ 101 ∷ [])

-- RemoteCacheHolder: a pointer to a cache, which is its place among those that were made.
abbrev pub Holders : Type 0
Holders = List (Name × (ℕ × Bool))

-- `init` of the cache at a place.
unfoldable pub init_at : ℕ → Option ℕ → Bool → List ManagedCache → List ManagedCache
init_at h n force [] = []
init_at zero n force (o ∷ os) = record o { factory = n; force_return_value = force } ∷ os
init_at (suc h) n force (o ∷ os) = o ∷ init_at h n force os

-- `shutdown = true` in a near cache, which nothing sets back.
unfoldable pub shut_at : ℕ → List ManagedCache → List ManagedCache
shut_at h [] = []
shut_at zero (o ∷ os) = record o { is_shut_down = true } ∷ os
shut_at (suc h) (o ∷ os) = o ∷ shut_at h os

module _ (r : Parts) where
  pub record Manager : Type 0 where
    pub is_started : Bool
    pub factories : ℕ
    pub factory : Option ℕ
    pub objects : List ManagedCache
    pub caches : Holders
    pub world : r.World

  -- The constructor without start.
  abbrev pub new_manager : r.World → Manager
  new_manager w = record {
    is_started = false;
    factories = 0;
    factory = none;
    objects = [];
    caches = [];
    world = w;
  }

  unfoldable pub listen : Name → Option ℕ → Run Manager (Unit {0})
  listen name none s = (fault, s)
  listen name (some n) s =
      let (x, w) = r.start_listener name n s.world in (x, record s { world = w })

  -- NearRemoteCacheImpl::init registers the listener after the base class.
  unfoldable pub listen_if_near : Option ManagedCache → Run Manager (Unit {0})
  unfolding listen
  listen_if_near none s = (fault, s)
  listen_if_near (some o) s = if o.is_near then listen o.name s.factory s else (ok tt, s)

  unfoldable pub start_remote_cache : ℕ → Bool → Run Manager (Unit {0})
  unfolding init_at listen_if_near
  start_remote_cache h force s =
      listen_if_near (get_elem? s.objects h)
        (record s { objects = init_at h s.factory force s.objects })

  unfoldable pub start_all : Holders → Run Manager (Unit {0})
  unfolding start_remote_cache
  start_all [] = return tt
  start_all ((k, (h, force)) ∷ rest) = start_remote_cache h force >>= λ _. start_all rest

  unfoldable pub connect : ℕ → Run Manager (Unit {0})
  connect n s = let (x, w) = r.start_factory n s.world in (x, record s { world = w })

  unfoldable pub finish_start : Run Manager (Unit {0})
  finish_start s = (ok tt, record s { is_started = true; world = r.start_counters s.world })

  unfoldable pub start : Run Manager (Unit {0})
  unfolding connect start_all finish_start
  start s =
      if s.is_started
      then (ok tt, s)
      else (connect s.factories >>= (λ _ t. start_all t.caches t) >>= λ _. finish_start)
          (record s { factories = s.factories + 1; factory = some s.factories })

  unfoldable pub stop_remote_cache : ℕ → Option ManagedCache → Manager → Manager
  unfolding shut_at
  stop_remote_cache h none s = s
  stop_remote_cache h (some o) s =
      if o.is_near
      then record s { objects = shut_at h s.objects; world = r.stop_listener o.name s.world }
      else s

  unfoldable pub stop_all : Holders → Manager → Manager
  unfolding stop_remote_cache
  stop_all [] s = s
  stop_all ((k, (h, force)) ∷ rest) s =
      stop_all rest (stop_remote_cache h (get_elem? s.objects h) s)

  unfoldable pub finish_stop : Manager → Manager
  finish_stop s = record s {
    is_started = false;
    world = r.destroy_factory s.factory (r.stop_notifier (r.stop_counters s.world));
  }

  unfoldable pub stop : Manager → Manager
  unfolding stop_all finish_stop
  stop s = if s.is_started then finish_stop (stop_all s.caches s) else s

  unfoldable pub ask : Name → ℕ → Run Manager ℕ
  ask name n s = let (x, w) = r.ping name n s.world in (x, record s { world = w })

  unfoldable pub ping : Name → Option ℕ → Run Manager PingResult
  unfolding ask ping_result
  ping name none s = (ok fail, s)
  ping name (some n) s = (ask name n >>= λ status. return (ping_result status)) s

  unfoldable pub is_missing : PingResult → Bool
  is_missing cache_does_not_exist = true
  is_missing success = false
  is_missing success_with_compat = false
  is_missing fail = false

  unfoldable pub keep_cache : Name → Bool → ℕ → Run Manager (Option ℕ)
  unfolding name_and_force
  keep_cache name force h s =
      (ok (some h), record s { caches = insert (name_and_force name force) (h, force) s.caches })

  -- A null pointer where the ping answers that there is no such cache. The default cache, without a
  -- name, is not asked for.
  unfoldable pub keep_if_defined : Name → Bool → ℕ → Run Manager (Option ℕ)
  unfolding ping is_missing keep_cache
  keep_if_defined name force h s =
      if bytes_same name []
      then keep_cache name force h s
      else (ping name s.factory >>= λ x.
            if is_missing x then return none else keep_cache name force h)
          s

  unfoldable pub make_cache : Name → Bool → Bool → Run Manager (Option ℕ)
  unfolding start_remote_cache keep_if_defined
  make_cache name force near s =
      let h = length s.objects in
      let new : ManagedCache = record {
        name = name;
        factory = none;
        force_return_value = force;
        is_near = near;
        is_shut_down = false;
      } in
      (start_remote_cache h force >>= λ _. keep_if_defined name force h)
        (record s { objects = s.objects ++ (new ∷ []) })

  -- A cache that is known is answered as it was made, whatever mode of near cache is asked for.
  unfoldable pub found_cache : Name → Bool → Bool → Option (ℕ × Bool) → Run Manager (Option ℕ)
  unfolding make_cache
  found_cache name force near (some (h, f)) s = (ok (some h), s)
  found_cache name force near none s = make_cache name force near s

  unfoldable pub create_remote_cache : Name → Bool → Bool → Run Manager (Option ℕ)
  unfolding name_and_force found_cache
  create_remote_cache name force near s =
      found_cache name force near (lookup (name_and_force name force) s.caches) s
