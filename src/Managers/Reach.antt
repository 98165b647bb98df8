-- ===== src/Managers/Reach.antt =====
-- The manager of caches through any calls: impl/RemoteCacheManagerImpl.cpp.
use cpp_client.Prelude.{Bool, List, [], ◌∷◌}
use cpp_client.Prelude.Maps.{bytes_key, lookup}
use cpp_client.Managers.Impl.{
  Name, Parts, Manager, new_manager, name_and_force, start, stop, create_remote_cache,
}
use cpp_client.Managers.Connected.{Sound, start-Sound, stop-Sound}
use cpp_client.Managers.Creating.{found_cache-Sound}

module _ (r : Parts) where
  pub data Call : Type 0 where
    starts : Call
    stops : Call
    creates : Name → Bool → Bool → Call

  unfoldable pub step : Manager r → Call → Manager r
  unfolding start stop create_remote_cache
  step s starts = (start r s).1
  step s stops = stop r s
  step s (creates name force near) = (create_remote_cache r name force near s).1

  unfoldable pub run : Manager r → List Call → Manager r
  unfolding step
  run s [] = s
  run s (c ∷ cs) = run (step s c) cs

  step-Sound : (s : Manager r) (c : Call) → Sound r s → Sound r (step s c)
  unfolding step create_remote_cache
  step-Sound s starts v = start-Sound r s v
  step-Sound s stops v = stop-Sound r s v
  step-Sound s (creates name force near) v =
      found_cache-Sound r name force near (lookup (name_and_force name force) s.caches) s v

  run_on-Sound : (cs : List Call) (s : Manager r) → Sound r s → Sound r (run s cs)
  unfolding run
  run_on-Sound [] s v = v
  run_on-Sound (c ∷ cs) s v = run_on-Sound cs (step s c) (step-Sound s c v)

  -- Whatever is called and thrown, every name and flag under which a cache is kept is that of the cache,
  -- and while the manager runs, every cache that is kept is over its present transport factory.
  pub run-Sound : (cs : List Call) (w : r.World) → Sound r (run (new_manager r w) cs)
  run-Sound cs w = run_on-Sound cs (new_manager r w) (record { named = tt; connected = λ on. tt })
