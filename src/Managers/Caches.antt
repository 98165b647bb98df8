-- ===== src/Managers/Caches.antt =====
-- include/infinispan/hotrod/RemoteCacheManager.h: the caches of the application by name and flag, each
-- over what the manager answers.
use cpp_client.Prelude.{
  ℕ, zero, suc, Bool, true, false, List, [], ◌∷◌, ◌++◌, length, Option, none, some, if◌then◌else◌,
  ◌==◌,
}
use cpp_client.Prelude.Maps.{bytes_key, lookup, insert, erase}
use cpp_client.Exceptions.{Outcome, ok, throws, fault, Run}
use cpp_client.Managers.Impl.{
  Name, Parts, Manager, name_and_force, create_remote_cache, start, stop,
}

-- `BasicMarshaller` of the types of a call, or those of the application.
pub data Marshallers : Type 0 where
  basic : ℕ → Marshallers
  given : ℕ → Marshallers

-- A RemoteCache<K, V>: `types` stands for K and V.
pub record Cache : Type 0 where
  pub impl : Option ℕ
  pub types : ℕ
  pub marshallers : Marshallers

-- `name.c_str()`, as far as it is read.
unfoldable pub c_str : Name → Name
c_str [] = []
c_str (b ∷ n) = let rest = c_str n in if b == 0 then [] else b ∷ rest

-- `reset` of both marshallers of the cache at a place.
unfoldable pub reset_at : ℕ → Marshallers → List Cache → List Cache
reset_at a m [] = []
reset_at zero m (c ∷ cs) = record c { marshallers = m } ∷ cs
reset_at (suc a) m (c ∷ cs) = c ∷ reset_at a m cs

module _ (r : Parts) where
  -- `is_near` is the mode of the near cache in the configuration.
  pub record CacheManager : Type 0 where
    pub impl : Manager r
    pub is_near : Bool
    pub made : List Cache
    pub remote_cache_map : List (Name × ℕ)

  -- initCache and what follows it: the pointer may be null. On an exception the cache is deleted.
  unfoldable pub keep_made :
      Name → ℕ → Marshallers → Outcome (Option ℕ) × Manager r → Run CacheManager ℕ
  keep_made key types m (ok o, i) s = (
    ok (length s.made),
    record s {
      impl = i;
      made = s.made ++ (record { impl = o; types = types; marshallers = m } ∷ []);
      remote_cache_map = insert key (length s.made) s.remote_cache_map;
    },
  )
  keep_made key types m (throws e, i) s = (throws e, record s { impl = i })
  keep_made key types m (fault, i) s = (fault, record s { impl = i })

  -- A cache that is known is taken for one of the types of the call.
  unfoldable pub found_in_map :
      Name → Name → Bool → Bool → ℕ → Marshallers → Option ℕ → Run CacheManager ℕ
  unfolding reset_at keep_made
  found_in_map key name force near types m (some a) s =
      (ok a, record s { made = reset_at a m s.made })
  found_in_map key name force near types m none s =
      keep_made key types m (create_remote_cache r name force near s.impl) s

  -- getCache<K, V>(forceReturnValue)
  unfoldable pub get_default_cache : ℕ → Bool → Run CacheManager ℕ
  unfolding found_in_map name_and_force
  get_default_cache types force s =
      let key = name_and_force [] force in
      found_in_map key [] force s.is_near types (basic types) (lookup key s.remote_cache_map) s

  -- getCache<K, V>(name, forceReturnValue), which does not pass the configuration of the near cache on
  unfoldable pub get_cache : ℕ → Name → Bool → Run CacheManager ℕ
  unfolding found_in_map name_and_force c_str
  get_cache types name force s =
      let key = name_and_force name force in
      found_in_map key (c_str name) force false types (basic types) (lookup key s.remote_cache_map)
        s

  -- The same with marshallers of the application.
  unfoldable pub get_default_cache_with : ℕ → ℕ → Bool → Run CacheManager ℕ
  unfolding found_in_map name_and_force
  get_default_cache_with types m force s =
      let key = name_and_force [] force in
      found_in_map key [] force s.is_near types (given m) (lookup key s.remote_cache_map) s

  unfoldable pub get_cache_with : ℕ → ℕ → Name → Bool → Run CacheManager ℕ
  unfolding found_in_map name_and_force c_str
  get_cache_with types m name force s =
      let key = name_and_force name force in
      found_in_map key (c_str name) force s.is_near types (given m) (lookup key s.remote_cache_map)
        s

  -- removeFromMap of RemoteCacheManager.cpp, after removeCache of the administration
  unfoldable pub remove_from_map : Name → CacheManager → CacheManager
  unfolding name_and_force
  remove_from_map name s = record s {
    remote_cache_map =
        erase (name_and_force name true) (erase (name_and_force name false) s.remote_cache_map);
  }

  unfoldable pub start_manager : Run CacheManager (Unit {0})
  start_manager s = let (x, i) = start r s.impl in (x, record s { impl = i })

  unfoldable pub stop_manager : CacheManager → CacheManager
  stop_manager s = record s { impl = stop r s.impl }
