-- ===== src/Managers/Again.antt =====
-- getCache gives out a cache again: include/infinispan/hotrod/RemoteCacheManager.h.
use cpp_client.Prelude.{
  subst, ◌≡◌, refl, ℕ, zero, suc, Bool, false, List, [], ◌∷◌, ◌++◌, length, get_elem?, Option, none,
  some, arith,
}
use cpp_client.Prelude.Maps.{bytes_key, bytes_same_iff, lookup, lookup-insert, lookup-inserted}
use cpp_client.Exceptions.{Outcome, ok, throws, fault}
use cpp_client.Managers.Impl.{Name, Parts, Manager, name_and_force, create_remote_cache}
use cpp_client.Managers.Made.{create_remote_cache-some}
use cpp_client.Managers.Caches.{
  Marshallers, basic, given, Cache, reset_at, CacheManager, keep_made, found_in_map, c_str,
  get_default_cache, get_cache, get_default_cache_with, get_cache_with, start_manager, stop_manager,
}

-- A cache over this RemoteCacheImpl, or over a null pointer.
abbrev pub IsOver : List Cache → ℕ → Option ℕ → Type 0
IsOver cs a i = (c : Cache) × ((get_elem? cs a ≡ some c) × (c.impl ≡ i))

reset_at-IsOver :
    (b : ℕ) (m : Marshallers) (cs : List Cache) (a : ℕ) (i : Option ℕ)
    → IsOver cs a i
    → IsOver (reset_at b m cs) a i
unfolding reset_at
reset_at-IsOver b m [] a i (c, (e, h)) = ground (arith, e)
reset_at-IsOver zero m (x ∷ cs) zero i (c, (e, h)) =
    (record x { marshallers = m }, (refl, ground (arith, e, h)))
reset_at-IsOver zero m (x ∷ cs) (suc a) i over = over
reset_at-IsOver (suc b) m (x ∷ cs) zero i over = over
reset_at-IsOver (suc b) m (x ∷ cs) (suc a) i over = reset_at-IsOver b m cs a i over

append-IsOver :
    (cs : List Cache) (x : Cache) (a : ℕ) (i : Option ℕ)
    → IsOver cs a i
    → IsOver (cs ++ (x ∷ [])) a i
append-IsOver [] x a i (c, (e, h)) = ground (arith, e)
append-IsOver (y ∷ cs) x zero i over = over
append-IsOver (y ∷ cs) x (suc a) i over = append-IsOver cs x a i over

last-IsOver : (cs : List Cache) (x : Cache) → IsOver (cs ++ (x ∷ [])) (length cs) x.impl
last-IsOver [] x = (x, (refl, refl))
last-IsOver (y ∷ cs) x = last-IsOver cs x

module _ (r : Parts) where
  pub data Call : Type 0 where
    starts : Call
    stops : Call
    gets_default : ℕ → Bool → Call
    gets : ℕ → Name → Bool → Call
    gets_default_with : ℕ → ℕ → Bool → Call
    gets_with : ℕ → ℕ → Name → Bool → Call

  unfoldable pub step : CacheManager r → Call → CacheManager r
  step s starts = (start_manager r s).1
  step s stops = stop_manager r s
  step s (gets_default types force) = (get_default_cache r types force s).1
  step s (gets types name force) = (get_cache r types name force s).1
  step s (gets_default_with types m force) = (get_default_cache_with r types m force s).1
  step s (gets_with types m name force) = (get_cache_with r types m name force s).1

  unfoldable pub run : CacheManager r → List Call → CacheManager r
  unfolding step
  run s [] = s
  run s (c ∷ cs) = run (step s c) cs

  -- A key stands for the cache at a place, which is over this RemoteCacheImpl.
  record Stands (key : Name) (a : ℕ) (i : Option ℕ) (s : CacheManager r) : Type 0 where
    kept : lookup key s.remote_cache_map ≡ some a
    over : IsOver s.made a i

  keep_made-Stands :
      (key : Name) (a : ℕ) (i : Option ℕ) (k : Name) (types : ℕ) (m : Marshallers)
      (x : Outcome (Option ℕ) × Manager r) (s : CacheManager r)
      → lookup k s.remote_cache_map ≡ none
      → Stands key a i s
      → Stands key a i (keep_made r k types m x s).1
  unfolding keep_made
  keep_made-Stands key a i k types m (throws e, j) s absent h = record {
    kept = h.kept;
    over = h.over;
  }
  keep_made-Stands key a i k types m (fault, j) s absent h = record { kept = h.kept; over = h.over }
  keep_made-Stands key a i k types m (ok o, j) s absent h = record {
    kept = ground (
      arith,
      h.kept,
      absent,
      lookup-insert k key (length s.made) s.remote_cache_map,
      bytes_same_iff k key,
    );
    over = append-IsOver s.made _ a i h.over;
  }

  found-Stands :
      (key : Name) (a : ℕ) (i : Option ℕ) (k name : Name) (force near : Bool) (types : ℕ)
      (m : Marshallers) (o : Option ℕ) (s : CacheManager r)
      → lookup k s.remote_cache_map ≡ o
      → Stands key a i s
      → Stands key a i (found_in_map r k name force near types m o s).1
  unfolding found_in_map
  found-Stands key a i k name force near types m (some b) s e h = record {
    kept = h.kept;
    over = reset_at-IsOver b m s.made a i h.over;
  }
  found-Stands key a i k name force near types m none s e h =
      keep_made-Stands key a i k types m (create_remote_cache r name force near s.impl) s e h

  step-Stands :
      (key : Name) (a : ℕ) (i : Option ℕ) (c : Call) (s : CacheManager r)
      → Stands key a i s
      → Stands key a i (step s c)
  unfolding step start_manager stop_manager get_default_cache get_cache get_default_cache_with
      get_cache_with
  step-Stands key a i starts s h = record { kept = h.kept; over = h.over }
  step-Stands key a i stops s h = record { kept = h.kept; over = h.over }
  step-Stands key a i (gets_default types force) s h =
      found-Stands key a i (name_and_force [] force) [] force s.is_near types (basic types) _ s refl
        h
  step-Stands key a i (gets types name force) s h =
      found-Stands key a i (name_and_force name force) _ force false types (basic types) _ s refl h
  step-Stands key a i (gets_default_with types m force) s h =
      found-Stands key a i (name_and_force [] force) [] force s.is_near types (given m) _ s refl h
  step-Stands key a i (gets_with types m name force) s h =
      found-Stands key a i (name_and_force name force) _ force s.is_near types (given m) _ s refl h

  run-Stands :
      (key : Name) (a : ℕ) (i : Option ℕ) (cs : List Call) (s : CacheManager r)
      → Stands key a i s
      → Stands key a i (run s cs)
  unfolding run
  run-Stands key a i [] s h = h
  run-Stands key a i (c ∷ cs) s h = run-Stands key a i cs (step s c) (step-Stands key a i c s h)

  again :
      (key : Name) (a : ℕ) (i : Option ℕ) (types : ℕ) (name : Name) (force near : Bool)
      (m : Marshallers) (o : Option ℕ) (s : CacheManager r)
      → lookup key s.remote_cache_map ≡ o
      → Stands key a i s
      → (found_in_map r key name force near types m o s).0 ≡ ok a
  unfolding found_in_map
  again key a i types name force near m none s e h = ground (arith, e, h.kept)
  again key a i types name force near m (some b) s e h = ground (arith, e, h.kept)

  unasked :
      (key : Name) (a : ℕ) (types : ℕ) (name : Name) (force near : Bool) (m : Marshallers)
      (o : Option ℕ) (s : CacheManager r)
      → o ≡ some a
      → (found_in_map r key name force near types m o s).1.impl ≡ s.impl
  unfolding found_in_map
  unasked key a types name force near m none s e = ground (arith, e)
  unasked key a types name force near m (some b) s e = refl

  first :
      (types : ℕ) (name : Name) (force : Bool) (s : CacheManager r) (o : Option ℕ) (x : Option ℕ)
      (j : Manager r)
      → lookup (name_and_force name force) s.remote_cache_map ≡ o
      → o ≡ none
      → create_remote_cache r (c_str name) force false s.impl ≡ (ok x, j)
      → Stands
          (name_and_force name force)
          (length s.made)
          x
          (found_in_map r
            (name_and_force name force)
            (c_str name)
            force
            false
            types
            (basic types)
            o
            s).1
  unfolding found_in_map keep_made
  first types name force s (some b) x j e absent made = ground (arith, absent)
  first types name force s none x j e absent made = rw made (record {
    kept = lookup-inserted (name_and_force name force) (length s.made) s.remote_cache_map;
    over = last-IsOver s.made _;
  })

  -- When getCache makes a cache of a name, and createRemoteCache throws nothing, it is over a
  -- RemoteCacheImpl and over no null pointer: no status of the ping stands for a missing cache. After
  -- any other calls but removals, getCache gives the same cache for that name, over the same
  -- RemoteCacheImpl, and asks nobody; it does so for whatever types it is called.
  pub get_cache-again :
      (types later : ℕ) (name : Name) (force : Bool) (s : CacheManager r) (x : Option ℕ)
      (j : Manager r) (cs : List Call)
      → lookup (name_and_force name force) s.remote_cache_map ≡ none
      → create_remote_cache r (c_str name) force false s.impl ≡ (ok x, j)
      → (h : ℕ) × ((x ≡ some h)
          × (((get_cache r later name force (run (get_cache r types name force s).1 cs)).0
                ≡ ok (length s.made))
              × (IsOver
                    (get_cache r later name force
                      (run (get_cache r types name force s).1 cs)).1.made
                    (length s.made)
                    (some h)
                  × ((get_cache r later name force
                        (run (get_cache r types name force s).1 cs)).1.impl
                      ≡ (run (get_cache r types name force s).1 cs).impl))))
  unfolding get_cache
  get_cache-again types later name force s x j cs absent made =
      let key = name_and_force name force in
      let a = length s.made in
      let t = run (get_cache r types name force s).1 cs in
      let (h, is_h) = create_remote_cache-some r (c_str name) force false s.impl x j made in
      let stands : Stands key a (some h) t =
        run-Stands key a (some h) cs (get_cache r types name force s).1 (
          subst (λ i. Stands key a i (get_cache r types name force s).1) is_h
            (first types name force s (lookup key s.remote_cache_map) x j refl absent made)) in
      let o = lookup key t.remote_cache_map in
      (
        h,
        (
          is_h,
          (
            again key a (some h) later (c_str name) force false (basic later) o t refl stands,
            (
              (found-Stands key a (some h) key (c_str name) force false later (basic later) o t refl
                  stands).over,
              unasked key a later (c_str name) force false (basic later) o t stands.kept,
            ),
          ),
        ),
      )
