-- ===== src/Managers/Creating.antt =====
-- createRemoteCache keeps what holds of the manager: impl/RemoteCacheManagerImpl.cpp.
use cpp_client.Prelude.{
  sym, subst, refl, ℕ, Bool, false, List, [], ◌∷◌, ◌++◌, length, Option, none, some, All, arith,
}
use cpp_client.Prelude.Maps.{bytes_key, bytes_same, insert}
use cpp_client.Exceptions.{Run, Outcome, ok, throws, fault, then_run, return}
use cpp_client.Managers.Made.{told, told-kept}
use cpp_client.Managers.Impl.{
  ping_result, ask, Name, Parts, ManagedCache, Manager, name_and_force, start_remote_cache, ping,
  is_missing, keep_cache, keep_if_defined, make_cache, found_cache,
}
use cpp_client.Managers.Keeps.{HasFlag, over-init_at, get_elem?-last, Keeps-append}
use cpp_client.Managers.Steps.{
  Named, Over, Moved, if-both, start_remote_cache-Moved, start_remote_cache-state,
}
use cpp_client.Managers.Connected.{Sound, Moved-Sound}

All-insert :
    {V : Type 0} (P : Name × V → Type 0) (k : Name) (v : V) (m : List (Name × V))
    → P (k, v)
    → All P m
    → All P (insert k v m)
unfolding insert
All-insert P k v [] p h = (p, tt)
All-insert P k v ((j, w) ∷ m) p (q, h) = ground (arith, All-insert P k v m p h)

module _ (r : Parts) where
  -- A new cache that was initialized.
  record Ready (name : Name) (force : Bool) (h : ℕ) (s : Manager r) : Type 0 where
    named : Named s.objects (name_and_force name force, (h, force))
    over : Over s.objects s.factory (name_and_force name force, (h, force))

  keep_cache-Sound :
      (name : Name) (force : Bool) (h : ℕ) (s : Manager r)
      → Ready name force h s
      → Sound r s
      → Sound r (keep_cache r name force h s).1
  unfolding keep_cache
  keep_cache-Sound name force h s new v =
      let k = name_and_force name force in
      record {
        named = All-insert (Named s.objects) k (h, force) s.caches new.named v.named;
        connected = λ on.
            All-insert (Over s.objects s.factory) k (h, force) s.caches new.over (v.connected on);
      }

  answered-Sound :
      (name : Name) (force : Bool) (h : ℕ) (x : Outcome ℕ) (s : Manager r)
      → Ready name force h s
      → Sound r s
      → Sound r
          (then_run
            (told r name force h)
            (then_run (λ status. return (ping_result status)) (x, s))).1
  answered-Sound name force h (throws e) s new v = v
  answered-Sound name force h fault s new v = v
  answered-Sound name force h (ok status) s new v =
      subst (λ (k : Run (Manager r) (Option ℕ)). Sound r (k s).1)
        (sym (told-kept r name force h status)) (keep_cache-Sound name force h s new v)

  asked-Sound :
      (name : Name) (force : Bool) (h : ℕ) (n : Option ℕ) (s : Manager r)
      → Ready name force h s
      → Sound r s
      → Sound r (then_run (told r name force h) (ping r name n s)).1
  unfolding ping ask is_missing
  asked-Sound name force h none s new v = keep_cache-Sound name force h s new v
  asked-Sound name force h (some n) s new v =
      let (x, w) = r.ping name n s.world in
      answered-Sound name force h x (record s { world = w })
        (record { named = new.named; over = new.over })
        (record { named = v.named; connected = v.connected })

  keep_if_defined-Sound :
      (name : Name) (force : Bool) (h : ℕ) (s : Manager r)
      → Ready name force h s
      → Sound r s
      → Sound r (keep_if_defined r name force h s).1
  unfolding keep_if_defined
  keep_if_defined-Sound name force h s new v =
      if-both (λ (y : Outcome (Option ℕ) × Manager r). Sound r y.1) (bytes_same name []) _ _
        (λ default. keep_cache-Sound name force h s new v)
        λ named. asked-Sound name force h s.factory s new v

  kept-Sound :
      (name : Name) (force : Bool) (h : ℕ) (x : Outcome (Unit {0}) × Manager r)
      → Ready name force h x.1
      → Sound r x.1
      → Sound r (then_run (λ _. keep_if_defined r name force h) x).1
  kept-Sound name force h (throws e, s) new v = v
  kept-Sound name force h (fault, s) new v = v
  kept-Sound name force h (ok _, s) new v = keep_if_defined-Sound name force h s new v

  made : Name → Bool → Bool → Manager r → Manager r
  made name force near s = record s {
    objects =
        s.objects
        ++ (record {
          name = name;
          factory = none;
          force_return_value = force;
          is_near = near;
          is_shut_down = false;
        }
            ∷ []);
  }

  made-Moved :
      (name : Name) (force near : Bool) (s : Manager r) → Moved r s (made name force near s)
  unfolding made
  made-Moved name force near s = record {
    keeps = Keeps-append s.factory s.objects _;
    same_factory = refl;
    same_caches = refl;
    same_started = refl;
  }

  make_cache-Sound :
      (name : Name) (force near : Bool) (s : Manager r)
      → Sound r s
      → Sound r (make_cache r name force near s).1
  unfolding make_cache made
  make_cache-Sound name force near s v =
      let h = length s.objects in
      let t = made name force near s in
      let new : ManagedCache = record {
        name = name;
        factory = none;
        force_return_value = force;
        is_near = near;
        is_shut_down = false;
      } in
      let last = get_elem?-last s.objects new in
      let u = (start_remote_cache r h force t).1 in
      let flag : HasFlag t.objects h force = λ o e. ground (arith, e, last) in
      let (w, e) = start_remote_cache-state r h force t in
      let there = over-init_at s.factory h force t.objects new last in
      let p : ManagedCache = record new { factory = s.factory } in
      kept-Sound name force h (start_remote_cache r h force t)
        (rw e (record { named = (p, (there, (refl, refl))); over = (p, (there, refl)) }))
        (Moved-Sound r t u (start_remote_cache-Moved r h force t flag)
          (Moved-Sound r s t (made-Moved name force near s) v))

  pub found_cache-Sound :
      (name : Name) (force near : Bool) (o : Option (ℕ × Bool)) (s : Manager r)
      → Sound r s
      → Sound r (found_cache r name force near o s).1
  unfolding found_cache
  found_cache-Sound name force near none s v = make_cache-Sound name force near s v
  found_cache-Sound name force near (some x) s v = v
