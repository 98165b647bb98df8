-- ===== src/Managers/Made.antt =====
-- The caches that createRemoteCache leaves: impl/RemoteCacheManagerImpl.cpp.
use cpp_client.Prelude.{
  false, sym, subst, ◌≡◌, refl, ap, ℕ, Bool, [], length, Option, none, some, if◌then◌else◌,
}
use cpp_client.Prelude.Maps.{lookup, bytes_key, bytes_same, insert}
use cpp_client.Exceptions.{Run, Outcome, ok, throws, fault, then_run, return}
use cpp_client.Protocol.OpCodes.{is_success, has_compatibility}
use cpp_client.Pool.State.{success_with_compat, success, PingResult, fail}
use cpp_client.Managers.Impl.{
  found_cache, create_remote_cache, ping_result, ask, Name, Parts, Holders, Manager, name_and_force,
  ping, is_missing, keep_cache, keep_if_defined, make_cache,
}
use cpp_client.Transactions.Steps.{OnOk}
use cpp_client.Managers.Steps.{if-both, start_remote_cache-state}

module _ (r : Parts) where
  -- The caches after createRemoteCache of an unknown name: the new one is kept if it is answered, and
  -- no null pointer is.
  abbrev pub Made : Name → Bool → Holders → Outcome (Option ℕ) × Manager r → Type 0
  Made name force m (ok (some h), t) = t.caches ≡ insert (name_and_force name force) (h, force) m
  Made name force m (ok none, t) = ⊥
  Made name force m (throws e, t) = t.caches ≡ m
  Made name force m (fault, t) = t.caches ≡ m

  -- What follows the ping.
  abbrev pub told : Name → Bool → ℕ → PingResult → Run (Manager r) (Option ℕ)
  told name force h x = if is_missing r x then return none else keep_cache r name force h

  found : (status : ℕ) → is_missing r (ping_result status) ≡ false
  unfolding is_missing ping_result
  found status =
      if-both (λ x. is_missing r x ≡ false) (is_success status)
        (if has_compatibility status then success_with_compat else success) fail
        (λ _.
          if-both (λ x. is_missing r x ≡ false) (has_compatibility status) success_with_compat
            success (λ _. refl) λ _. refl)
        λ _. refl

  -- No status of a ping stands for a missing cache.
  pub told-kept :
      (name : Name) (force : Bool) (h status : ℕ)
      → told name force h (ping_result status) ≡ keep_cache r name force h
  told-kept name force h status = rw (found status) refl

  answered-Made :
      (name : Name) (force : Bool) (h : ℕ) (x : Outcome ℕ) (s : Manager r)
      → Made name force s.caches
          (then_run (told name force h) (then_run (λ status. return (ping_result status)) (x, s)))
  unfolding keep_cache
  answered-Made name force h (throws e) s = refl
  answered-Made name force h fault s = refl
  answered-Made name force h (ok status) s =
      subst (λ (k : Run (Manager r) (Option ℕ)). Made name force s.caches (k s))
        (sym (told-kept name force h status)) refl

  asked-Made :
      (name : Name) (force : Bool) (h : ℕ) (n : Option ℕ) (s : Manager r)
      → Made name force s.caches (then_run (told name force h) (ping r name n s))
  unfolding ping ask keep_cache is_missing
  asked-Made name force h none s = refl
  asked-Made name force h (some n) s =
      let (x, w) = r.ping name n s.world in answered-Made name force h x (record s { world = w })

  keep_if_defined-Made :
      (name : Name) (force : Bool) (h : ℕ) (s : Manager r)
      → Made name force s.caches (keep_if_defined r name force h s)
  unfolding keep_if_defined keep_cache
  keep_if_defined-Made name force h s =
      if-both (Made name force s.caches) (bytes_same name []) (keep_cache r name force h s) _
        (λ default. refl) λ named. asked-Made name force h s.factory s

  kept-Made :
      (name : Name) (force : Bool) (h : ℕ) (m : Holders) (x : Outcome (Unit {0}) × Manager r)
      → x.1.caches ≡ m
      → Made name force m (then_run (λ _. keep_if_defined r name force h) x)
  kept-Made name force h m (throws e, s) same = same
  kept-Made name force h m (fault, s) same = same
  kept-Made name force h m (ok _, s) same =
      subst (λ m'. Made name force m' (keep_if_defined r name force h s)) same
        (keep_if_defined-Made name force h s)

  pub make_cache-Made :
      (name : Name) (force near : Bool) (s : Manager r)
      → Made name force s.caches (make_cache r name force near s)
  unfolding make_cache
  make_cache-Made name force near s =
      let (w, e) = start_remote_cache-state r (length s.objects) force _ in
      kept-Made name force (length s.objects) s.caches _ (ap (λ (t : Manager r). t.caches) e)

  Made-some :
      (name : Name) (force : Bool) (m : Holders) (y : Outcome (Option ℕ) × Manager r)
      → Made name force m y
      → OnOk (λ o t. (h : ℕ) × (o ≡ some h)) y
  Made-some name force m (throws e, t) made = tt
  Made-some name force m (fault, t) made = tt
  Made-some name force m (ok none, t) made = elim made [ ]
  Made-some name force m (ok (some h), t) made = (h, refl)

  found_cache-some :
      (name : Name) (force near : Bool) (o : Option (ℕ × Bool)) (s : Manager r)
      → OnOk (λ x t. (h : ℕ) × (x ≡ some h)) (found_cache r name force near o s)
  unfolding found_cache
  found_cache-some name force near (some (h, f)) s = (h, refl)
  found_cache-some name force near none s =
      Made-some name force s.caches (make_cache r name force near s)
        (make_cache-Made name force near s)

  -- createRemoteCache answers no null pointer.
  pub create_remote_cache-some :
      (name : Name) (force near : Bool) (s : Manager r) (x : Option ℕ) (t : Manager r)
      → create_remote_cache r name force near s ≡ (ok x, t)
      → (h : ℕ) × (x ≡ some h)
  unfolding create_remote_cache
  create_remote_cache-some name force near s x t e =
      subst (OnOk (λ o (u : Manager r). (h : ℕ) × (o ≡ some h))) e
        (found_cache-some name force near (lookup (name_and_force name force) s.caches) s)
