-- ===== src/Managers/Kept.antt =====
-- A cache that was given out is given out again: impl/RemoteCacheManagerImpl.cpp.
use cpp_client.Prelude.{
  ◌≡◌, refl, sym, ◌∙◌, ap, ℕ, ◌+◌, Bool, List, [], ◌∷◌, get_elem?, Option, none, some, All, arith,
}
use cpp_client.Prelude.Maps.{bytes_key, bytes_same_iff, lookup, lookup-insert, lookup-inserted}
use cpp_client.Exceptions.{Outcome, ok, throws, fault, then_run}
use cpp_client.Transactions.Steps.{OnOk}
use cpp_client.Managers.Impl.{
  Name, Parts, ManagedCache, Holders, Manager, new_manager, name_and_force, start_remote_cache,
  start_all, start, stop, connect, finish_start, finish_stop, stop_all, make_cache, found_cache,
  create_remote_cache,
}
use cpp_client.Managers.Names.{name_and_force-injective}
use cpp_client.Managers.Steps.{Named, if-both, start_remote_cache-state, stop_all-Moved}
use cpp_client.Managers.Connected.{Sound}
use cpp_client.Managers.Creating.{found_cache-Sound}
use cpp_client.Managers.Reach.{Call, starts, stops, creates, step, run, run-Sound}
use cpp_client.Managers.Made.{Made, make_cache-Made}

-- What the states of a chain have in common.
then_run-state :
    {S A B : Type 0} (P : S → Type 0) (k : A → S → Outcome B × S) (x : Outcome A × S)
    → P x.1
    → ((a : A) (s : S) → P s → P (k a s).1)
    → P (then_run k x).1
then_run-state P k (ok a, s) p f = f a s p
then_run-state P k (throws e, s) p f = p
then_run-state P k (fault, s) p f = p

All-lookup :
    {V : Type 0} (P : Name × V → Type 0) (k : Name) (v : V) (m : List (Name × V))
    → lookup k m ≡ some v
    → All P m
    → P (k, v)
unfolding lookup
All-lookup P k v [] e h = ground (arith, e)
All-lookup P k v ((j, w) ∷ m) e (p, h) = ground (arith, e, bytes_same_iff j k, All-lookup P k v m)

module _ (r : Parts) where
  -- An entry stays, whatever is called.
  abbrev Has : Name → ℕ × Bool → Manager r → Type 0
  Has k x s = lookup k s.caches ≡ some x

  start_all-Has :
      (k : Name) (x : ℕ × Bool) (m : Holders) (s : Manager r)
      → Has k x s
      → Has k x (start_all r m s).1
  unfolding start_all
  start_all-Has k x [] s has = has
  start_all-Has k x ((j, (h, force)) ∷ m) s has =
      let (w, e) = start_remote_cache-state r h force s in
      then_run-state (Has k x) (λ _. start_all r m) (start_remote_cache r h force s) (rw e has)
        λ _ t. start_all-Has k x m t

  start-Has : (k : Name) (x : ℕ × Bool) (s : Manager r) → Has k x s → Has k x (start r s).1
  unfolding start connect finish_start
  start-Has k x s has =
      let opened : Manager r = record s {
        factories = s.factories + 1;
        factory = some s.factories;
      } in
      let first : Outcome (Unit {0}) × Manager r = connect r s.factories opened in
      let second : Outcome (Unit {0}) × Manager r =
        then_run (λ _ t. start_all r t.caches t) first in
      if-both (λ (y : Outcome (Unit {0}) × Manager r). Has k x y.1) s.is_started (ok tt, s) _
        (λ on. has)
        λ off.
          then_run-state (Has k x) (λ _. finish_start r) second
            (then_run-state (Has k x) (λ _ t. start_all r t.caches t) first has
              λ _ t. start_all-Has k x t.caches t)
            λ _ t has'. has'

  stop-Has : (k : Name) (x : ℕ × Bool) (s : Manager r) → Has k x s → Has k x (stop r s)
  unfolding stop finish_stop
  stop-Has k x s has =
      let same = (stop_all-Moved r s.caches s).same_caches in
      if-both (Has k x) s.is_started (finish_stop r (stop_all r s.caches s)) s
        (λ on. ap (lookup k) same ∙ has) λ off. has

  Made-Has :
      (name : Name) (force : Bool) (k : Name) (x : ℕ × Bool) (m : Holders)
      (y : Outcome (Option ℕ) × Manager r)
      → lookup (name_and_force name force) m ≡ none
      → lookup k m ≡ some x
      → Made r name force m y
      → Has k x y.1
  Made-Has name force k x m (throws e, t) absent has same = ap (lookup k) same ∙ has
  Made-Has name force k x m (fault, t) absent has same = ap (lookup k) same ∙ has
  Made-Has name force k x m (ok none, t) absent has same = elim same [ ]
  Made-Has name force k x m (ok (some h), t) absent has same =
      ap (lookup k) same
      ∙ ground (
        arith,
        absent,
        has,
        lookup-insert (name_and_force name force) k (h, force) m,
        bytes_same_iff (name_and_force name force) k,
      )

  found-Has :
      (name : Name) (force near : Bool) (o : Option (ℕ × Bool)) (k : Name) (x : ℕ × Bool)
      (s : Manager r)
      → lookup (name_and_force name force) s.caches ≡ o
      → Has k x s
      → Has k x (found_cache r name force near o s).1
  unfolding found_cache
  found-Has name force near (some y) k x s e has = has
  found-Has name force near none k x s e has =
      Made-Has name force k x s.caches (make_cache r name force near s) e has
        (make_cache-Made r name force near s)

  step-Has :
      (k : Name) (x : ℕ × Bool) (c : Call r) (s : Manager r) → Has k x s → Has k x (step r s c)
  unfolding step create_remote_cache
  step-Has k x starts s has = start-Has k x s has
  step-Has k x stops s has = stop-Has k x s has
  step-Has k x (creates name force near) s has =
      found-Has name force near (lookup (name_and_force name force) s.caches) k x s refl has

  run-Has :
      (k : Name) (x : ℕ × Bool) (cs : List (Call r)) (s : Manager r)
      → Has k x s
      → Has k x (run r s cs)
  unfolding run
  run-Has k x [] s has = has
  run-Has k x (c ∷ cs) s has = run-Has k x cs (step r s c) (step-Has k x c s has)

  -- What an answer of createRemoteCache is worth: a cache of the name and the flag, and never a null
  -- pointer, which is answered again after any other calls, and then nothing changes.
  abbrev pub Given : Name → Bool → Option ℕ → Manager r → Type 0
  Given name force none t = ⊥
  Given name force (some h) t =
      ((o : ManagedCache) × ((get_elem? t.objects h ≡ some o)
          × ((o.name ≡ name) × (o.force_return_value ≡ force))))
      × ((near : Bool) (cs : List (Call r))
          → create_remote_cache r name force near (run r t cs) ≡ (ok (some h), run r t cs))

  again :
      (name : Name) (force near : Bool) (h : ℕ) (f : Bool) (s : Manager r)
      → Has (name_and_force name force) (h, f) s
      → create_remote_cache r name force near s ≡ (ok (some h), s)
  unfolding create_remote_cache found_cache
  again name force near h f s has = ap (λ o. found_cache r name force near o s) has

  given :
      (name : Name) (force : Bool) (h : ℕ) (f : Bool) (t : Manager r)
      → Sound r t
      → Has (name_and_force name force) (h, f) t
      → Given name force (some h) t
  given name force h f t v has =
      let k = name_and_force name force in
      let (o, (there, (named, flag))) =
        All-lookup (Named t.objects) k (h, f) t.caches has v.named in
      let (n, g) = name_and_force-injective name o.name force f named in
      (
        (o, (there, (sym n, flag ∙ sym g))),
        λ near cs. again name force near h f (run r t cs) (run-Has k (h, f) cs t has),
      )

  Made-Given :
      (name : Name) (force : Bool) (m : Holders) (y : Outcome (Option ℕ) × Manager r)
      → Sound r y.1
      → Made r name force m y
      → OnOk (λ o t. Given name force o t) y
  Made-Given name force m (throws e, t) v same = tt
  Made-Given name force m (fault, t) v same = tt
  Made-Given name force m (ok none, t) v same = elim same [ ]
  Made-Given name force m (ok (some h), t) v same =
      let k = name_and_force name force in
      given name force h force t v (ap (lookup k) same ∙ lookup-inserted k (h, force) m)

  found-Given :
      (name : Name) (force near : Bool) (o : Option (ℕ × Bool)) (s : Manager r)
      → lookup (name_and_force name force) s.caches ≡ o
      → Sound r s
      → OnOk (λ o t. Given name force o t) (found_cache r name force near o s)
  unfolding found_cache
  found-Given name force near (some (h, f)) s e v = given name force h f s v e
  found-Given name force near none s e v =
      Made-Given name force s.caches (make_cache r name force near s)
        (found_cache-Sound r name force near none s v) (make_cache-Made r name force near s)

  -- In a manager after any calls, createRemoteCache, where it throws nothing, answers a cache of the
  -- name and the flag that were asked for, and no null pointer, whatever status the server gives the
  -- ping. After any other calls it is answered for them again, as the same object
  -- and without a call of the server, whatever mode of near cache is asked for then.
  pub create_remote_cache-Given :
      (before : List (Call r)) (w : r.World) (name : Name) (force near : Bool)
      → OnOk
          (λ o t. Given name force o t)
          (create_remote_cache r name force near (run r (new_manager r w) before))
  unfolding create_remote_cache
  create_remote_cache-Given before w name force near =
      let s = run r (new_manager r w) before in
      found-Given name force near (lookup (name_and_force name force) s.caches) s refl
        (run-Sound r before w)
