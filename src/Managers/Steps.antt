-- ===== src/Managers/Steps.antt =====
-- Starting and stopping every cache: impl/RemoteCacheManagerImpl.cpp.
use cpp_client.Prelude.{
  subst, ◌≡◌, refl, sym, ◌∙◌, ap, ℕ, Bool, true, false, List, [], ◌∷◌, get_elem?, Option, none,
  some, if◌then◌else◌, All, arith,
}
use cpp_client.Exceptions.{Outcome, ok, throws, fault, then_run}
use cpp_client.Transactions.Steps.{OnOk}
use cpp_client.Managers.Impl.{
  Name, Parts, ManagedCache, Holders, Manager, name_and_force, init_at, shut_at, listen,
  listen_if_near, start_remote_cache, start_all, stop_remote_cache, stop_all,
}
use cpp_client.Managers.Keeps.{
  Keeps, Keeps-refl, Keeps-trans, HasFlag, Keeps-init_at, over-init_at, Keeps-shut_at,
}

-- An entry leads to a cache of its name and flag.
abbrev pub Named : List ManagedCache → Name × (ℕ × Bool) → Type 0
Named os (k, (h, force)) =
    (o : ManagedCache) × ((get_elem? os h ≡ some o)
      × ((k ≡ name_and_force o.name force) × (o.force_return_value ≡ force)))

-- An entry leads to a cache over the transport factory `n`.
abbrev pub Over : List ManagedCache → Option ℕ → Name × (ℕ × Bool) → Type 0
Over os n (k, (h, force)) = (o : ManagedCache) × ((get_elem? os h ≡ some o) × (o.factory ≡ n))

pub Named-HasFlag :
    (os : List ManagedCache) (k : Name) (h : ℕ) (force : Bool)
    → Named os (k, (h, force))
    → HasFlag os h force
Named-HasFlag os k h force (o, (e, (named, flag))) p q = ground (arith, e, q, flag)

pub Named-Keeps :
    (n : Option ℕ) (os ps : List ManagedCache) (x : Name × (ℕ × Bool))
    → Keeps n os ps
    → Named os x
    → Named ps x
Named-Keeps n os ps (k, (h, force)) keeps (o, (e, (named, flag))) =
    let (p, (ep, l)) = keeps h o e in
    (
      p,
      (ep, (named ∙ ap (λ name. name_and_force name force) (sym l.name_kept), l.force_kept ∙ flag)),
    )

pub Over-Keeps :
    (n : Option ℕ) (os ps : List ManagedCache) (x : Name × (ℕ × Bool))
    → Keeps n os ps
    → Over os n x
    → Over ps n x
Over-Keeps n os ps (k, (h, force)) keeps (o, (e, over)) =
    let (p, (ep, l)) = keeps h o e in (p, (ep, l.over_kept over))

pub All-map {ℓ κ} :
    {A : Type ℓ} (P Q : A → Type κ) (xs : List A) → ((x : A) → P x → Q x) → All P xs → All Q xs
All-map P Q [] f h = tt
All-map P Q (x ∷ xs) f h = (f x h.0, All-map P Q xs f h.1)

pub if-both {ℓ κ} :
    {A : Type ℓ} (P : A → Type κ) (b : Bool) (x y : A)
    → (b ≡ true → P x)
    → (b ≡ false → P y)
    → P (if b then x else y)
if-both P true x y f g = f refl
if-both P false x y f g = g refl

module _ (r : Parts) where
  -- The caches stay what they are, and nothing else changes but the world.
  pub record Moved (s t : Manager r) : Type 0 where
    pub keeps : Keeps s.factory s.objects t.objects
    pub same_factory : t.factory ≡ s.factory
    pub same_caches : t.caches ≡ s.caches
    pub same_started : t.is_started ≡ s.is_started

  unmoved : (s : Manager r) → Moved s s
  unmoved s = record {
    keeps = Keeps-refl s.factory s.objects;
    same_factory = refl;
    same_caches = refl;
    same_started = refl;
  }

  pub Moved-trans : (s t u : Manager r) → Moved s t → Moved t u → Moved s u
  Moved-trans s t u a b = record {
    keeps =
        Keeps-trans s.factory s.objects t.objects u.objects a.keeps (rw⁻¹ a.same_factory b.keeps);
    same_factory = b.same_factory ∙ a.same_factory;
    same_caches = b.same_caches ∙ a.same_caches;
    same_started = b.same_started ∙ a.same_started;
  }

  pub listen_if_near-world :
      (o : Option ManagedCache) (s : Manager r)
      → (w : r.World) × ((listen_if_near r o s).1 ≡ record s { world = w })
  unfolding listen_if_near listen
  listen_if_near-world none s = (s.world, refl)
  listen_if_near-world (some o) s = near o.is_near s.factory
    where
      near :
          (b : Bool) (n : Option ℕ)
          → (w : r.World) × ((if b then listen r o.name n s else (ok tt, s)).1
              ≡ record s { world = w })
      near true none = (s.world, refl)
      near true (some n) = ((r.start_listener o.name n s.world).1, refl)
      near false n = (s.world, refl)

  pub start_remote_cache-state :
      (h : ℕ) (force : Bool) (s : Manager r)
      → (w : r.World) × ((start_remote_cache r h force s).1
          ≡ record s { objects = init_at h s.factory force s.objects; world = w })
  unfolding start_remote_cache
  start_remote_cache-state h force s =
      listen_if_near-world (get_elem? s.objects h)
        (record s { objects = init_at h s.factory force s.objects })

  pub start_remote_cache-Moved :
      (h : ℕ) (force : Bool) (s : Manager r)
      → HasFlag s.objects h force
      → Moved s (start_remote_cache r h force s).1
  start_remote_cache-Moved h force s f =
      let (w, e) = start_remote_cache-state h force s in
      rw e (record {
        keeps = Keeps-init_at s.factory h force s.objects f;
        same_factory = refl;
        same_caches = refl;
        same_started = refl;
      })

  start_remote_cache-Over :
      (k : Name) (h : ℕ) (force : Bool) (s : Manager r)
      → Named s.objects (k, (h, force))
      → Over (start_remote_cache r h force s).1.objects s.factory (k, (h, force))
  start_remote_cache-Over k h force s (o, (e, x)) =
      let (w, eq) = start_remote_cache-state h force s in
      rw eq (
        record o { factory = s.factory; force_return_value = force },
        (over-init_at s.factory h force s.objects o e, refl),
      )

  pub record Started (m : Holders) (s : Manager r) (x : Outcome (Unit {0}) × Manager r)
      : Type 0 where
    pub moved : Moved s x.1
    pub all_over : OnOk (λ _ t. All (Over t.objects s.factory) m) x

  widen :
      (y : Name × (ℕ × Bool)) (m : Holders) (n : Option ℕ) (t : Manager r)
      (x : Outcome (Unit {0}) × Manager r)
      → t.factory ≡ n
      → Over t.objects n y
      → Moved t x.1
      → OnOk (λ _ u. All (Over u.objects t.factory) m) x
      → OnOk (λ _ u. All (Over u.objects n) (y ∷ m)) x
  widen y m n t (throws e, u) same over a h = tt
  widen y m n t (fault, u) same over a h = tt
  widen y m n t (ok _, u) same over a h = (
    Over-Keeps n t.objects u.objects y (rw⁻¹ same a.keeps) over,
    subst (λ n'. All (Over u.objects n') m) same h,
  )

  next_Started :
      (y : Name × (ℕ × Bool)) (m : Holders) (s : Manager r) (x : Outcome (Unit {0}) × Manager r)
      → Moved s x.1
      → Over x.1.objects s.factory y
      → ((t : Manager r) → Moved s t → Started m t (start_all r m t))
      → Started (y ∷ m) s (then_run (λ _. start_all r m) x)
  next_Started y m s (throws e, t) a over next = record { moved = a; all_over = tt }
  next_Started y m s (fault, t) a over next = record { moved = a; all_over = tt }
  next_Started y m s (ok _, t) a over next =
      let later = next t a in
      record {
        moved = Moved-trans s t (start_all r m t).1 a later.moved;
        all_over =
            widen y m s.factory t (start_all r m t) a.same_factory over later.moved later.all_over;
      }

  pub start_all-Started :
      (m : Holders) (s : Manager r) → All (Named s.objects) m → Started m s (start_all r m s)
  unfolding start_all
  start_all-Started [] s h = record { moved = unmoved s; all_over = tt }
  start_all-Started ((k, (h, force)) ∷ m) s (named, rest) =
      next_Started (k, (h, force)) m s (start_remote_cache r h force s)
        (start_remote_cache-Moved h force s (Named-HasFlag s.objects k h force named))
        (start_remote_cache-Over k h force s named)
        λ t a. start_all-Started m t (
          All-map (Named s.objects) (Named t.objects) m
            (λ x. Named-Keeps s.factory s.objects t.objects x a.keeps) rest)

  stop_remote_cache-Moved :
      (h : ℕ) (o : Option ManagedCache) (s : Manager r) → Moved s (stop_remote_cache r h o s)
  unfolding stop_remote_cache
  stop_remote_cache-Moved h none s = unmoved s
  stop_remote_cache-Moved h (some o) s =
      if-both (Moved s) o.is_near
        (record s { objects = shut_at h s.objects; world = r.stop_listener o.name s.world }) s
        (λ near. record {
          keeps = Keeps-shut_at s.factory h s.objects;
          same_factory = refl;
          same_caches = refl;
          same_started = refl;
        })
        (λ far. unmoved s)

  pub stop_all-Moved : (m : Holders) (s : Manager r) → Moved s (stop_all r m s)
  unfolding stop_all
  stop_all-Moved [] s = unmoved s
  stop_all-Moved ((k, (h, force)) ∷ m) s =
      let t = stop_remote_cache r h (get_elem? s.objects h) s in
      Moved-trans s t (stop_all r m t) (stop_remote_cache-Moved h (get_elem? s.objects h) s)
        (stop_all-Moved m t)
