-- ===== src/Managers/Keeps.antt =====
-- What the operations of the manager leave of a cache that was made: impl/RemoteCacheManagerImpl.cpp.
use cpp_client.Prelude.{
  ◌≡◌, refl, ◌∙◌, ℕ, zero, suc, Bool, true, List, [], ◌∷◌, ◌++◌, length, get_elem?, Option, some,
  arith,
}
use cpp_client.Managers.Impl.{ManagedCache, init_at, shut_at}

-- A cache keeps its name and its flag, is still shut down if it was, and is over the transport factory
-- `n` if it was.
pub record Later (n : Option ℕ) (o p : ManagedCache) : Type 0 where
  pub name_kept : p.name ≡ o.name
  pub force_kept : p.force_return_value ≡ o.force_return_value
  pub near_kept : p.is_near ≡ o.is_near
  pub shut_kept : o.is_shut_down ≡ true → p.is_shut_down ≡ true
  pub over_kept : o.factory ≡ n → p.factory ≡ n

abbrev pub Keeps : Option ℕ → List ManagedCache → List ManagedCache → Type 0
Keeps n os ps =
    (h : ℕ) (o : ManagedCache)
    → get_elem? os h ≡ some o
    → (p : ManagedCache) × ((get_elem? ps h ≡ some p) × Later n o p)

Later-refl : (n : Option ℕ) (o : ManagedCache) → Later n o o
Later-refl n o = record {
  name_kept = refl;
  force_kept = refl;
  near_kept = refl;
  shut_kept = λ x. x;
  over_kept = λ x. x;
}

pub Keeps-refl : (n : Option ℕ) (os : List ManagedCache) → Keeps n os os
Keeps-refl n os h o e = (o, (e, Later-refl n o))

pub Keeps-trans :
    (n : Option ℕ) (os ps qs : List ManagedCache) → Keeps n os ps → Keeps n ps qs → Keeps n os qs
Keeps-trans n os ps qs f g h o e =
    let (p, (ep, k)) = f h o e in
    let (q, (eq, l)) = g h p ep in
    (
      q,
      (
        eq,
        record {
          name_kept = l.name_kept ∙ k.name_kept;
          force_kept = l.force_kept ∙ k.force_kept;
          near_kept = l.near_kept ∙ k.near_kept;
          shut_kept = λ x. l.shut_kept (k.shut_kept x);
          over_kept = λ x. l.over_kept (k.over_kept x);
        },
      ),
    )

-- A cache at a place has this flag.
abbrev pub HasFlag : List ManagedCache → ℕ → Bool → Type 0
HasFlag os h force = (o : ManagedCache) → get_elem? os h ≡ some o → o.force_return_value ≡ force

pub Keeps-init_at :
    (n : Option ℕ) (h : ℕ) (force : Bool) (os : List ManagedCache)
    → HasFlag os h force
    → Keeps n os (init_at h n force os)
unfolding init_at
Keeps-init_at n zero force (o ∷ os) f zero p e = (
  record p { factory = n; force_return_value = force },
  (
    ground (arith, e),
    record {
      name_kept = refl;
      force_kept = ground (arith, f p e);
      near_kept = refl;
      shut_kept = λ x. x;
      over_kept = λ x. refl;
    },
  ),
)
Keeps-init_at n zero force (o ∷ os) f (suc j) p e = Keeps-refl n os j p e
Keeps-init_at n (suc h) force (o ∷ os) f zero p e = Keeps-refl n (o ∷ os) zero p e
Keeps-init_at n (suc h) force (o ∷ os) f (suc j) p e = Keeps-init_at n h force os f j p e
Keeps-init_at n h force [] f j p e = ground (arith, e)

-- A cache that was initialized is over the transport factory.
pub over-init_at :
    (n : Option ℕ) (h : ℕ) (force : Bool) (os : List ManagedCache) (o : ManagedCache)
    → get_elem? os h ≡ some o
    → get_elem? (init_at h n force os) h
      ≡ some (record o { factory = n; force_return_value = force })
unfolding init_at
over-init_at n h force [] o e = ground (arith, e)
over-init_at n zero force (x ∷ os) o e = ground (arith, e)
over-init_at n (suc h) force (x ∷ os) o e = over-init_at n h force os o e

pub Keeps-shut_at : (n : Option ℕ) (h : ℕ) (os : List ManagedCache) → Keeps n os (shut_at h os)
unfolding shut_at
Keeps-shut_at n zero (o ∷ os) zero p e = (
  record p { is_shut_down = true },
  (
    ground (arith, e),
    record {
      name_kept = refl;
      force_kept = refl;
      near_kept = refl;
      shut_kept = λ x. refl;
      over_kept = λ x. x;
    },
  ),
)
Keeps-shut_at n zero (o ∷ os) (suc j) p e = Keeps-refl n os j p e
Keeps-shut_at n (suc h) (o ∷ os) zero p e = Keeps-refl n (o ∷ os) zero p e
Keeps-shut_at n (suc h) (o ∷ os) (suc j) p e = Keeps-shut_at n h os j p e
Keeps-shut_at n h [] j p e = ground (arith, e)

get_elem?-append :
    (os : List ManagedCache) (x : ManagedCache) (h : ℕ) (o : ManagedCache)
    → get_elem? os h ≡ some o
    → get_elem? (os ++ (x ∷ [])) h ≡ some o
get_elem?-append [] x h o e = ground (arith, e)
get_elem?-append (y ∷ os) x zero o e = e
get_elem?-append (y ∷ os) x (suc h) o e = get_elem?-append os x h o e

pub get_elem?-last :
    (os : List ManagedCache) (x : ManagedCache) → get_elem? (os ++ (x ∷ [])) (length os) ≡ some x
get_elem?-last [] x = refl
get_elem?-last (y ∷ os) x = get_elem?-last os x

pub Keeps-append :
    (n : Option ℕ) (os : List ManagedCache) (x : ManagedCache) → Keeps n os (os ++ (x ∷ []))
Keeps-append n os x h o e = (o, (get_elem?-append os x h o e, Later-refl n o))
