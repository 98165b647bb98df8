-- ===== src/Transactions/Prepared.antt =====
-- The caches that remotePrepareCommit marks as prepared, and the roll back over them.
use cpp_client.Prelude.{
  ℕ, ◌≡◌, ◌≢◌, refl, Bool, true, false, ◌&&◌, List, [], ◌∷◌, some, ◌==◌, arith, Bool-cases, inl,
  inr,
}
use cpp_client.Prelude.Maps.{lookup, contains, insert, nat_key}
use cpp_client.Exceptions.{Outcome, ok, throws, fault}
use cpp_client.Transactions.Context.{TransactionContext}
use cpp_client.Transactions.Remote.{
  Xid, Caches, Tally, no_answers, prepared, remote_prepare_commit, rolled_back, remote_rollback,
  judge_rollback, count_rollback, xa_ok, xa_rdonly,
}

-- Every prepared cache points to a registered context.
abbrev points_in : List (ℕ × TransactionContext) → List (ℕ × ℕ) → Bool
points_in registered [] = true
points_in registered ((c, p) ∷ rest) = contains p registered && points_in registered rest

-- The caches of a list are registered.
abbrev all_in : List (ℕ × TransactionContext) → List (ℕ × TransactionContext) → Bool
all_in registered [] = true
all_in registered ((c, ctx) ∷ rest) = contains c registered && all_in registered rest

points_in-insert :
    (registered : List (ℕ × TransactionContext)) (c : ℕ) (done : List (ℕ × ℕ))
    → contains c registered ≡ true
    → points_in registered done ≡ true
    → points_in registered (insert c c done) ≡ true
unfolding insert
points_in-insert registered c [] h d = ground arith
points_in-insert registered c ((k, p) ∷ rest) h d =
    ground (arith, points_in-insert registered c rest h)

all_in-more :
    (registered rest : List (ℕ × TransactionContext)) (c : ℕ) (ctx : TransactionContext)
    → all_in registered rest ≡ true
    → all_in ((c, ctx) ∷ registered) rest ≡ true
unfolding contains
all_in-more registered [] c ctx h = refl
all_in-more registered ((k, x) ∷ rest) c ctx h = ground (arith, all_in-more registered rest c ctx)

all_in_itself : (registered : List (ℕ × TransactionContext)) → all_in registered registered ≡ true
unfolding contains
all_in_itself [] = refl
all_in_itself ((c, ctx) ∷ rest) = ground (arith, all_in-more rest rest c ctx (all_in_itself rest))

contains-lookup :
    (c : ℕ) (m : List (ℕ × TransactionContext))
    → contains c m ≡ true
    → (x : TransactionContext) × (lookup c m ≡ some x)
unfolding contains lookup
contains-lookup c [] h = absurd (ground arith)
contains-lookup c ((k, x) ∷ m) h = elim (Bool-cases (k == c)) [
  | inl same ↦ (x, rw (same, lookup) refl)
  | inr other ↦ let (y, e) = contains-lookup c m (ground arith) in (y, rw (other, lookup) e)
]

module _ (r : Caches) (xid : Xid) (registered : List (ℕ × TransactionContext)) where
  prepared-points_in :
      (rest : List (ℕ × TransactionContext)) (c : ℕ) (read_only : Bool) (done : List (ℕ × ℕ))
      (a : Outcome ℕ × r.World)
      → ((b : Bool) (d : List (ℕ × ℕ)) (w : r.World)
          → points_in registered d ≡ true
          → points_in registered (remote_prepare_commit r xid rest b d w).1 ≡ true)
      → contains c registered ≡ true
      → points_in registered done ≡ true
      → points_in registered (prepared r (remote_prepare_commit r xid rest) c read_only done a).1
        ≡ true
  unfolding prepared
  prepared-points_in rest c b done (ok ret, w) ih h d = elim (Bool-cases (ret == xa_ok)) [
    | inl writes ↦ rw writes (ih false (insert c c done) w (points_in-insert registered c done h d))
    | inr more ↦ elim (Bool-cases (ret == xa_rdonly)) [
      | inl reads ↦ rw (more, reads) (ih b done w d)
      | inr refused ↦ rw (more, refused) (points_in-insert registered c done h d)
    ]
  ]
  prepared-points_in rest c b done (throws e, w) ih h d = d
  prepared-points_in rest c b done (fault, w) ih h d = d

  remote_prepare_commit-points_in :
      (rest : List (ℕ × TransactionContext)) (b : Bool) (done : List (ℕ × ℕ)) (w : r.World)
      → all_in registered rest ≡ true
      → points_in registered done ≡ true
      → points_in registered (remote_prepare_commit r xid rest b done w).1 ≡ true
  unfolding remote_prepare_commit
  remote_prepare_commit-points_in [] b done w h d = d
  remote_prepare_commit-points_in ((c, ctx) ∷ rest) b done w h d =
      prepared-points_in rest c b done (r.prepare_commit c xid ctx w)
        (λ b' d' w' k. remote_prepare_commit-points_in rest b' d' w' (ground arith) k)
        (ground arith) d

  rolled_back-defined :
      (rest : List (ℕ × ℕ)) (t : Tally) (a : Outcome ℕ × r.World)
      → ((u : Tally) (w : r.World) → (remote_rollback r xid registered rest u w).0 ≢ fault)
      → a.0 ≢ fault
      → (rolled_back r (remote_rollback r xid registered rest) t a).0 ≢ fault
  unfolding rolled_back
  rolled_back-defined rest t (ok ret, w) ih h = ih (count_rollback t ret) w
  rolled_back-defined rest t (throws e, w) ih h = λ f. cc
  rolled_back-defined rest t (fault, w) ih h = absurd (h refl)

  judge-defined : (t : Tally) → judge_rollback t ≢ fault
  unfolding judge_rollback
  judge-defined t = λ f. ground (arith, f)

  remote_rollback-defined :
      (done : List (ℕ × ℕ)) (t : Tally) (w : r.World)
      → ((c : ℕ) (ctx : TransactionContext) (v : r.World) → (r.rollback c xid ctx v).0 ≢ fault)
      → points_in registered done ≡ true
      → (remote_rollback r xid registered done t w).0 ≢ fault
  unfolding remote_rollback
  remote_rollback-defined [] t w safe d = judge-defined t
  remote_rollback-defined ((c, p) ∷ rest) t w safe d =
      let (ctx, e) = contains-lookup p registered (ground arith) in
      rw (e, remote_rollback)
        (rolled_back-defined rest t _ (λ u v. remote_rollback-defined rest u v safe (ground arith))
          (safe c ctx w))

  -- A roll back after the first phase, however that ended, follows no pointer to a context that is not
  -- registered: where the calls to the caches are defined, so is the roll back.
  remote_rollback-prepared :
      (w v : r.World)
      → ((c : ℕ) (ctx : TransactionContext) (u : r.World) → (r.rollback c xid ctx u).0 ≢ fault)
      → (remote_rollback r xid registered
          (remote_prepare_commit r xid registered true [] w).1
          no_answers
          v).0
        ≢ fault
  remote_rollback-prepared w v safe =
      remote_rollback-defined _ no_answers v safe
        (remote_prepare_commit-points_in registered true [] w (all_in_itself registered) refl)
