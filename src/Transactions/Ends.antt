-- ===== src/Transactions/Ends.antt =====
-- How commit ends for the thread that calls it.
use cpp_client.Prelude.{
  Bool-cases, ℕ, ◌≡◌, inl, inr, ap, List, refl, true, false, none, some, ◌==◌, arith,
}
use cpp_client.Prelude.Maps.{lookup, nat_key, lookup-insert, lookup-erase}
use cpp_client.Exceptions.{Exception, Outcome, ok, throws, fault, rollback, is_client_exception}
use cpp_client.Transactions.Remote.{
  Caches, remote_prepare_commit, remote_commit, no_answers, Prepared, xa_ok,
}
use cpp_client.Transactions.Manager.{
  active, Transaction, State, can_commit, needs_rollback, rollback_code, get_current_transaction,
  store, clean_up, roll_back, after_failure, failed_commit, after_commit, with_prepared,
  after_prepare, commit_transaction, commit,
}

module _ (r : Caches) (tid : ℕ) where
  -- The first and the second phase at the servers.
  abbrev pub prepare : Transaction → r.World → Prepared r
  prepare t w = remote_prepare_commit r t.xid t.sa.registered_cache true t.sa.prepared_cache w

  abbrev pub complete : Transaction → r.World → Outcome (Unit {0}) × r.World
  complete t w = remote_commit r t.xid t.sa.registered_cache no_answers w

  -- One of the two phases threw this exception, after these caches were prepared.
  pub data Failed (t : Transaction) (w : r.World)
      : Exception → List (ℕ × ℕ) → r.World → Type 0 where
    in_prepare :
        (e : Exception) (done : List (ℕ × ℕ)) (u : r.World)
        → prepare t w ≡ (throws e, done, u)
        → Failed t w e done u
    in_commit :
        (e : Exception) (ret : ℕ) (done : List (ℕ × ℕ)) (u v : r.World)
        → prepare t w ≡ (ok ret, done, u)
        → (ret == xa_ok) ≡ true
        → complete t u ≡ (throws e, v)
        → Failed t w e done v

  -- The ways in which commit of an active transaction ends, by what the servers answered.
  pub data CommitEnds (t : Transaction) (w : r.World) : Outcome (Unit {0}) × State r → Type 0 where
    unwritten :
        {s : State r} (ret : ℕ) (done : List (ℕ × ℕ)) (u : r.World)
        → prepare t w ≡ (ok ret, done, u)
        → (ret == xa_ok) ≡ false
        → lookup tid s.current_transactions ≡ none
        → CommitEnds t w (ok tt, s)
    well :
        {s : State r} (ret : ℕ) (done : List (ℕ × ℕ)) (u v : r.World)
        → prepare t w ≡ (ok ret, done, u)
        → (ret == xa_ok) ≡ true
        → complete t u ≡ (ok tt, v)
        → lookup tid s.current_transactions ≡ none
        → CommitEnds t w (ok tt, s)
    undone :
        {s : State r} (e : Exception) (done : List (ℕ × ℕ)) (u v : r.World)
        → Failed t w e done u
        → is_client_exception e ≡ true
        → roll_back r (with_prepared done t) u ≡ (ok tt, v)
        → lookup tid s.current_transactions ≡ none
        → CommitEnds t w (throws (rollback (rollback_code e)), s)
    stuck :
        {s : State r} (e x : Exception) (done : List (ℕ × ℕ)) (u v : r.World)
        → Failed t w e done u
        → is_client_exception e ≡ true
        → roll_back r (with_prepared done t) u ≡ (throws x, v)
        → lookup tid s.current_transactions ≡ some (with_prepared done t)
        → (with_prepared done t).status ≡ active
        → CommitEnds t w (throws x, s)
    passed :
        {s : State r} (e : Exception) (done : List (ℕ × ℕ)) (u : r.World)
        → Failed t w e done u
        → is_client_exception e ≡ false
        → lookup tid s.current_transactions ≡ some (with_prepared done t)
        → (with_prepared done t).status ≡ active
        → CommitEnds t w (throws e, s)
    undefined_prepare : {s : State r} → (prepare t w).0 ≡ fault → CommitEnds t w (fault, s)
    undefined_commit :
        {s : State r} (ret : ℕ) (done : List (ℕ × ℕ)) (u : r.World)
        → prepare t w ≡ (ok ret, done, u)
        → (complete t u).0 ≡ fault
        → CommitEnds t w (fault, s)
    undefined_roll_back :
        {s : State r} (e : Exception) (done : List (ℕ × ℕ)) (u : r.World)
        → Failed t w e done u
        → (roll_back r (with_prepared done t) u).0 ≡ fault
        → CommitEnds t w (fault, s)

  gone :
      (t : Transaction) (w : r.World) (s : State r)
      → lookup tid (clean_up r tid t w s).current_transactions ≡ none
  unfolding clean_up
  gone t w s = ground (arith, lookup-erase tid tid s.current_transactions)

  stored :
      (t : Transaction) (w : r.World) (s : State r)
      → lookup tid (store r tid t w s).current_transactions ≡ some t
  unfolding store
  stored t w s = ground (arith, lookup-insert tid tid t s.current_transactions)

  still_active :
      (done : List (ℕ × ℕ)) (t : Transaction)
      → t.status ≡ active
      → (with_prepared done t).status ≡ active
  unfolding with_prepared
  still_active done t h = h

  after_failure-CommitEnds :
      (t : Transaction) (w : r.World) (e : Exception) (done : List (ℕ × ℕ)) (u : r.World)
      (a : Outcome (Unit {0}) × r.World) (s : State r)
      → Failed t w e done u
      → is_client_exception e ≡ true
      → roll_back r (with_prepared done t) u ≡ a
      → t.status ≡ active
      → CommitEnds t w (after_failure r tid (with_prepared done t) (rollback_code e) a s)
  unfolding after_failure
  after_failure-CommitEnds t w e done u (ok tt, v) s f c b h =
      undone e done u v f c b (gone (with_prepared done t) v s)
  after_failure-CommitEnds t w e done u (throws x, v) s f c b h =
      stuck e x done u v f c b (stored (with_prepared done t) v s) (still_active done t h)
  after_failure-CommitEnds t w e done u (fault, v) s f c b h =
      undefined_roll_back e done u f (ap (λ x. x.0) b)

  failed_commit-CommitEnds :
      (t : Transaction) (w : r.World) (e : Exception) (done : List (ℕ × ℕ)) (u : r.World)
      (s : State r)
      → Failed t w e done u
      → t.status ≡ active
      → CommitEnds t w (failed_commit r tid (with_prepared done t) e u s)
  unfolding failed_commit
  failed_commit-CommitEnds t w e done u s f h = elim (Bool-cases (is_client_exception e)) [
    | inl caught ↦ rw caught (
        after_failure-CommitEnds t w e done u (roll_back r (with_prepared done t) u) s f caught refl
          h)
    | inr thrown ↦
        rw thrown
          (passed e done u f thrown (stored (with_prepared done t) u s) (still_active done t h))
  ]

  after_commit-CommitEnds :
      (t : Transaction) (w : r.World) (ret : ℕ) (done : List (ℕ × ℕ)) (u : r.World)
      (a : Outcome (Unit {0}) × r.World) (s : State r)
      → prepare t w ≡ (ok ret, done, u)
      → (ret == xa_ok) ≡ true
      → complete t u ≡ a
      → t.status ≡ active
      → CommitEnds t w (after_commit r tid (with_prepared done t) a s)
  unfolding after_commit
  after_commit-CommitEnds t w ret done u (ok tt, v) s p x c h =
      well ret done u v p x c (gone (with_prepared done t) v s)
  after_commit-CommitEnds t w ret done u (throws e, v) s p x c h =
      failed_commit-CommitEnds t w e done v s (in_commit e ret done u v p x c) h
  after_commit-CommitEnds t w ret done u (fault, v) s p x c h =
      undefined_commit ret done u p (ap (λ y. y.0) c)

  after_prepare-CommitEnds :
      (t : Transaction) (w : r.World) (a : Prepared r) (s : State r)
      → prepare t w ≡ a
      → t.status ≡ active
      → CommitEnds t w (after_prepare r tid t a s)
  unfolding after_prepare
  after_prepare-CommitEnds t w (ok ret, done, u) s p h = elim (Bool-cases (ret == xa_ok)) [
    | inl writes ↦
        rw writes (after_commit-CommitEnds t w ret done u (complete t u) s p writes refl h)
    | inr reads ↦ rw reads (unwritten ret done u p reads (gone (with_prepared done t) u s))
  ]
  after_prepare-CommitEnds t w (throws e, done, u) s p h =
      failed_commit-CommitEnds t w e done u s (in_prepare e done u p) h
  after_prepare-CommitEnds t w (fault, done, u) s p h = undefined_prepare (ap (λ y. y.0) p)

  found :
      (s : State r) (t : Transaction)
      → lookup tid s.current_transactions ≡ some t
      → get_current_transaction r tid s ≡ (t, s)
  unfolding get_current_transaction
  found s t e = rw (e, get_current_transaction) refl

  commit_transaction-CommitEnds :
      (s : State r) (t : Transaction)
      → t.status ≡ active
      → CommitEnds t s.world (commit_transaction r tid t s)
  unfolding commit_transaction can_commit needs_rollback
  commit_transaction-CommitEnds s t h =
      let may : can_commit t.status ≡ true = rw h refl in
      let clean : needs_rollback t.status ≡ false = rw h refl in
      rw (may, clean, commit_transaction)
        (after_prepare-CommitEnds t s.world (prepare t s.world) s refl h)

  -- Commit of a thread whose transaction is active prepares it at the servers. It answers well, with
  -- the thread's transaction gone, only if the prepare is answered with another code than XA_OK, as it
  -- is when nothing was written, or if it is answered with XA_OK and the commit at the servers answers
  -- well. If the prepare or the commit throws a client exception, the transaction is rolled back: if
  -- that answers well, the transaction is gone and the rollback exception of that exception is thrown;
  -- if it throws, commit throws what it threw, and the transaction is as active as before. Any other
  -- exception of the prepare or the commit is thrown without a roll back, and the transaction stays as
  -- active. Commit is undefined only if one of the three calls is.
  pub commit-CommitEnds :
      (s : State r) (t : Transaction)
      → lookup tid s.current_transactions ≡ some t
      → t.status ≡ active
      → CommitEnds t s.world (commit r tid s)
  unfolding commit
  commit-CommitEnds s t e h = rw (found s t e, commit) (commit_transaction-CommitEnds s t h)
