-- ===== src/Transactions/Threads.antt =====
-- Begin, commit and rollback touch no transaction but that of the calling thread.
use cpp_client.Prelude.{
  ◌∙◌, Option-cases, Bool-cases, ℕ, ◌≡◌, inl, inr, refl, true, false, List, Option, ◌==◌, arith,
}
use cpp_client.Prelude.Maps.{lookup, insert, nat_key, lookup-insert, lookup-erase}
use cpp_client.Exceptions.{Exception, Outcome, ok, throws, fault, is_client_exception}
use cpp_client.Transactions.Remote.{Caches, remote_prepare_commit, Prepared, xa_ok, xa_rbrollback}
use cpp_client.Transactions.Manager.{
  Transaction, State, can_begin, can_commit, can_rollback, needs_rollback, rollback_code,
  get_current_transaction, store, clean_up, begin, roll_back, after_failure, failed_commit,
  after_commit, with_prepared, after_prepare, commit_transaction, commit, after_rollback,
  rollback_transaction, rollback_current,
}

module _ (r : Caches) (tid j : ℕ) (other : (tid == j) ≡ false) where
  abbrev theirs : State r → Option Transaction
  theirs s = lookup j s.current_transactions

  insert-theirs :
      (t : Transaction) (m : List (ℕ × Transaction)) → lookup j (insert tid t m) ≡ lookup j m
  insert-theirs t m = ground (arith, lookup-insert tid j t m, other)

  store-theirs :
      (t : Transaction) (w : r.World) (s : State r) → theirs (store r tid t w s) ≡ theirs s
  unfolding store
  store-theirs t w s = ground (arith, lookup-insert tid j t s.current_transactions, other)

  clean_up-theirs :
      (t : Transaction) (w : r.World) (s : State r) → theirs (clean_up r tid t w s) ≡ theirs s
  unfolding clean_up
  clean_up-theirs t w s = ground (arith, lookup-erase tid j s.current_transactions, other)

  current-theirs : (s : State r) → theirs (get_current_transaction r tid s).1 ≡ theirs s
  unfolding get_current_transaction
  current-theirs s = elim (Option-cases (lookup tid s.current_transactions)) [
    | inl none_yet ↦ rw (none_yet, get_current_transaction) (insert-theirs _ s.current_transactions)
    | inr (t, there) ↦ rw (there, get_current_transaction) refl
  ]

  after_failure-theirs :
      (t : Transaction) (code : ℕ) (a : Outcome (Unit {0}) × r.World) (s : State r)
      → theirs (after_failure r tid t code a s).1 ≡ theirs s
  unfolding after_failure
  after_failure-theirs t code (ok _, w) s = clean_up-theirs t w s
  after_failure-theirs t code (throws e, w) s = store-theirs t w s
  after_failure-theirs t code (fault, w) s = store-theirs t w s

  failed_commit-theirs :
      (t : Transaction) (e : Exception) (w : r.World) (s : State r)
      → theirs (failed_commit r tid t e w s).1 ≡ theirs s
  unfolding failed_commit
  failed_commit-theirs t e w s = elim (Bool-cases (is_client_exception e)) [
    | inl caught ↦ rw caught (after_failure-theirs t (rollback_code e) (roll_back r t w) s)
    | inr passed ↦ rw passed (store-theirs t w s)
  ]

  after_commit-theirs :
      (t : Transaction) (a : Outcome (Unit {0}) × r.World) (s : State r)
      → theirs (after_commit r tid t a s).1 ≡ theirs s
  unfolding after_commit
  after_commit-theirs t (ok _, w) s = clean_up-theirs t w s
  after_commit-theirs t (throws e, w) s = failed_commit-theirs t e w s
  after_commit-theirs t (fault, w) s = store-theirs t w s

  after_prepare-theirs :
      (t : Transaction) (a : Prepared r) (s : State r)
      → theirs (after_prepare r tid t a s).1 ≡ theirs s
  unfolding after_prepare
  after_prepare-theirs t (ok ret, done, w) s = elim (Bool-cases (ret == xa_ok)) [
    | inl writes ↦ rw writes (after_commit-theirs (with_prepared done t) _ s)
    | inr reads ↦ rw reads (clean_up-theirs (with_prepared done t) w s)
  ]
  after_prepare-theirs t (throws e, done, w) s = failed_commit-theirs (with_prepared done t) e w s
  after_prepare-theirs t (fault, done, w) s = store-theirs (with_prepared done t) w s

  commit_transaction-theirs :
      (t : Transaction) (s : State r) → theirs (commit_transaction r tid t s).1 ≡ theirs s
  unfolding commit_transaction
  commit_transaction-theirs t s = elim (Bool-cases (can_commit t.status)) [
    | inr illegal ↦ rw illegal refl
    | inl may ↦ elim (Bool-cases (needs_rollback t.status)) [
      | inl marked ↦
          rw (may, marked) (after_failure-theirs t xa_rbrollback (roll_back r t s.world) s)
      | inr clean ↦
          rw (may, clean)
            (after_prepare-theirs t
              (remote_prepare_commit r t.xid t.sa.registered_cache true t.sa.prepared_cache s.world)
              s)
    ]
  ]

  after_rollback-theirs :
      (t : Transaction) (a : Outcome (Unit {0}) × r.World) (s : State r)
      → theirs (after_rollback r tid t a s).1 ≡ theirs s
  unfolding after_rollback
  after_rollback-theirs t (ok _, w) s = clean_up-theirs t w s
  after_rollback-theirs t (throws e, w) s = store-theirs t w s
  after_rollback-theirs t (fault, w) s = store-theirs t w s

  rollback_transaction-theirs :
      (t : Transaction) (s : State r) → theirs (rollback_transaction r tid t s).1 ≡ theirs s
  unfolding rollback_transaction
  rollback_transaction-theirs t s = elim (Bool-cases (can_rollback t.status)) [
    | inr illegal ↦ rw illegal refl
    | inl may ↦ rw may (after_rollback-theirs t (roll_back r t s.world) s)
  ]

  begin-theirs : (s : State r) → theirs (begin r tid s).1 ≡ theirs s
  unfolding begin
  begin-theirs s = elim (Bool-cases (can_begin (get_current_transaction r tid s).0.status)) [
    | inl may ↦ rw may (
        insert-theirs _ (get_current_transaction r tid s).1.current_transactions ∙ current-theirs s)
    | inr illegal ↦ rw illegal (current-theirs s)
  ]

  -- Begin, commit and rollback of one thread leave the transaction of every other thread as it is,
  -- whatever the caches answer.
  lookup-others :
      (s : State r)
      → (lookup j (begin r tid s).1.current_transactions ≡ lookup j s.current_transactions)
        × (lookup j (commit r tid s).1.current_transactions ≡ lookup j s.current_transactions)
        × (lookup j (rollback_current r tid s).1.current_transactions
            ≡ lookup j s.current_transactions)
  unfolding commit rollback_current
  lookup-others s =
      let (t, s') = get_current_transaction r tid s in
      (
        begin-theirs s,
        commit_transaction-theirs t s' ∙ current-theirs s,
        rollback_transaction-theirs t s' ∙ current-theirs s,
      )
