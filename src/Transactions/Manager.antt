-- ===== src/Transactions/Manager.antt =====
-- TransactionManager of api/TransactionManager.cpp, with Transaction and SynchronizationAdapter of
-- include/infinispan/hotrod/Transactions.h: begin, commit and rollback of the calling thread.
use cpp_client.Prelude.{ℕ, Bool, true, false, List, [], ◌∷◌, none, some, ◌==◌, if◌then◌else◌}
use cpp_client.Prelude.Maps.{lookup, insert, erase, nat_key}
use cpp_client.Exceptions.{
  Exception, Outcome, ok, throws, fault, tx_state, rollback, tx_remote_state, is_client_exception,
}
use cpp_client.Transactions.Context.{TransactionContext, new_context, free_all}
use cpp_client.Transactions.Remote.{
  Xid, SynchronizationAdapter, Caches, no_answers, remote_prepare_commit, remote_commit,
  remote_rollback, Prepared, xa_ok, xa_rbrollback,
}

pub data TransactionStatus : Type 0 where
  active : TransactionStatus
  marked_rollback : TransactionStatus
  prepared : TransactionStatus
  committed : TransactionStatus
  rolledback : TransactionStatus
  unknown : TransactionStatus
  no_transaction : TransactionStatus
  preparing : TransactionStatus
  committing : TransactionStatus
  rolling_back : TransactionStatus

pub record Transaction : Type 0 where
  pub status : TransactionStatus
  pub xid : Xid
  pub sa : SynchronizationAdapter

unfoldable pub can_begin : TransactionStatus → Bool
can_begin no_transaction = true
can_begin committed = true
can_begin _ = false

unfoldable pub can_commit : TransactionStatus → Bool
can_commit active = true
can_commit _ = false

unfoldable pub can_rollback : TransactionStatus → Bool
can_rollback active = true
can_rollback _ = false

unfoldable pub needs_rollback : TransactionStatus → Bool
needs_rollback marked_rollback = true
needs_rollback _ = false

-- The contexts of the caches are cleared one after another.
unfoldable pub clear_contexts : List (ℕ × TransactionContext) → List ℕ → List ℕ
clear_contexts [] freed = freed
clear_contexts ((c, ctx) ∷ rest) freed = clear_contexts rest (free_all ctx.context freed)

-- The code that commit throws with after a roll back.
unfoldable pub rollback_code : Exception → ℕ
rollback_code (tx_remote_state code) = code
rollback_code _ = xa_rbrollback

unfoldable pub with_prepared : List (ℕ × ℕ) → Transaction → Transaction
with_prepared done t = record t { sa = record t.sa { prepared_cache = done } }

-- getTransactionContext: the context registered for a cache, or a new one.
unfoldable pub get_transaction_context :
    ℕ → SynchronizationAdapter → TransactionContext × SynchronizationAdapter
get_transaction_context c sa = elim (lookup c sa.registered_cache) [
  | some ctx ↦ (ctx, sa)
  | none ↦ (new_context, record sa { registered_cache = insert c new_context sa.registered_cache })
]

module _ (r : Caches) where
  -- The transactions by their threads, the values freed, and the caches.
  pub record State : Type 0 where
    pub current_transactions : List (ℕ × Transaction)
    pub freed : List ℕ
    pub world : r.World

  unfoldable pub get_current_transaction : ℕ → State → Transaction × State
  get_current_transaction tid s = elim (lookup tid s.current_transactions) [
    | some t ↦ (t, s)
    | none ↦
        let (xid, w) = r.new_xid s.world in
        let t : Transaction = record {
          status = no_transaction;
          xid = xid;
          sa = record { registered_cache = []; prepared_cache = [] };
        } in
        (t, record s { current_transactions = insert tid t s.current_transactions; world = w })
  ]

  unfoldable pub store : ℕ → Transaction → r.World → State → State
  store tid t w s = record s {
    current_transactions = insert tid t s.current_transactions;
    world = w;
  }

  -- `sa.clear()` and cleanUpCurrentTransaction.
  unfoldable pub clean_up : ℕ → Transaction → r.World → State → State
  unfolding clear_contexts
  clean_up tid t w s = record {
    current_transactions = erase tid s.current_transactions;
    freed = clear_contexts t.sa.registered_cache s.freed;
    world = w;
  }

  unfoldable pub begin : ℕ → State → Outcome (Unit {0}) × State
  unfolding get_current_transaction store can_begin
  begin tid s =
      let (t, s') = get_current_transaction tid s in
      if can_begin t.status
      then (ok tt, store tid (record t { status = active }) s'.world s')
      else (throws tx_state, s')

  abbrev pub roll_back : Transaction → r.World → Outcome (Unit {0}) × r.World
  roll_back t w = remote_rollback r t.xid t.sa.registered_cache t.sa.prepared_cache no_answers w

  -- A roll back inside commit: what it throws leaves commit at once.
  unfoldable pub after_failure :
      ℕ → Transaction → ℕ → Outcome (Unit {0}) × r.World → State → Outcome (Unit {0}) × State
  unfolding clean_up store
  after_failure tid t code (ok _, w) s = (throws (rollback code), clean_up tid t w s)
  after_failure tid t code (throws e, w) s = (throws e, store tid t w s)
  after_failure tid t code (fault, w) s = (fault, store tid t w s)

  -- The two handlers of commit.
  unfoldable pub failed_commit :
      ℕ → Transaction → Exception → r.World → State → Outcome (Unit {0}) × State
  unfolding after_failure store is_client_exception rollback_code
  failed_commit tid t e w s =
      if is_client_exception e
      then after_failure tid t (rollback_code e) (roll_back t w) s
      else (throws e, store tid t w s)

  unfoldable pub after_commit :
      ℕ → Transaction → Outcome (Unit {0}) × r.World → State → Outcome (Unit {0}) × State
  unfolding clean_up failed_commit store
  after_commit tid t (ok _, w) s = (ok tt, clean_up tid t w s)
  after_commit tid t (throws e, w) s = failed_commit tid t e w s
  after_commit tid t (fault, w) s = (fault, store tid t w s)

  unfoldable pub after_prepare : ℕ → Transaction → Prepared r → State → Outcome (Unit {0}) × State
  unfolding clean_up failed_commit store after_commit with_prepared
  after_prepare tid t (ok ret, done, w) s =
      let t' = with_prepared done t in
      if ret == xa_ok
      then after_commit tid t' (remote_commit r t.xid t.sa.registered_cache no_answers w) s
      else (ok tt, clean_up tid t' w s)
  after_prepare tid t (throws e, done, w) s = failed_commit tid (with_prepared done t) e w s
  after_prepare tid t (fault, done, w) s = (fault, store tid (with_prepared done t) w s)

  unfoldable pub commit_transaction : ℕ → Transaction → State → Outcome (Unit {0}) × State
  unfolding after_prepare after_failure can_commit needs_rollback
  commit_transaction tid t s =
      if can_commit t.status
      then (if needs_rollback t.status
          then after_failure tid t xa_rbrollback (roll_back t s.world) s
          else after_prepare tid t
              (remote_prepare_commit r t.xid t.sa.registered_cache true t.sa.prepared_cache s.world)
              s)
      else (throws tx_state, s)

  unfoldable pub commit : ℕ → State → Outcome (Unit {0}) × State
  unfolding get_current_transaction commit_transaction
  commit tid s = let (t, s') = get_current_transaction tid s in commit_transaction tid t s'

  unfoldable pub after_rollback :
      ℕ → Transaction → Outcome (Unit {0}) × r.World → State → Outcome (Unit {0}) × State
  unfolding clean_up store
  after_rollback tid t (ok _, w) s = (ok tt, clean_up tid t w s)
  after_rollback tid t (throws e, w) s = (throws e, store tid t w s)
  after_rollback tid t (fault, w) s = (fault, store tid t w s)

  unfoldable pub rollback_transaction : ℕ → Transaction → State → Outcome (Unit {0}) × State
  unfolding after_rollback can_rollback
  rollback_transaction tid t s =
      if can_rollback t.status
      then after_rollback tid t (roll_back t s.world) s
      else (throws tx_state, s)

  unfoldable pub rollback_current : ℕ → State → Outcome (Unit {0}) × State
  unfolding get_current_transaction rollback_transaction
  rollback_current tid s =
      let (t, s') = get_current_transaction tid s in rollback_transaction tid t s'
