-- ===== src/Transactions/Cache.antt =====
-- The operations of a cache inside a transaction (api/RemoteCacheBase.cpp). The transaction is the one
-- that the call was given, or that of the thread.
use cpp_client.Prelude.{
  ℕ, Bool, true, false, ◌&&◌, List, [], ◌∷◌, Option, none, some, if◌then◌else◌,
}
use cpp_client.Prelude.Words.{u32}
use cpp_client.Prelude.Maps.{insert, nat_key}
use cpp_client.Exceptions.{Outcome, ok, throws, tx_state, Run, ◌>>=◌, return}
use cpp_client.Transactions.Context.{
  TransactionContext, MetadataValue, no_metadata, has_value, get_value, set_value, add_value,
  set_value_as_deleted,
}
use cpp_client.Transactions.Manager.{
  Transaction, TransactionStatus, active, marked_rollback, committed, rolledback, no_transaction,
  get_transaction_context,
}

unfoldable pub accept_rw : TransactionStatus → Bool
accept_rw active = true
accept_rw marked_rollback = true
accept_rw _ = false

unfoldable pub accept_read : TransactionStatus → Bool
accept_read committed = false
accept_read rolledback = false
accept_read _ = true

unfoldable pub is_in_transaction : TransactionStatus → Bool
is_in_transaction no_transaction = false
is_in_transaction _ = true

-- TransactionContext::ControlBit
abbrev pub not_read : ℕ
not_read = 1

abbrev pub non_existing : ℕ
non_existing = 2

-- RemoteCacheImpl, the key marshaller, and the functions for values. A pointer names an object.
pub record CacheImpl : Type 1 where
  pub World : Type 0
  pub Key : Type 0
  pub base_key_marshall : Key → List ℕ
  pub value_copy_constructor : ℕ → World → ℕ × World
  pub value_destructor : ℕ → World → World
  pub get : Key → World → Outcome (Option ℕ) × World
  pub get_with_metadata : Key → World → Outcome (Option ℕ × MetadataValue) × World
  pub put : Key → ℕ → ℕ → ℕ → World → Outcome (Option ℕ) × World
  pub put_if_absent : Key → ℕ → ℕ → ℕ → World → Outcome (Option ℕ) × World
  pub replace : Key → ℕ → ℕ → ℕ → World → Outcome (Option ℕ) × World
  pub remove : Key → World → Outcome (Option ℕ) × World
  pub contains_key : Key → World → Outcome Bool × World
  pub replace_with_version : Key → ℕ → ℕ → ℕ → ℕ → World → Outcome Bool × World
  pub remove_with_version : Key → ℕ → World → Outcome Bool × World

-- RemoteCacheBase: `self` is the address of the object, under which its context is registered.
pub record RemoteCacheBase : Type 0 where
  pub self : ℕ
  pub transactional : Bool
  pub force_return_value : Bool

module _ (r : CacheImpl) (c : RemoteCacheBase) where
  pub record State : Type 0 where
    pub transaction : Transaction
    pub world : r.World

  unfoldable pub context : State → TransactionContext
  unfolding get_transaction_context
  context s = (get_transaction_context c.self s.transaction.sa).0

  unfoldable pub with_context : TransactionContext → State → State
  with_context tc s = record s {
    transaction = record s.transaction {
      sa = record s.transaction.sa {
        registered_cache = insert c.self tc s.transaction.sa.registered_cache;
      };
    };
  }

  unfoldable pub in_world : {A : Type 0} → (r.World → Outcome A × r.World) → Run State A
  in_world m s = let (a, w) = m s.world in (a, record s { world = w })

  -- A part of an operation on the context of the cache.
  unfoldable pub on_context :
      {A : Type 0} → (TransactionContext → A × TransactionContext) → Run State A
  unfolding context with_context
  on_context m s = let (a, tc) = m (context s) in (ok a, with_context tc s)

  unfoldable pub copy_value : Option ℕ → Run State (Option ℕ)
  copy_value none s = (ok none, s)
  copy_value (some p) s =
      let (q, w) = r.value_copy_constructor p s.world in (ok (some q), record s { world = w })

  -- A value that the context has not is added to it.
  unfoldable pub add_remote : List ℕ → Option ℕ × MetadataValue → Run State (Option ℕ)
  unfolding on_context add_value get_value
  add_remote k (p, meta) =
      on_context
        λ tc. get_value k (add_value k p meta true (elim p [ none ↦ non_existing | some q ↦ 0 ]) tc)

  unfoldable pub read_value : r.Key → Run State (Option ℕ)
  unfolding on_context add_remote in_world has_value get_value
  read_value key s =
      let k = r.base_key_marshall key in
      if has_value k (context s)
      then on_context (get_value k) s
      else (on_context (λ tc. (tt, tc))
            >>= (λ _. in_world (r.get_with_metadata key))
            >>= add_remote k)
          s

  unfoldable pub transactional_base_get : r.Key → Run State (Option ℕ)
  unfolding accept_read read_value copy_value
  transactional_base_get key s =
      if accept_read s.transaction.status
      then (read_value key >>= copy_value) s
      else (throws tx_state, s)

  abbrev pub expiring : ℕ → ℕ → MetadataValue
  expiring life idle = record no_metadata { lifespan = u32 life; max_idle = u32 idle }

  unfoldable pub write_value : List ℕ → ℕ → MetadataValue → TransactionContext → TransactionContext
  unfolding has_value set_value add_value
  write_value k p meta tc =
      if has_value k tc
      then set_value k (some p) meta true tc
      else add_value k (some p) meta true not_read tc

  unfoldable pub put_copy : r.Key → ℕ → ℕ → ℕ → Option ℕ → Run State (Option ℕ)
  unfolding on_context write_value
  put_copy key p life idle ret s =
      let (q, w) = r.value_copy_constructor p s.world in
      on_context (λ tc. (ret, write_value (r.base_key_marshall key) q (expiring life idle) tc))
        (record s { world = w })

  unfoldable pub previous : Bool → r.Key → Run State (Option ℕ)
  unfolding transactional_base_get
  previous true key s = transactional_base_get key s
  previous false key s = (ok none, s)

  unfoldable pub transactional_base_put : r.Key → ℕ → ℕ → ℕ → Bool → Run State (Option ℕ)
  unfolding accept_rw previous put_copy
  transactional_base_put key p life idle force s =
      if accept_rw s.transaction.status
      then (previous force key >>= put_copy key p life idle) s
      else (throws tx_state, s)

  -- Inside a transaction the one, outside of it the other.
  unfoldable pub choose : {A : Type 0} → Run State A → (r.World → Outcome A × r.World) → Run State A
  unfolding is_in_transaction in_world
  choose inside outside s =
      if c.transactional && is_in_transaction s.transaction.status
      then inside s
      else in_world outside s

  unfoldable pub guarded : {A : Type 0} → Run State A → Run State A
  unfolding accept_rw
  guarded m s = if accept_rw s.transaction.status then m s else (throws tx_state, s)

  unfoldable pub base_get : r.Key → Run State (Option ℕ)
  unfolding choose transactional_base_get
  base_get key = choose (transactional_base_get key) (r.get key)

  unfoldable pub base_put : r.Key → ℕ → ℕ → ℕ → Run State (Option ℕ)
  unfolding choose transactional_base_put
  base_put key p life idle =
      choose (transactional_base_put key p life idle c.force_return_value) (r.put key p life idle)

  unfoldable pub base_put_all : List (r.Key × ℕ) → ℕ → ℕ → Run State (Unit {0})
  unfolding base_put
  base_put_all [] life idle = return tt
  base_put_all ((key, p) ∷ m) life idle = base_put key p life idle >>= λ _. base_put_all m life idle

  unfoldable pub put_absent : r.Key → ℕ → ℕ → ℕ → Option ℕ → Run State (Option ℕ)
  unfolding transactional_base_put
  put_absent key p life idle none =
      transactional_base_put key p life idle false >>= λ _. return none
  put_absent key p life idle (some old) = return none

  unfoldable pub base_put_if_absent : r.Key → ℕ → ℕ → ℕ → Run State (Option ℕ)
  unfolding choose transactional_base_get put_absent
  base_put_if_absent key p life idle =
      choose (transactional_base_get key >>= put_absent key p life idle)
        (r.put_if_absent key p life idle)

  -- The old value goes to the caller or is destroyed.
  unfoldable pub hand_over : ℕ → Run State (Option ℕ)
  hand_over old s =
      if c.force_return_value
      then (ok (some old), s)
      else (ok none, record s { world = r.value_destructor old s.world })

  -- The pointer of the caller goes to the context.
  unfoldable pub replace_value : r.Key → ℕ → ℕ → ℕ → Option ℕ → Run State (Option ℕ)
  unfolding on_context set_value hand_over
  replace_value key p life idle none = return none
  replace_value key p life idle (some old) =
      on_context
        (λ tc. (tt, set_value (r.base_key_marshall key) (some p) (expiring life idle) true tc))
      >>= λ _. hand_over old

  unfoldable pub base_replace : r.Key → ℕ → ℕ → ℕ → Run State (Option ℕ)
  unfolding choose guarded transactional_base_get replace_value
  base_replace key p life idle =
      choose (guarded (transactional_base_get key >>= replace_value key p life idle))
        (r.replace key p life idle)

  unfoldable pub delete_value : r.Key → Option ℕ → Run State (Option ℕ)
  unfolding on_context set_value_as_deleted
  delete_value key ret = on_context λ tc. (ret, set_value_as_deleted (r.base_key_marshall key) tc)

  unfoldable pub base_remove : r.Key → Run State (Option ℕ)
  unfolding choose guarded previous delete_value
  base_remove key =
      choose (guarded (previous c.force_return_value key >>= delete_value key)) (r.remove key)
