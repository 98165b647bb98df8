-- ===== src/Transactions/Hidden.antt =====
-- containsKey inside a transaction, and what it leaves in the context.
use cpp_client.Prelude.{
  ◌||◌, ℕ, ◌≡◌, refl, ◌∙◌, ap, Bool, true, false, List, none, if◌then◌else◌, arith,
}
use cpp_client.Prelude.Maps.{
  lookup-inserted, contains, insert, bytes_key, bytes_same_iff, contains-insert, contains-lookup,
}
use cpp_client.Exceptions.{ok, throws, tx_state, ◌>>=◌, then_run}
use cpp_client.Transactions.Context.{new_entry, TransactionContext, has_value, get_value, entry_at}
use cpp_client.Transactions.Entries.{seen}
use cpp_client.Transactions.Context.{ContextEntry}
use cpp_client.Transactions.Manager.{TransactionStatus}
use cpp_client.Transactions.Cache.{
  CacheImpl, RemoteCacheBase, State, context, with_context, on_context, in_world, copy_value,
  read_value, transactional_base_get, accept_rw, accept_read, base_get,
}
use cpp_client.Transactions.Versioned.{base_contains_key, look_for, contained}
use cpp_client.Transactions.Overlay.{context-with_context}
use cpp_client.Transactions.Operations.{choose-inside, in_transaction}

reads_too : (st : TransactionStatus) → accept_rw st ≡ true → accept_read st ≡ true
unfolding accept_rw accept_read
reads_too st h = ground arith

if-is_true : {A : Type 0} (b : Bool) (x y : A) → b ≡ true → (if b then x else y) ≡ x
if-is_true b x y e = ap (λ t. if t then x else y) e

entry_at-missing :
    (k : List ℕ) (tc : TransactionContext) → has_value k tc ≡ false → entry_at k tc ≡ new_entry
unfolding has_value entry_at
entry_at-missing k tc h = rw (contains-lookup k tc.context h, entry_at) refl

get_value-new :
    (k : List ℕ) (tc : TransactionContext)
    → has_value k tc ≡ false
    → get_value k tc ≡ (none, record tc { context = insert k new_entry tc.context })
unfolding has_value get_value
get_value-new k tc h =
    ap
      (λ (e : ContextEntry). (
        seen e,
        record tc { context = if contains k tc.context then tc.context else insert k e tc.context },
      ))
      (entry_at-missing k tc h)
    ∙ ap
        (λ b. (
          seen new_entry,
          record tc { context = if b then tc.context else insert k new_entry tc.context },
        ))
        h

-- The entry that getValue leaves for a missing key has no value.
has_value-new :
    (k : List ℕ) (tc : TransactionContext)
    → has_value k (record tc { context = insert k new_entry tc.context }) ≡ true
unfolding has_value
has_value-new k tc =
    contains-insert k k new_entry tc.context
    ∙ ap (λ b. b || contains k tc.context) ((bytes_same_iff k k).1 refl)

entry_at-new :
    (k : List ℕ) (tc : TransactionContext)
    → entry_at k (record tc { context = insert k new_entry tc.context }) ≡ new_entry
unfolding entry_at
entry_at-new k tc = rw (lookup-inserted k new_entry tc.context, entry_at) refl

value-new :
    (k : List ℕ) (tc : TransactionContext)
    → (get_value k (record tc { context = insert k new_entry tc.context })).0 ≡ none
unfolding get_value
value-new k tc = ap (λ (e : ContextEntry). seen e) (entry_at-new k tc)

module _ (r : CacheImpl) (c : RemoteCacheBase) where
  context-same : (s t : State r c) → t.transaction ≡ s.transaction → context r c t ≡ context r c s
  unfolding context
  context-same s t e = ap (λ u. context r c (record t { transaction = u })) e

  get-there_null :
      (s : State r c) (key : r.Key)
      → accept_read s.transaction.status ≡ true
      → has_value (r.base_key_marshall key) (context r c s) ≡ true
      → (get_value (r.base_key_marshall key) (context r c s)).0 ≡ none
      → (transactional_base_get r c key s).0 ≡ ok none
  unfolding transactional_base_get read_value on_context copy_value
  get-there_null s key h there null =
      let k = r.base_key_marshall key in
      let got = get_value k (context r c s) in
      ap (λ x. x.0)
        (if-is_true (accept_read s.transaction.status) ((read_value r c key >>= copy_value r c) s)
          (throws tx_state, s) h)
      ∙ ap (λ x. (then_run (copy_value r c) x).0)
          (if-is_true (has_value k (context r c s)) (on_context r c (get_value k) s) _ there)
      ∙ ap (λ v. (copy_value r c v (with_context r c got.1 s)).0) null

  look_for-transaction :
      (s : State r c) (key : r.Key)
      → accept_read s.transaction.status ≡ true
      → (get_value (r.base_key_marshall key) (context r c s)).0 ≡ none
      → (look_for r c key s).1.transaction
        ≡ (with_context r c (get_value (r.base_key_marshall key) (context r c s)).1 s).transaction
  unfolding look_for on_context contained in_world
  look_for-transaction s key h null =
      let k = r.base_key_marshall key in
      let got = get_value k (context r c s) in
      ap (λ x. x.1.transaction)
        (if-is_true (accept_read s.transaction.status)
          ((on_context r c (get_value k) >>= contained r c key) s) (throws tx_state, s) h)
      ∙ ap (λ v. (contained r c key v (with_context r c got.1 s)).1.transaction) null

  -- Inside a transaction, after containsKey of a key that the context has not, whatever it answers,
  -- get gives null for that key, though the server may have a value.
  pub base_contains_key-hides :
      (s : State r c) (key : r.Key)
      → c.transactional ≡ true
      → accept_rw s.transaction.status ≡ true
      → has_value (r.base_key_marshall key) (context r c s) ≡ false
      → (base_get r c key (base_contains_key r c key s).1).0 ≡ ok none
  unfolding base_contains_key base_get with_context
  base_contains_key-hides s key t h gone =
      let k = r.base_key_marshall key in
      let tc = record (context r c s) { context = insert k new_entry (context r c s).context } in
      let after = (base_contains_key r c key s).1 in
      let one = get_value-new k (context r c s) gone in
      let same : after.transaction ≡ (with_context r c tc s).transaction =
        ap (λ x. x.1.transaction)
          (choose-inside r c (look_for r c key) (r.contains_key key) s t
            (in_transaction r c s.transaction.status h))
        ∙ look_for-transaction s key (reads_too s.transaction.status h) (ap (λ x. x.0) one)
        ∙ ap (λ x. (with_context r c x.1 s).transaction) one in
      let status : after.transaction.status ≡ s.transaction.status = ap (λ u. u.status) same in
      let now : context r c after ≡ tc =
        context-same (with_context r c tc s) after same ∙ context-with_context r c tc s in
      let open_ = ap accept_rw status ∙ h in
      ap (λ x. x.0)
        (choose-inside r c (transactional_base_get r c key) (r.get key) after t
          (in_transaction r c after.transaction.status open_))
      ∙ get-there_null after key (reads_too after.transaction.status open_)
          (ap (has_value k) now ∙ has_value-new k (context r c s))
          (ap (λ x. (get_value k x).0) now ∙ value-new k (context r c s))
