-- ===== src/Transactions/Operations.antt =====
-- The operations of the application on one key, and what each means to do.
use cpp_client.Prelude.{
  ℕ, ◌≡◌, ap, sym, subst, Bool, true, Option, none, some, if◌then◌else◌, arith,
}
use cpp_client.Exceptions.{Outcome, throws, tx_state, Run}
use cpp_client.Transactions.Manager.{TransactionStatus}
use cpp_client.Transactions.Cache.{
  CacheImpl, RemoteCacheBase, State, in_world, accept_rw, is_in_transaction, choose, guarded,
  base_get, base_put, base_put_if_absent, base_replace, base_remove,
}
use cpp_client.Transactions.Steps.{OnOk}

-- An operation of the application on a key, with a pointer to its value and the two expirations.
pub data Operation (K : Type 0) : Type 0 where
  gets : K → Operation K
  puts : K → ℕ → ℕ → ℕ → Operation K
  puts_if_absent : K → ℕ → ℕ → ℕ → Operation K
  replaces : K → ℕ → ℕ → ℕ → Operation K
  removes : K → Operation K

abbrev pub key_of : {K : Type 0} → Operation K → K
key_of (gets k) = k
key_of (puts k p life idle) = k
key_of (puts_if_absent k p life idle) = k
key_of (replaces k p life idle) = k
key_of (removes k) = k

-- What the key has after an operation that met `x`.
abbrev pub result : {K V : Type 0} → (ℕ → V) → Operation K → Option V → Option V
result content (gets k) x = x
result content (puts k p life idle) x = some (content p)
result content (puts_if_absent k p life idle) x = elim x [
  | none ↦ some (content p)
  | some v ↦ some v
]
result content (replaces k p life idle) x = elim x [ none ↦ none | some v ↦ some (content p) ]
result content (removes k) x = none

-- What the application is told. The code has putIfAbsent give none in a transaction, whatever
-- forceReturnValue says; outside of one it gives the previous value.
abbrev pub answer : {K V : Type 0} → Bool → Operation K → Option V → Option V
answer force (gets k) x = x
answer force (puts_if_absent k p life idle) x = none
answer force _ x = if force then x else none

module _ (r : CacheImpl) (c : RemoteCacheBase) where
  unfoldable pub run : Operation r.Key → Run (State r c) (Option ℕ)
  unfolding base_get base_put base_put_if_absent base_replace base_remove
  run (gets k) = base_get r c k
  run (puts k p life idle) = base_put r c k p life idle
  run (puts_if_absent k p life idle) = base_put_if_absent r c k p life idle
  run (replaces k p life idle) = base_replace r c k p life idle
  run (removes k) = base_remove r c k

  pub in_transaction : (st : TransactionStatus) → accept_rw st ≡ true → is_in_transaction st ≡ true
  unfolding accept_rw is_in_transaction
  in_transaction st h = ground arith

  pub choose-inside :
      {A : Type 0} (inside : Run (State r c) A) (outside : r.World → Outcome A × r.World)
      (s : State r c)
      → c.transactional ≡ true
      → is_in_transaction s.transaction.status ≡ true
      → choose r c inside outside s ≡ inside s
  unfolding choose
  choose-inside inside outside s t h =
      ap (λ b. if b then inside s else in_world r c outside s) {y = true} (ground (arith, t, h))

  guarded-open :
      {A : Type 0} (m : Run (State r c) A) (s : State r c)
      → accept_rw s.transaction.status ≡ true
      → guarded r c m s ≡ m s
  unfolding guarded
  guarded-open m s h = ap (λ b. if b then m s else (throws tx_state, s)) h

  pub inside-OnOk :
      {A : Type 0} (P : A → State r c → Type 0) (inside : Run (State r c) A)
      (outside : r.World → Outcome A × r.World) (s : State r c)
      → c.transactional ≡ true
      → accept_rw s.transaction.status ≡ true
      → OnOk P (inside s)
      → OnOk P (choose r c inside outside s)
  inside-OnOk P inside outside s t h done =
      subst (OnOk P)
        (sym (choose-inside inside outside s t (in_transaction s.transaction.status h))) done

  pub guarded-OnOk :
      {A : Type 0} (P : A → State r c → Type 0) (inside : Run (State r c) A)
      (outside : r.World → Outcome A × r.World) (s : State r c)
      → c.transactional ≡ true
      → accept_rw s.transaction.status ≡ true
      → OnOk P (inside s)
      → OnOk P (choose r c (guarded r c inside) outside s)
  guarded-OnOk P inside outside s t h done =
      inside-OnOk P (guarded r c inside) outside s t h
        (subst (OnOk P) (sym (guarded-open inside s h)) done)
