-- ===== src/Pool/Reach.antt =====
-- The pool over every order of its sections under the lock, and of the takes with the lock released.
use cpp_client.Prelude.{false, Bool, suc, ℕ, ◌≡◌, Option, some}
use cpp_client.Address.{Address, address_key}
use cpp_client.Exceptions.{Outcome, ok}
use cpp_client.Pool.State.{
  ConnectionPoolConfiguration, ObjectFactory, Pool, new_pool, poll_idle, destroy_object,
}
use cpp_client.Pool.Borrow.{add_object, borrow_object, resume, borrow_loop, can_make, is_valid}
use cpp_client.Pool.Return.{invalidate_object, return_object, clear, clear_key, close}
use cpp_client.Pool.Giving.{IsLent}

module _ (f : ObjectFactory) (c : ConnectionPoolConfiguration) where
  -- A transport that is given back was borrowed and is still among those lent: one that was lent
  -- when the pool was cleared is not given back.
  pub data Step (p : Pool f) : Pool f → Type 0 where
    adds : (k : Address) → Step p (add_object f c k p).1
    borrows :
        (fuel : ℕ) (k : Address) {r : Outcome (Option ℕ)} {q : Pool f}
        → borrow_object f c fuel k p ≡ some (r, q)
        → Step p q
    wakes :
        (fuel : ℕ) (k : Address) {r : Outcome (Option ℕ)} {q : Pool f}
        → resume f c fuel k p ≡ some (r, q)
        → Step p q
    returns : (k : Address) (t : ℕ) → IsLent f k t p → Step p (return_object f c k t p).1
    invalidates :
        (k : Address) (t : ℕ) → IsLent f k t p → Step p (invalidate_object f c k (some t) p).1
    clears : Step p (clear f p)
    drops : (k : Address) → Step p (clear_key f k p)
    closes : Step p (close f p)

  -- The pool with the threads that hold a transport which they took with the lock released, and the
  -- number of those that may still enter that window. A thread that comes to such a take does what
  -- stands before it (`asks`), takes it (`pops`), and goes on after other steps, with the loop or with
  -- another round if the transport is not valid.
  pub data Reach : ℕ → ℕ → Pool f → Type 0 where
    starts : (n : ℕ) (w : f.World) → Reach n 0 (new_pool f w)
    steps : {n h : ℕ} {p q : Pool f} → Reach n h p → Step p q → Reach n h q
    asks :
        {n h : ℕ} {p q : Pool f} {x : Outcome Bool} (k : Address)
        → Reach n h p
        → can_make f c k p ≡ (x, q)
        → Reach n h q
    pops :
        {n h : ℕ} {p q : Pool f} {t : ℕ} (k : Address)
        → Reach (suc n) h p
        → poll_idle f k p ≡ (ok (some t), q)
        → Reach n (suc h) q
    goes_on :
        {n h : ℕ} {p q : Pool f} {r : Outcome (Option ℕ)} (fuel : ℕ) (k : Address) (t : ℕ)
        → Reach n (suc h) p
        → borrow_loop f c fuel k (some t) p ≡ some (r, q)
        → Reach (suc n) h q
    rejects :
        {n h : ℕ} {p q u : Pool f} {x : Outcome (Unit {0})} (k : Address) (t : ℕ)
        → Reach n (suc h) p
        → is_valid f c t p ≡ (ok false, q)
        → destroy_object f k t q ≡ (x, u)
        → Reach (suc n) h u
