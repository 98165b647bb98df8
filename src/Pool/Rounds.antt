-- ===== src/Pool/Rounds.antt =====
-- How long a borrower goes round the loop of borrowObject.
use cpp_client.Prelude.{
  ◌||◌, ap, ℕ, suc, ◌≡◌, refl, Bool, true, false, not, ◌&&◌, Option, none, some, if◌then◌else◌,
  Bool-cases, inl, inr,
}
use cpp_client.Prelude.Maps.{contains}
use cpp_client.Address.{Address, address_key}
use cpp_client.Exceptions.{Outcome, ok, throws, fault, then_run, return}
use cpp_client.Pool.State.{
  ConnectionPoolConfiguration, ObjectFactory, Pool, validate_object, push_busy, poll_idle,
}
use cpp_client.Pool.Borrow.{
  Round, lends, tests, waits, round, is_valid, lend_or_drop, borrow_loop, go_on, borrow_object,
  borrow_polled,
}

abbrev pub Answered : {A : Type 0} → Option A → Type 0
Answered {A} o = (a : A) × (o ≡ some a)

module _ (f : ObjectFactory) (c : ConnectionPoolConfiguration) where
  -- A round that comes to no transport to test is the last.
  abbrev IsLast : Outcome (Round f c) × Pool f → Type 0
  IsLast (ok (tests t), p) = ⊥
  IsLast _ = Unit {0}

  last-Answered :
      (loop : Option ℕ → Pool f → Option (Outcome (Option ℕ) × Pool f))
      (x : Outcome (Round f c) × Pool f)
      → IsLast x
      → Answered (go_on f c loop x)
  unfolding go_on
  last-Answered loop (ok (lends t), p) h = (_, refl)
  last-Answered loop (ok (tests t), p) h = elim h [ ]
  last-Answered loop (ok waits, p) h = (_, refl)
  last-Answered loop (throws e, p) h = (_, refl)
  last-Answered loop (fault, p) h = (_, refl)

  pushed-IsLast :
      (t : ℕ) (x : Outcome (Unit {0}) × Pool f) → IsLast (then_run (λ _. return (lends t)) x)
  pushed-IsLast t (ok _, p) = tt
  pushed-IsLast t (throws e, p) = tt
  pushed-IsLast t (fault, p) = tt

  lent_if_valid :
      (k : Address) (t : ℕ) (p : Pool f) (x : Outcome Bool × Pool f)
      → x ≡ (ok true, p)
      → IsLast (then_run (lend_or_drop f c k t) x)
  unfolding lend_or_drop
  lent_if_valid k t p x e = rw e (pushed-IsLast t (push_busy f k t p))

  is_valid-untested :
      c.test_on_borrow ≡ false → (t : ℕ) (p : Pool f) → is_valid f c t p ≡ (ok true, p)
  unfolding is_valid
  is_valid-untested off t p = ap (λ b. if b then validate_object f t p else (ok true, p)) off

  lent-IsLast :
      c.test_on_borrow ≡ false
      → (k : Address) (t : ℕ) (p : Pool f) → IsLast (round f c k (some t) p)
  unfolding round
  lent-IsLast off k t p = lent_if_valid k t p (is_valid f c t p) (is_valid-untested off t p)

  loop-Answered :
      c.test_on_borrow ≡ false
      → (fuel : ℕ) (k : Address) (t : ℕ) (p : Pool f)
      → Answered (borrow_loop f c (suc fuel) k (some t) p)
  unfolding borrow_loop
  loop-Answered off fuel k t p = last-Answered (borrow_loop f c fuel k) _ (lent-IsLast off k t p)

  found-Answered :
      c.test_on_borrow ≡ false
      → (fuel : ℕ) (k : Address) (x : Outcome (Round f c) × Pool f)
      → Answered (go_on f c (borrow_loop f c (suc fuel) k) x)
  unfolding go_on
  found-Answered off fuel k (ok (lends t), p) = (_, refl)
  found-Answered off fuel k (ok (tests t), p) = loop-Answered off fuel k t p
  found-Answered off fuel k (ok waits, p) = (_, refl)
  found-Answered off fuel k (throws e, p) = (_, refl)
  found-Answered off fuel k (fault, p) = (_, refl)

  polled-Answered :
      c.test_on_borrow ≡ false
      → (fuel : ℕ) (k : Address) (x : Outcome (Option ℕ) × Pool f)
      → Answered (borrow_polled f c (suc (suc fuel)) k x)
  unfolding borrow_polled borrow_loop
  polled-Answered off fuel k (ok none, p) = found-Answered off fuel k _
  polled-Answered off fuel k (ok (some t), p) = loop-Answered off (suc fuel) k t p
  polled-Answered off fuel k (throws e, p) = (_, refl)
  polled-Answered off fuel k (fault, p) = (_, refl)

  -- Without testOnBorrow a section of borrowObject ends after two rounds at most.
  pub borrow_object-two_rounds :
      c.test_on_borrow ≡ false
      → (fuel : ℕ) (k : Address) (p : Pool f) → Answered (borrow_object f c (suc (suc fuel)) k p)
  unfolding borrow_object
  borrow_object-two_rounds off fuel k p =
      elim (Bool-cases (p.closed || not (contains k p.idle && contains k p.busy))) [
        | inl refused ↦ rw refused (_, refl)
        | inr open_ ↦ rw open_ (polled-Answered off fuel k (poll_idle f k p))
      ]
