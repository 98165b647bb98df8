-- ===== src/Pool/Giving.antt =====
-- What is done with a transport after its use: the counters and the limit.
use cpp_client.Prelude.{
  ◌&&◌, if◌then◌else◌, ℕ, zero, suc, ◌+◌, ◌^◌, ◌≤◌, ◌<◌, ◌≡◌, refl, Bool, true, false, List, length,
  some, arith,
}
use cpp_client.Prelude.Maps.{lookup, contains, is_unique-insert, contains-lookup}
use cpp_client.Address.{Address, address_key}
use cpp_client.Exceptions.{◌>>=◌, client, Outcome, ok, throws, fault}
use cpp_client.Pool.State.{
  destroy_object, validate_object, push_idle, ConnectionPoolConfiguration, ObjectFactory, Pool,
  remove, remove_busy, queue_size,
}
use cpp_client.Pool.Borrow.{has_reached_max_total}
use cpp_client.Pool.Return.{
  is_asked, looked, remove_if_busy, give_way, return_object, take_back, invalidate_object,
  is_reusable, allocate, check_idle, check_queues, look_at,
}
use cpp_client.Pool.Growth.{allocate-Keeps, allocate_if-Keeps}
use cpp_client.Pool.Counts.{
  destroy_object-Keeps, then_run-Answers, validate_object-Keeps, held_if, if-Answers, Sound,
  Answers, Keeps, fewer, count-insert, push_idle-Keeps,
}

-- A caller that gives a transport back borrowed it: it stands once among those lent.
abbrev pub IsLent : (f : ObjectFactory) → Address → ℕ → Pool f → Type 0
IsLent f k t p =
    (q : List ℕ) × (lookup k p.busy ≡ some (some q)) × (length (remove t q) + 1 ≡ length q)

module _ (f : ObjectFactory) (c : ConnectionPoolConfiguration) (extra : ℕ) where
  pub removed-Answers :
      (k : Address) (t : ℕ) (p : Pool f) (q : List ℕ)
      → Sound f c extra 0 p
      → lookup k p.busy ≡ some (some q)
      → length (remove t q) + 1 ≡ length q
      → Answers f c extra (λ _. 1) (remove_busy f k t p)
  unfolding remove_busy
  removed-Answers k t p q s e less =
      let out = count-insert k (some q) (some (remove t q)) p.busy e in
      rw (e, remove_busy)
        (record {
          idle_unique = s.idle_unique;
          busy_unique = is_unique-insert k (some (remove t q)) p.busy s.busy_unique;
          idle_counted = s.idle_counted;
          busy_counted = omega (arith, s.busy_counted);
          within = λ pos. omega (arith, s.within pos);
        })

module _ (f : ObjectFactory) (c : ConnectionPoolConfiguration) (extra : ℕ)
    (small : c.max_total + extra < 2 ^ 31) where
  -- A section that only looks.
  looks :
      {A : Type 0} (held : ℕ) (p : Pool f)
      → Sound f c extra held p
      → (x : Outcome A × Pool f) → x.1 ≡ p
      → Answers f c extra (λ _. held) x
  looks held p s (ok a, q) e = rw e s
  looks held p s (throws e', q) e = rw e (fewer f c extra held 0 (omega arith) s)
  looks held p s (fault, q) e = rw e (fewer f c extra held 0 (omega arith) s)

  check_idle-same : (o : Outcome ℕ) (k : Address) (p : Pool f) → (check_idle f c o k p).1 ≡ p
  unfolding check_idle
  check_idle-same (ok zero) k p = ground arith
  check_idle-same (ok (suc n)) k p = refl
  check_idle-same (throws e) k p = refl
  check_idle-same fault k p = refl

  check_queues-Keeps : (k : Address) → Keeps f c extra 1 (check_queues f c k) (λ _. 1)
  unfolding check_queues
  check_queues-Keeps k = record {
    keeps = λ p s. looks 1 p s _ (check_idle-same (queue_size k p.busy) k p);
  }

  pub invalidate_object-Answers :
      (k : Address) (t : ℕ) (p : Pool f)
      → Sound f c extra 0 p
      → IsLent f k t p
      → Answers f c extra (λ _. 0) (invalidate_object f c k (some t) p)
  unfolding invalidate_object
  invalidate_object-Answers k t p s (q, e, once) =
      if-Answers f c extra (λ _. 0) (contains k p.busy) _ (throws client, p)
        (λ _.
          then_run-Answers f c extra (λ _. 0) _
            (then_run-Answers f c extra (λ _. 1) _
              (then_run-Answers f c extra (λ _. 1) _ (removed-Answers f c extra k t p q s e once)
                λ _. check_queues-Keeps k)
              λ _. allocate_if-Keeps f c extra small (has_reached_max_total f c p))
            λ _. destroy_object-Keeps f c extra 0 k t)
        (λ _. s)

  is_reusable-Keeps : (t : ℕ) → Keeps f c extra 1 (is_reusable f c t) (λ _. 1)
  unfolding is_reusable
  is_reusable-Keeps t = record {
    keeps = λ p s.
        if-Answers f c extra (λ _. 1) p.closed (ok false, p)
          (if c.test_on_return then validate_object f t p else (ok true, p)) (λ _. s)
          (λ _.
            if-Answers f c extra (λ _. 1) c.test_on_return (validate_object f t p) (ok true, p)
              (λ _. (validate_object-Keeps f c extra 1 t).keeps p s) (λ _. s));
  }

  looked-Answers :
      (k : Address) (p : Pool f)
      → Sound f c extra 0 p
      → (a b : Outcome ℕ) → Answers f c extra held_if (looked f c a b p)
  unfolding looked
  looked-Answers k p s (ok zero) (ok n) = s
  looked-Answers k p s (ok zero) (throws e) = s
  looked-Answers k p s (ok zero) fault = s
  looked-Answers k p s (ok (suc n)) b = s
  looked-Answers k p s (throws e) b = s
  looked-Answers k p s fault b = s

  look_at-Keeps : (k : Address) → Keeps f c extra 0 (look_at f c k) held_if
  unfolding look_at
  look_at-Keeps k = record {
    keeps = λ p s. looked-Answers k p s (queue_size k p.idle) (queue_size k p.busy);
  }

  held_if-one : (b : Bool) → held_if b ≤ 1
  held_if-one true = omega arith
  held_if-one false = omega arith

  -- A reusable transport is still in hand.
  give_way-Keeps :
      (k : Address) (reached b : Bool) → Keeps f c extra 1 (give_way f c k reached b) held_if
  unfolding give_way
  give_way-Keeps k reached b = record {
    keeps = λ p s.
        if-Answers f c extra held_if (reached && is_asked f c p.allocation_queue)
          ((allocate f c p.allocation_queue >>= λ _. look_at f c k) p) (ok b, p)
          (λ _.
            then_run-Answers f c extra (λ _. 0) _
              ((allocate-Keeps f c extra small p.allocation_queue).keeps p s) λ _. look_at-Keeps k)
          (λ _. fewer f c extra 1 (held_if b) (held_if-one b) s);
  }

  take_back-Keeps :
      (k : Address) (t : ℕ) (b : Bool) → Keeps f c extra (held_if b) (take_back f c k t b) (λ _. 0)
  unfolding take_back
  take_back-Keeps k t true = record {
    keeps = λ p s.
        if-Answers f c extra (λ _. 0) (contains k p.idle) (push_idle f k t p)
          (destroy_object f k t p) (λ _. (push_idle-Keeps f c extra 0 k t).keeps p s)
          (λ _.
            (destroy_object-Keeps f c extra 0 k t).keeps p (fewer f c extra 1 0 (omega arith) s));
  }
  take_back-Keeps k t false = record { keeps = (destroy_object-Keeps f c extra 0 k t).keeps }

  pub return_object-Answers :
      (k : Address) (t : ℕ) (p : Pool f)
      → Sound f c extra 0 p
      → IsLent f k t p
      → Answers f c extra (λ _. 0) (return_object f c k t p)
  unfolding return_object remove_if_busy
  return_object-Answers k t p s (q, e, once) =
      then_run-Answers f c extra held_if _
        (then_run-Answers f c extra (λ _. 1) _
          (then_run-Answers f c extra (λ _. 1) _
            (if-Answers f c extra (λ _. 1) (contains k p.busy) (remove_busy f k t p) (ok tt, p)
              (λ _. removed-Answers f c extra k t p q s e once)
              (λ gone. cc (contains-lookup k p.busy gone, e)))
            λ _. is_reusable-Keeps t)
          λ b. give_way-Keeps k (has_reached_max_total f c p) b)
        λ b. take_back-Keeps k t b
