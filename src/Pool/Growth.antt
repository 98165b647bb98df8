-- ===== src/Pool/Growth.antt =====
-- Adding a server, and the transports made for it: the counters and the limit.
use cpp_client.Prelude.{
  ℕ, zero, suc, ◌+◌, ◌^◌, ◌≤◌, ◌<◌, ◌≡◌, refl, Bool, true, List, [], ◌∷◌, some, arith, Bool-cases,
  inl, inr,
}
use cpp_client.Prelude.Maps.{
  contains, is_unique, is_unique-insert, total-insert, measure_at, contains-lookup,
}
use cpp_client.Address.{Address, address_key}
use cpp_client.Exceptions.{Outcome, ok, throws, fault}
use cpp_client.Pool.State.{ConnectionPoolConfiguration, ObjectFactory, Queues, Pool, queue_size}
use cpp_client.Pool.Borrow.{
  make_idle, add_queue, growth_limit, calculate_min_idle_grow, grow, ensure_min_idle, add_object,
}
use cpp_client.Pool.Return.{allocate, allocate_if}
use cpp_client.Pool.Counts.{
  if-Answers, Sound, Answers, Keeps, >>=-Keeps, fewer, count, size_of, push_idle-Keeps,
  make_object-Keeps,
}

pub unique-add_queue :
    (k : Address) (m : Queues) → is_unique m ≡ true → is_unique (add_queue k m) ≡ true
unfolding add_queue
unique-add_queue k m u = ground (arith, is_unique-insert k (some []) m u, u)

pub count-add_queue : (k : Address) (m : Queues) → count (add_queue k m) ≡ count m
unfolding add_queue
count-add_queue k m = elim (Bool-cases (contains k m)) [
  | inl here ↦ rw here refl
  | inr gone ↦
      let absent : measure_at size_of k m ≡ 0 = rw (contains-lookup k m gone, measure_at) refl in
      rw gone (omega (arith, total-insert size_of k (some []) m, absent))
]

module _ (f : ObjectFactory) (c : ConnectionPoolConfiguration) (extra : ℕ) where
  pub make_idle-Keeps :
      (held : ℕ) (k : Address) → Keeps f c extra (suc held) (make_idle f c k) (λ _. held)
  unfolding make_idle
  make_idle-Keeps held k =
      >>=-Keeps f c extra (λ _. suc held) (make_object-Keeps f c extra (suc held) k)
        (push_idle-Keeps f c extra held k)

  grow-Keeps : (n : ℕ) (k : Address) → Keeps f c extra n (grow f c n k) (λ _. 0)
  unfolding grow
  grow-Keeps zero k = record { keeps = λ p s. s }
  grow-Keeps (suc n) k = >>=-Keeps f c extra (λ _. n) (make_idle-Keeps n k) λ _. grow-Keeps n k

module _ (f : ObjectFactory) (c : ConnectionPoolConfiguration) (extra : ℕ)
    (small : c.max_total + extra < 2 ^ 31) where
  within_growth_limit :
      (p : Pool f)
      → Sound f c extra 0 p
      → 0 < c.max_total
      → count p.idle + count p.busy + growth_limit f c p ≤ c.max_total + extra
  unfolding growth_limit
  within_growth_limit p s pos = ground (arith, s.within pos, s.idle_counted, s.busy_counted, small)

  -- The room that there is for idle transports.
  grown-Answers :
      (k : Address) (p : Pool f) (size : Outcome ℕ)
      → queue_size k p.idle ≡ size
      → Sound f c extra 0 p
      → Answers f c extra (λ n. n) (calculate_min_idle_grow f c k p)
  unfolding calculate_min_idle_grow
  grown-Answers k p (ok size) e s =
      rw (e, calculate_min_idle_grow)
        (record {
          idle_unique = s.idle_unique;
          busy_unique = s.busy_unique;
          idle_counted = s.idle_counted;
          busy_counted = s.busy_counted;
          within = λ pos. ground (arith, within_growth_limit p s pos);
        })
  grown-Answers k p (throws e') e s = rw (e, calculate_min_idle_grow) s
  grown-Answers k p fault e s = rw (e, calculate_min_idle_grow) s

  ensure_min_idle-Keeps : (k : Address) → Keeps f c extra 0 (ensure_min_idle f c k) (λ _. 0)
  unfolding ensure_min_idle
  ensure_min_idle-Keeps k =
      >>=-Keeps f c extra (λ n. n)
        (record { keeps = λ p s. grown-Answers k p (queue_size k p.idle) refl s })
        λ n. grow-Keeps f c extra n k

  added-Sound :
      (k : Address) (p : Pool f)
      → Sound f c extra 0 p
      → Sound f c extra 0 (record p { idle = add_queue k p.idle; busy = add_queue k p.busy })
  added-Sound k p s = record {
    idle_unique = unique-add_queue k p.idle s.idle_unique;
    busy_unique = unique-add_queue k p.busy s.busy_unique;
    idle_counted = omega (arith, s.idle_counted, count-add_queue k p.idle);
    busy_counted = omega (arith, s.busy_counted, count-add_queue k p.busy);
    within = λ pos. omega (arith, s.within pos, count-add_queue k p.idle, count-add_queue k p.busy);
  }

  pub add_object-Keeps : (k : Address) → Keeps f c extra 0 (add_object f c k) (λ _. 0)
  unfolding add_object
  add_object-Keeps k = record {
    keeps = λ p s.
        if-Answers f c extra _ _ _ _ (λ _. s)
          (λ _. (ensure_min_idle-Keeps k).keeps _ (added-Sound k p s));
  }

  pub allocate-Keeps : (ks : List Address) → Keeps f c extra 1 (allocate f c ks) (λ _. 0)
  unfolding allocate
  allocate-Keeps [] = record { keeps = λ p s. fewer f c extra 1 0 (omega arith) s }
  allocate-Keeps (k ∷ ks) = record {
    keeps = λ p s. (make_idle-Keeps f c extra 0 k).keeps _ (record {
      idle_unique = s.idle_unique;
      busy_unique = s.busy_unique;
      idle_counted = s.idle_counted;
      busy_counted = s.busy_counted;
      within = s.within;
    });
  }

  pub allocate_if-Keeps : (b : Bool) → Keeps f c extra 1 (allocate_if f c b) (λ _. 0)
  unfolding allocate_if
  allocate_if-Keeps b = record {
    keeps = λ p s.
        if-Answers f c extra _ b _ _ (λ _. (allocate-Keeps p.allocation_queue).keeps p s)
          (λ _. fewer f c extra 1 0 (omega arith) s);
  }
