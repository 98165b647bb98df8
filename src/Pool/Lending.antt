-- ===== src/Pool/Lending.antt =====
-- Adding a server and borrowing: the counters, the limit on all transports, and the rounds.
use cpp_client.Prelude.{
  ◌+◌, ◌||◌, ℕ, zero, suc, ◌^◌, ◌<◌, ◌≡◌, Bool, true, false, not, ◌&&◌, Option, none, some,
  if◌then◌else◌, arith, Bool-cases, inl, inr,
}
use cpp_client.Prelude.Maps.{contains}
use cpp_client.Address.{Address, address_key}
use cpp_client.Exceptions.{Outcome, ok, throws, fault, Run, ◌>>=◌, return}
use cpp_client.Pool.State.{
  exception, wait, create_new, ExhaustedAction, queue_size, destroy_object,
  ConnectionPoolConfiguration, ObjectFactory, Pool,
}
use cpp_client.Pool.Borrow.{
  exhausted, has_reached_max_total, try_remove_idle, remove_from, pick, ask_allocate,
  try_remove_idle_or_ask_allocate, room_on, can_make, Round, lends, tests, waits, popped,
  make_or_wait, find_object, is_valid, lend_or_drop, round, borrow_loop, go_on, borrow_object,
  borrow_polled, resume, woken,
}
use cpp_client.Pool.Counts.{
  if-Answers, Sound, Answers, Keeps, >>=-Keeps, then_run-Answers, fewer, held_if, held_in,
  poll_idle-Keeps, push_busy-Keeps, make_object-Keeps, destroy_object-Keeps, validate_object-Keeps,
}

module _ (f : ObjectFactory) (c : ConnectionPoolConfiguration) (extra : ℕ)
    (small : c.max_total + extra < 2 ^ 31) where
  return-Keeps : {A : Type 0} (g : A → ℕ) (a : A) → Keeps f c extra (g a) (return a) g
  return-Keeps g a = record { keeps = λ p s. s }

  -- Below the limit there is room for one more.
  pub has_room :
      (p : Pool f) → Sound f c extra 0 p → has_reached_max_total f c p ≡ false → Sound f c extra 1 p
  unfolding has_reached_max_total
  has_room p s below = record {
    idle_unique = s.idle_unique;
    busy_unique = s.busy_unique;
    idle_counted = s.idle_counted;
    busy_counted = s.busy_counted;
    within = λ pos. ground (arith, s.within pos, s.idle_counted, s.busy_counted, below, small);
  }

  removed-Keeps :
      (k : Address) (o : Option ℕ)
      → Keeps f c extra
          (held_in o)
          (elim o [ some t ↦ destroy_object f k t >>= λ _. return true | none ↦ λ q. (fault, q) ])
          held_if
  removed-Keeps k (some t) =
      >>=-Keeps f c extra (λ _. 1) (destroy_object-Keeps f c extra 1 k t)
        λ _. return-Keeps held_if true
  removed-Keeps k none = record { keeps = λ p s. s }

  remove_from-Keeps : (o : Outcome (Option Address)) → Keeps f c extra 0 (remove_from f c o) held_if
  unfolding remove_from
  remove_from-Keeps (ok (some k)) = record {
    keeps = λ p s.
        then_run-Answers f c extra held_in _ ((poll_idle-Keeps f c extra k).keeps p s)
          (removed-Keeps k);
  }
  remove_from-Keeps (ok none) = record { keeps = λ p s. s }
  remove_from-Keeps (throws e) = record { keeps = λ p s. s }
  remove_from-Keeps fault = record { keeps = λ p s. s }

  try_remove_idle-Keeps : Keeps f c extra 0 (try_remove_idle f c) held_if
  unfolding try_remove_idle
  try_remove_idle-Keeps = record {
    keeps = λ p s. (remove_from-Keeps (pick c.min_idle none 0 p.idle)).keeps p s;
  }

  ask_allocate-Keeps :
      (k : Address) (b : Bool) → Keeps f c extra (held_if b) (ask_allocate f c k b) held_if
  unfolding ask_allocate
  ask_allocate-Keeps k true = record { keeps = λ p s. s }
  ask_allocate-Keeps k false = record {
    keeps = λ p s. record {
      idle_unique = s.idle_unique;
      busy_unique = s.busy_unique;
      idle_counted = s.idle_counted;
      busy_counted = s.busy_counted;
      within = s.within;
    };
  }

  try_remove_idle_or_ask_allocate-Keeps :
      (k : Address) → Keeps f c extra 0 (try_remove_idle_or_ask_allocate f c k) held_if
  unfolding try_remove_idle_or_ask_allocate
  try_remove_idle_or_ask_allocate-Keeps k =
      >>=-Keeps f c extra held_if try_remove_idle-Keeps (ask_allocate-Keeps k)

  reached-Answers :
      (k : Address) (p : Pool f)
      → Sound f c extra 0 p
      → Answers f c extra held_if (
          if has_reached_max_total f c p
          then try_remove_idle_or_ask_allocate f c k p
          else (ok true, p))
  reached-Answers k p s =
      if-Answers f c extra _ _ _ _ (λ _. (try_remove_idle_or_ask_allocate-Keeps k).keeps p s)
        (λ e. has_room p s e)

  room_on-Keeps : (k : Address) (a b : Outcome ℕ) → Keeps f c extra 0 (room_on f c k a b) held_if
  unfolding room_on
  room_on-Keeps k (ok i) (ok b) = record {
    keeps = λ p s. if-Answers f c extra _ _ _ _ (λ _. reached-Answers k p s) (λ _. s);
  }
  room_on-Keeps k (ok i) (throws e) = record { keeps = λ p s. s }
  room_on-Keeps k (ok i) fault = record { keeps = λ p s. s }
  room_on-Keeps k (throws e) b = record { keeps = λ p s. s }
  room_on-Keeps k fault b = record { keeps = λ p s. s }

  pub can_make-Keeps : (k : Address) → Keeps f c extra 0 (can_make f c k) held_if
  unfolding can_make
  can_make-Keeps k = record {
    keeps = λ p s. (room_on-Keeps k (queue_size k p.idle) (queue_size k p.busy)).keeps p s;
  }

  -- What a round holds: a transport that is to be tested.
  abbrev pub held_after : Round f c → ℕ
  held_after (lends t) = 0
  held_after (tests t) = 1
  held_after waits = 0

  exhausted-Keeps : (a : ExhaustedAction) → Keeps f c extra 0 (exhausted f c a) held_after
  unfolding exhausted
  exhausted-Keeps exception = record { keeps = λ p s. s }
  exhausted-Keeps wait = record { keeps = λ p s. s }
  exhausted-Keeps create_new = record { keeps = λ p s. s }

  popped-Keeps : (o : Option ℕ) → Keeps f c extra (held_in o) (popped f c o) held_after
  unfolding popped
  popped-Keeps (some t) = record { keeps = λ p s. s }
  popped-Keeps none = exhausted-Keeps c.exhausted_action

  make_or_wait-Keeps :
      (k : Address) (b : Bool) → Keeps f c extra (held_if b) (make_or_wait f c k b) held_after
  unfolding make_or_wait
  make_or_wait-Keeps k true =
      >>=-Keeps f c extra (λ _. 1) (make_object-Keeps f c extra 1 k)
        λ t. record { keeps = λ p s. s }
  make_or_wait-Keeps k false =
      >>=-Keeps f c extra held_in (poll_idle-Keeps f c extra k) popped-Keeps

  find_object-Keeps : (k : Address) → Keeps f c extra 0 (find_object f c k) held_after
  unfolding find_object
  find_object-Keeps k = >>=-Keeps f c extra held_if (can_make-Keeps k) (make_or_wait-Keeps k)

  pub is_valid-Keeps : (t : ℕ) → Keeps f c extra 1 (is_valid f c t) (λ _. 1)
  unfolding is_valid
  is_valid-Keeps t = record {
    keeps = λ p s.
        if-Answers f c extra _ c.test_on_borrow _ _
          (λ _. (validate_object-Keeps f c extra 1 t).keeps p s) (λ _. s);
  }

  pub spare :
      {A : Type 0} {m : Run (Pool f) A} {g : A → ℕ} → Keeps f c extra 0 m g → Keeps f c extra 1 m g
  spare keep = record { keeps = λ p s. keep.keeps p (fewer f c extra 1 0 (omega arith) s) }

  lend_or_drop-Keeps :
      (k : Address) (t : ℕ) (b : Bool) → Keeps f c extra 1 (lend_or_drop f c k t b) held_after
  unfolding lend_or_drop
  lend_or_drop-Keeps k t true =
      >>=-Keeps f c extra (λ _. 0) (push_busy-Keeps f c extra k t) λ _. record { keeps = λ p s. s }
  lend_or_drop-Keeps k t false =
      >>=-Keeps f c extra (λ _. 1) (destroy_object-Keeps f c extra 1 k t)
        λ _. spare (find_object-Keeps k)

  pub round-Keeps :
      (k : Address) (obj : Option ℕ) → Keeps f c extra (held_in obj) (round f c k obj) held_after
  unfolding round
  round-Keeps k none = find_object-Keeps k
  round-Keeps k (some t) = >>=-Keeps f c extra (λ _. 1) (is_valid-Keeps t) (lend_or_drop-Keeps k t)

  -- Whatever a section came to, nothing is between the queues at its end.
  abbrev pub Ends : Option (Outcome (Option ℕ) × Pool f) → Type 0
  Ends none = Unit {0}
  Ends (some (r, p)) = Sound f c extra 0 p

  go_on-Ends :
      (loop : Option ℕ → Pool f → Option (Outcome (Option ℕ) × Pool f))
      → ((obj : Option ℕ) (p : Pool f) → Sound f c extra (held_in obj) p → Ends (loop obj p))
      → (x : Outcome (Round f c) × Pool f) → Answers f c extra held_after x
      → Ends (go_on f c loop x)
  unfolding go_on
  go_on-Ends loop later (ok (lends t), p) s = s
  go_on-Ends loop later (ok (tests t), p) s = later (some t) p s
  go_on-Ends loop later (ok waits, p) s = s
  go_on-Ends loop later (throws e, p) s = s
  go_on-Ends loop later (fault, p) s = s

  pub borrow_loop-Ends :
      (fuel : ℕ) (k : Address) (obj : Option ℕ) (p : Pool f)
      → Sound f c extra (held_in obj) p
      → Ends (borrow_loop f c fuel k obj p)
  unfolding borrow_loop
  borrow_loop-Ends zero k obj p s = tt
  borrow_loop-Ends (suc fuel) k obj p s =
      go_on-Ends _ (borrow_loop-Ends fuel k) _ ((round-Keeps k obj).keeps p s)

  borrow_polled-Ends :
      (fuel : ℕ) (k : Address) (x : Outcome (Option ℕ) × Pool f)
      → Answers f c extra held_in x
      → Ends (borrow_polled f c fuel k x)
  unfolding borrow_polled
  borrow_polled-Ends fuel k (ok obj, p) s = borrow_loop-Ends fuel k obj p s
  borrow_polled-Ends fuel k (throws e, p) s = s
  borrow_polled-Ends fuel k (fault, p) s = s

  pub borrow_object-Ends :
      (fuel : ℕ) (k : Address) (p : Pool f)
      → Sound f c extra 0 p
      → Ends (borrow_object f c fuel k p)
  unfolding borrow_object
  borrow_object-Ends fuel k p s =
      elim (Bool-cases (p.closed || not (contains k p.idle && contains k p.busy))) [
        | inl refused ↦ rw refused s
        | inr open_ ↦
            rw open_ (borrow_polled-Ends fuel k _ ((poll_idle-Keeps f c extra k).keeps p s))
      ]

  woken-Ends :
      (fuel : ℕ) (k : Address) (x : Outcome (Option ℕ) × Pool f)
      → Answers f c extra held_in x
      → Ends (woken f c fuel k x)
  unfolding woken
  woken-Ends fuel k (ok (some t), p) s = borrow_loop-Ends fuel k (some t) p s
  woken-Ends fuel k (ok none, p) s = s
  woken-Ends fuel k (throws e, p) s = s
  woken-Ends fuel k (fault, p) s = s

  pub resume-Ends :
      (fuel : ℕ) (k : Address) (p : Pool f) → Sound f c extra 0 p → Ends (resume f c fuel k p)
  unfolding resume
  resume-Ends fuel k p s = woken-Ends fuel k _ ((poll_idle-Keeps f c extra k).keeps p s)
