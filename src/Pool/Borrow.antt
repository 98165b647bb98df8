-- ===== src/Pool/Borrow.antt =====
-- ConnectionPool.cpp: the queues of a server, and borrowing a transport. An operation that waits for
-- a transport gives up the lock there, and goes on in a section of its own. The code also releases the
-- lock while it pops a transport and lowers totalIdle: here the runs in which no other thread enters the
-- pool in between are one section with what follows, and Reach cuts the others in two there.
use cpp_client.Prelude.{
  ◌||◌, ℕ, zero, suc, ◌+◌, ◌-◌, ◌^◌, Bool, true, false, not, ◌&&◌, [], ◌∷◌, ◌++◌, length, Option,
  none, some, ltb, leb, ◌==◌, if◌then◌else◌,
}
use cpp_client.Prelude.Words.{u32}
use cpp_client.Prelude.Maps.{contains, insert}
use cpp_client.Address.{Address, address_key}
use cpp_client.Exceptions.{client, no_such_element, Outcome, ok, throws, fault, Run, ◌>>=◌, return}
use cpp_client.Pool.State.{
  ExhaustedAction, exception, ConnectionPoolConfiguration, ObjectFactory, Queues, Pool, make_object,
  destroy_object, validate_object, push_idle, poll_idle, push_busy, queue_size,
}

-- `idle.insert(pair)`, which keeps what is there.
unfoldable pub add_queue : Address → Queues → Queues
add_queue k m = if contains k m then m else insert k (some []) m

-- The queue to take a transport from: the first with more than minIdle, or else the longest.
unfoldable pub pick : ℕ → Option Address → ℕ → Queues → Outcome (Option Address)
pick min_idle key longer [] = ok key
pick min_idle key longer ((k, none) ∷ m) = fault
pick min_idle key longer ((k, some q) ∷ m) =
    let longest = pick min_idle (some k) (length q) m in
    let rest = pick min_idle key longer m in
    if ltb 0 min_idle && ltb min_idle (length q)
    then ok (some k)
    else if ltb longer (length q)
    then longest
    else rest

module _ (f : ObjectFactory) (c : ConnectionPoolConfiguration) where
  -- `maxTotal - totalIdle - totalActive` on 32 bits, 0 if it is negative.
  unfoldable pub growth_limit : Pool f → ℕ
  growth_limit p =
      let limit = u32 (c.max_total + (2 ^ 32 - u32 (p.total_idle + p.total_active))) in
      if ltb limit (2 ^ 31) then limit else 0

  unfoldable pub calculate_min_idle_grow : Address → Run (Pool f) ℕ
  unfolding growth_limit queue_size
  calculate_min_idle_grow k p = elim (queue_size k p.idle) [
    | ok size ↦
        let grown = c.min_idle - size in
        let limit = growth_limit p in
        (ok (if ltb 0 c.max_total then (if leb grown limit then grown else limit) else grown), p)
    | _ ↦ (fault, p)
  ]

  -- `idle[key]->push(&factory->makeObject(key))` and `totalIdle++`.
  unfoldable pub make_idle : Address → Run (Pool f) (Unit {0})
  unfolding make_object push_idle
  make_idle k = make_object f k >>= push_idle f k

  unfoldable pub grow : ℕ → Address → Run (Pool f) (Unit {0})
  unfolding make_idle
  grow zero k = return tt
  grow (suc n) k = make_idle k >>= λ _. grow n k

  unfoldable pub ensure_min_idle : Address → Run (Pool f) (Unit {0})
  unfolding calculate_min_idle_grow grow
  ensure_min_idle k = calculate_min_idle_grow k >>= λ grown. grow grown k

  unfoldable pub add_object : Address → Run (Pool f) (Unit {0})
  unfolding add_queue ensure_min_idle contains
  add_object k p =
      if contains k p.idle
      then (ok tt, p)
      else ensure_min_idle k (record p { idle = add_queue k p.idle; busy = add_queue k p.busy })

  unfoldable pub has_reached_max_total : Pool f → Bool
  has_reached_max_total p =
      let size = u32 (p.total_active + p.total_idle) in
      ltb 0 c.max_total && (ltb size (2 ^ 31) && leb c.max_total size)

  -- The picked queue has a transport, so that the poll succeeds and the loop ends in its first round: a
  -- further round is made only after another thread, without the lock, took it between the two.
  unfoldable pub remove_from : Outcome (Option Address) → Run (Pool f) Bool
  unfolding poll_idle destroy_object
  remove_from (ok (some k)) p =
      (poll_idle f k >>= λ polled. elim polled [
        | some t ↦ destroy_object f k t >>= λ _. return true
        | none ↦ λ q. (fault, q)
      ])
        p
  remove_from (ok none) p = (ok false, p)
  remove_from (throws e) p = (throws e, p)
  remove_from fault p = (fault, p)

  unfoldable pub try_remove_idle : Run (Pool f) Bool
  unfolding pick remove_from
  try_remove_idle p = remove_from (pick c.min_idle none 0 p.idle) p

  unfoldable pub ask_allocate : Address → Bool → Run (Pool f) Bool
  ask_allocate k true p = (ok true, p)
  ask_allocate k false p =
      (ok false, record p { allocation_queue = p.allocation_queue ++ (k ∷ []) })

  unfoldable pub try_remove_idle_or_ask_allocate : Address → Run (Pool f) Bool
  unfolding try_remove_idle ask_allocate
  try_remove_idle_or_ask_allocate k = try_remove_idle >>= ask_allocate k

  unfoldable pub below_max_active : ℕ → Option ℕ → Bool
  below_max_active size none = true
  below_max_active size (some max) = ltb size max

  -- The condition for a new transport.
  unfoldable pub room_on : Address → Outcome ℕ → Outcome ℕ → Run (Pool f) Bool
  unfolding has_reached_max_total try_remove_idle_or_ask_allocate below_max_active
  room_on k (ok idle_size) (ok busy_size) p =
      if (idle_size == 0) && below_max_active busy_size c.max_active
      then (if has_reached_max_total p then try_remove_idle_or_ask_allocate k p else (ok true, p))
      else (ok false, p)
  room_on k _ _ p = (fault, p)

  unfoldable pub can_make : Address → Run (Pool f) Bool
  unfolding room_on queue_size
  can_make k p = room_on k (queue_size k p.idle) (queue_size k p.busy) p

  -- One round of the loop came to a transport to lend or to test, or waits for one.
  pub data Round : Type 0 where
    lends : ℕ → Round
    tests : ℕ → Round
    waits : Round

  unfoldable pub exhausted : ExhaustedAction → Run (Pool f) Round
  exhausted exception p = (throws no_such_element, p)
  exhausted _ p = (ok waits, p)

  unfoldable pub popped : Option ℕ → Run (Pool f) Round
  unfolding exhausted
  popped (some t) p = (ok (tests t), p)
  popped none p = exhausted c.exhausted_action p

  unfoldable pub make_or_wait : Address → Bool → Run (Pool f) Round
  unfolding make_object poll_idle popped
  make_or_wait k true = make_object f k >>= λ t. return (tests t)
  make_or_wait k false = poll_idle f k >>= popped

  unfoldable pub find_object : Address → Run (Pool f) Round
  unfolding can_make make_or_wait
  find_object k = can_make k >>= make_or_wait k

  unfoldable pub is_valid : ℕ → Run (Pool f) Bool
  unfolding validate_object
  is_valid t p = if c.test_on_borrow then validate_object f t p else (ok true, p)

  unfoldable pub lend_or_drop : Address → ℕ → Bool → Run (Pool f) Round
  unfolding push_busy destroy_object find_object
  lend_or_drop k t true = push_busy f k t >>= λ _. return (lends t)
  lend_or_drop k t false = destroy_object f k t >>= λ _. find_object k

  unfoldable pub round : Address → Option ℕ → Run (Pool f) Round
  unfolding is_valid lend_or_drop find_object
  round k none = find_object k
  round k (some t) = is_valid t >>= lend_or_drop k t

  -- What a section answers: the transport, or `none` if it waits.
  abbrev pub Loop : Type 0
  Loop = Option ℕ → Pool f → Option (Outcome (Option ℕ) × Pool f)

  unfoldable pub go_on : Loop → Outcome Round × Pool f → Option (Outcome (Option ℕ) × Pool f)
  go_on loop (ok (lends t), p) = some (ok (some t), p)
  go_on loop (ok (tests t), p) = loop (some t) p
  go_on loop (ok waits, p) = some (ok none, p)
  go_on loop (throws e, p) = some (throws e, p)
  go_on loop (fault, p) = some (fault, p)

  -- The loop, with the rounds that may still be made; `none` when they do not suffice.
  unfoldable pub borrow_loop : ℕ → Address → Loop
  unfolding round go_on
  borrow_loop zero k obj p = none
  borrow_loop (suc fuel) k obj p = go_on (borrow_loop fuel k) (round k obj p)

  unfoldable pub borrow_polled :
      ℕ → Address → Outcome (Option ℕ) × Pool f → Option (Outcome (Option ℕ) × Pool f)
  unfolding borrow_loop
  borrow_polled fuel k (ok obj, p) = borrow_loop fuel k obj p
  borrow_polled fuel k (throws e, p) = some (throws e, p)
  borrow_polled fuel k (fault, p) = some (fault, p)

  unfoldable pub borrow_object : ℕ → Address → Pool f → Option (Outcome (Option ℕ) × Pool f)
  unfolding borrow_polled poll_idle contains
  borrow_object fuel k p =
      if p.closed || not (contains k p.idle && contains k p.busy)
      then some (throws client, p)
      else borrow_polled fuel k (poll_idle f k p)

  -- A thread that waits, when it is woken: on an empty queue it waits again.
  unfoldable pub woken :
      ℕ → Address → Outcome (Option ℕ) × Pool f → Option (Outcome (Option ℕ) × Pool f)
  unfolding borrow_loop
  woken fuel k (ok (some t), p) = borrow_loop fuel k (some t) p
  woken fuel k r = some r

  unfoldable pub resume : ℕ → Address → Pool f → Option (Outcome (Option ℕ) × Pool f)
  unfolding woken poll_idle
  resume fuel k p = woken fuel k (poll_idle f k p)
