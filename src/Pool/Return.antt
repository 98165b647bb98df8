-- ===== src/Pool/Return.antt =====
-- ConnectionPool.cpp: what is done with a transport after its use, and clearing the pool.
use cpp_client.Prelude.{
  ℕ, zero, suc, ◌+◌, ◌-◌, ◌^◌, Bool, true, false, ◌&&◌, List, [], ◌∷◌, length, Option, none, some,
  if◌then◌else◌,
}
use cpp_client.Prelude.Words.{u32}
use cpp_client.Prelude.Maps.{lookup, contains, insert, erase}
use cpp_client.Address.{Address, address_key}
use cpp_client.Exceptions.{client, Outcome, ok, throws, fault, Run, ◌>>=◌}
use cpp_client.Pool.State.{
  ConnectionPoolConfiguration, ObjectFactory, Queues, Pool, destroy_object, validate_object,
  push_idle, remove_busy, queue_size,
}
use cpp_client.Pool.Borrow.{make_idle, has_reached_max_total}

module _ (f : ObjectFactory) (c : ConnectionPoolConfiguration) where
  -- The front of the allocation queue gets a new transport.
  unfoldable pub allocate : List Address → Run (Pool f) (Unit {0})
  unfolding make_idle
  allocate [] p = (ok tt, p)
  allocate (k ∷ ks) p = make_idle f c k (record p { allocation_queue = ks })

  unfoldable pub is_asked : List Address → Bool
  is_asked [] = false
  is_asked (k ∷ ks) = true

  unfoldable pub allocate_if : Bool → Run (Pool f) (Unit {0})
  unfolding allocate is_asked
  allocate_if reached p = if reached then allocate p.allocation_queue p else (ok tt, p)

  -- The queue of idle transports is looked up where no transport is lent any more.
  unfoldable pub check_idle : Outcome ℕ → Address → Run (Pool f) (Unit {0})
  unfolding contains queue_size
  check_idle (ok (suc n)) k p = (ok tt, p)
  check_idle (ok zero) k p =
      if contains k p.idle
      then elim (queue_size k p.idle) [ ok size ↦ (ok tt, p) | _ ↦ (fault, p) ]
      else (throws client, p)
  check_idle _ k p = (fault, p)

  unfoldable pub check_queues : Address → Run (Pool f) (Unit {0})
  unfolding check_idle queue_size
  check_queues k p = check_idle (queue_size k p.busy) k p

  unfoldable pub invalidate_object : Address → Option ℕ → Run (Pool f) (Unit {0})
  unfolding contains remove_busy check_queues allocate_if has_reached_max_total destroy_object
  invalidate_object k none p = (ok tt, p)
  invalidate_object k (some t) p =
      if contains k p.busy
      then (remove_busy f k t
            >>= (λ _. check_queues k)
            >>= (λ _. allocate_if (has_reached_max_total f c p))
            >>= (λ _. destroy_object f k t))
          p
      else (throws client, p)

  unfoldable pub remove_if_busy : Address → ℕ → Run (Pool f) (Unit {0})
  unfolding contains remove_busy
  remove_if_busy k t p = if contains k p.busy then remove_busy f k t p else (ok tt, p)

  -- Whether the transport may be used again.
  unfoldable pub is_reusable : ℕ → Run (Pool f) Bool
  unfolding validate_object
  is_reusable t p =
      if p.closed
      then (ok false, p)
      else if c.test_on_return
      then validate_object f t p
      else (ok true, p)

  -- `idle[key]->size()` and, where that is 0, `busy[key]->size()`.
  unfoldable pub looked : Outcome ℕ → Outcome ℕ → Run (Pool f) Bool
  looked (ok (suc n)) busy_size p = (ok false, p)
  looked (ok zero) (ok n) p = (ok false, p)
  looked _ _ p = (fault, p)

  unfoldable pub look_at : Address → Run (Pool f) Bool
  unfolding looked queue_size
  look_at k p = looked (queue_size k p.idle) (queue_size k p.busy) p

  -- A transport for a server that waits takes the place of the returned one.
  unfoldable pub give_way : Address → Bool → Bool → Run (Pool f) Bool
  unfolding is_asked allocate look_at
  give_way k reached reusable p =
      if reached && is_asked p.allocation_queue
      then (allocate p.allocation_queue >>= λ _. look_at k) p
      else (ok reusable, p)

  unfoldable pub take_back : Address → ℕ → Bool → Run (Pool f) (Unit {0})
  unfolding contains push_idle destroy_object
  take_back k t true p = if contains k p.idle then push_idle f k t p else destroy_object f k t p
  take_back k t false p = destroy_object f k t p

  unfoldable pub return_object : Address → ℕ → Run (Pool f) (Unit {0})
  unfolding remove_if_busy is_reusable has_reached_max_total give_way take_back
  return_object k t p =
      (remove_if_busy k t
          >>= (λ _. is_reusable t)
          >>= give_way k (has_reached_max_total f c p)
          >>= take_back k t)
        p

-- clear(key, queue), which leaves a null pointer alone.
unfoldable pub destroy_all : (f : ObjectFactory) → Address → List ℕ → f.World → f.World
destroy_all f k [] w = w
destroy_all f k (t ∷ q) w = destroy_all f k q (f.destroy_object k t w)

unfoldable pub destroy_queue : (f : ObjectFactory) → Address → Option (List ℕ) → f.World → f.World
unfolding destroy_all
destroy_queue f k none w = w
destroy_queue f k (some q) w = destroy_all f k q w

unfoldable pub destroy_queues : (f : ObjectFactory) → Queues → f.World → f.World
unfolding destroy_queue
destroy_queues f [] w = w
destroy_queues f ((k, q) ∷ m) w = destroy_queues f m (destroy_queue f k q w)

module _ (f : ObjectFactory) where
  unfoldable pub clear : Pool f → Pool f
  unfolding destroy_queues
  clear p = record p {
    idle = [];
    busy = [];
    total_idle = 0;
    total_active = 0;
    world = destroy_queues f p.busy (destroy_queues f p.idle p.world);
  }

  -- clear(key), where `idle[key]` adds a null pointer for a key that is missing.
  unfoldable pub clear_key : Address → Pool f → Pool f
  unfolding lookup erase insert destroy_all
  clear_key k p = elim (lookup k p.idle) [
    | some (some q) ↦ record p {
      total_idle = u32 (p.total_idle + (2 ^ 32 - u32 (length q)));
      idle = erase k p.idle;
      world = destroy_all f k q p.world;
    }
    | some none ↦ p
    | none ↦ record p { idle = insert k none p.idle }
  ]

  unfoldable pub close : Pool f → Pool f
  unfolding clear
  close p = clear (record p { closed = true })
