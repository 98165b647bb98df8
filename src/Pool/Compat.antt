-- ===== src/Pool/Compat.antt =====
-- Borrowing with testOnBorrow from servers in compatibility mode: validateObject asks for SUCCESS.
use cpp_client.Prelude.{
  ◌∙◌, ◌||◌, ap, ℕ, zero, suc, ◌≡◌, refl, true, false, not, ◌&&◌, List, [], ◌∷◌, length, Option,
  none, some, if◌then◌else◌, arith,
}
use cpp_client.Prelude.Maps.{lookup-contains, lookup-inserted, lookup, contains, insert}
use cpp_client.Address.{Address, address_key}
use cpp_client.Exceptions.{Outcome, ok}
use cpp_client.Pool.State.{
  decrement, success_with_compat, ConnectionPoolConfiguration, ObjectFactory, Pool, is_ping_success,
  pinged, validate_object, make_object, destroy_object, poll_idle, queue_size,
}
use cpp_client.Pool.Borrow.{
  Round, tests, round, is_valid, lend_or_drop, find_object, can_make, make_or_wait, popped, room_on,
  below_max_active, has_reached_max_total, borrow_loop, go_on, borrow_object, borrow_polled,
}

-- A server in compatibility mode answers each ping with SUCCESS_WITH_COMPAT.
pub record NeverValid (f : ObjectFactory) (c : ConnectionPoolConfiguration) : Type 0 where
  pub tested : c.test_on_borrow ≡ true
  pub unlimited : c.max_active ≡ none
  pub no_total : c.max_total ≡ 0
  pub made :
      (k : Address) (w : f.World) → (t : ℕ) × (w' : f.World) × (f.make_object k w ≡ (ok t, w'))
  pub compat : (t : ℕ) (w : f.World) → (w' : f.World) × (f.ping t w ≡ (ok success_with_compat, w'))

module _ (f : ObjectFactory) (c : ConnectionPoolConfiguration) (n : NeverValid f c) where
  abbrev pub IsReady : Address → Pool f → Type 0
  IsReady k p =
      (q : List ℕ) × (b : List ℕ) × (lookup k p.idle ≡ some (some q))
      × (lookup k p.busy ≡ some (some b))

  abbrev GoesOn : Address → Outcome (Round f c) × Pool f → Type 0
  GoesOn k x = (t : ℕ) × (p : Pool f) × (x ≡ (ok (tests t), p)) × IsReady k p

  made-GoesOn : (k : Address) (p : Pool f) → IsReady k p → GoesOn k (make_or_wait f c k true p)
  unfolding make_or_wait make_object
  made-GoesOn k p r =
      let (t, w, e) = n.made k p.world in (t, record p { world = w }, rw (e, make_object) refl, r)

  popped-GoesOn :
      (k : Address) (t : ℕ) (q b : List ℕ) (p : Pool f)
      → lookup k p.idle ≡ some (some (t ∷ q))
      → lookup k p.busy ≡ some (some b)
      → GoesOn k (make_or_wait f c k false p)
  unfolding make_or_wait poll_idle popped
  popped-GoesOn k t q b p e e' = (
    t,
    record p { idle = insert k (some q) p.idle; total_idle = decrement p.total_idle },
    rw (e, poll_idle) refl,
    (q, b, lookup-inserted k (some q) p.idle, e'),
  )

  unlimited-below : (size : ℕ) → below_max_active f c size c.max_active ≡ true
  unfolding below_max_active
  unlimited-below size = ap (below_max_active f c size) n.unlimited

  unlimited-reached : (p : Pool f) → has_reached_max_total f c p ≡ false
  unfolding has_reached_max_total
  unlimited-reached p = ground (arith, n.no_total)

  can_make-empty :
      (k : Address) (b : List ℕ) (p : Pool f)
      → lookup k p.idle ≡ some (some [])
      → lookup k p.busy ≡ some (some b)
      → can_make f c k p ≡ (ok true, p)
  unfolding can_make room_on queue_size
  can_make-empty k b p e e' =
      rw (e, queue_size)
        (rw (e', queue_size) (rw (unlimited-below (length b)) (rw (unlimited-reached p) refl)))

  can_make-full :
      (k : Address) (t : ℕ) (q b : List ℕ) (p : Pool f)
      → lookup k p.idle ≡ some (some (t ∷ q))
      → lookup k p.busy ≡ some (some b)
      → can_make f c k p ≡ (ok false, p)
  unfolding can_make room_on queue_size
  can_make-full k t q b p e e' = rw (e, queue_size) (rw (e', queue_size) (ground arith))

  found-GoesOn : (k : Address) (p : Pool f) → IsReady k p → GoesOn k (find_object f c k p)
  unfolding find_object
  found-GoesOn k p ([], b, e, e') = rw (can_make-empty k b p e e') (made-GoesOn k p ([], b, e, e'))
  found-GoesOn k p (t ∷ q, b, e, e') =
      rw (can_make-full k t q b p e e') (popped-GoesOn k t q b p e e')

  dropped-GoesOn :
      (k : Address) (t : ℕ) (p : Pool f) → IsReady k p → GoesOn k (lend_or_drop f c k t false p)
  unfolding lend_or_drop destroy_object
  dropped-GoesOn k t p r = found-GoesOn k (record p { world = f.destroy_object k t p.world }) r

  is_valid-compat :
      (t : ℕ) (p : Pool f) → (w : f.World) × (is_valid f c t p ≡ (ok false, record p { world = w }))
  unfolding is_valid validate_object pinged is_ping_success
  is_valid-compat t p =
      let (w, e) = n.compat t p.world in
      let tested = ap (λ b. if b then validate_object f t p else (ok true, p)) n.tested in
      (w, tested ∙ ap (λ x. pinged f x p) e)

  round-GoesOn :
      (k : Address) (obj : Option ℕ) (p : Pool f) → IsReady k p → GoesOn k (round f c k obj p)
  unfolding round
  round-GoesOn k none p r = found-GoesOn k p r
  round-GoesOn k (some t) p r =
      let (w, e) = is_valid-compat t p in rw e (dropped-GoesOn k t (record p { world = w }) r)

  loop-none :
      (fuel : ℕ) (k : Address) (obj : Option ℕ) (p : Pool f)
      → IsReady k p
      → borrow_loop f c fuel k obj p ≡ none
  unfolding borrow_loop go_on
  loop-none zero k obj p r = refl
  loop-none (suc fuel) k obj p r =
      let (t, q, e, r') = round-GoesOn k obj p r in rw e (loop-none fuel k (some t) q r')

  polled-none :
      (fuel : ℕ) (k : Address) (p : Pool f)
      → IsReady k p
      → borrow_polled f c fuel k (poll_idle f k p) ≡ none
  unfolding borrow_polled poll_idle
  polled-none fuel k p ([], b, e, e') = rw (e, poll_idle) (loop-none fuel k none p ([], b, e, e'))
  polled-none fuel k p (t ∷ q, b, e, e') =
      rw (e, poll_idle) (loop-none fuel k (some t) _ (q, b, lookup-inserted k (some q) p.idle, e'))

  -- With testOnBorrow, no limits, and servers in compatibility mode, borrowing from an open pool that
  -- knows the server makes and drops transports for ever.
  pub borrow_object-for_ever :
      (fuel : ℕ) (k : Address) (p : Pool f)
      → p.closed ≡ false
      → IsReady k p
      → borrow_object f c fuel k p ≡ none
  unfolding borrow_object
  borrow_object-for_ever fuel k p open_ (q, b, e, e') =
      let known : (p.closed || not (contains k p.idle && contains k p.busy)) ≡ false =
        ground (
          arith,
          open_,
          lookup-contains k (some q) p.idle e,
          lookup-contains k (some b) p.busy e',
        ) in
      rw known (polled-none fuel k p (q, b, e, e'))
