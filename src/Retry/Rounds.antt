-- ===== src/Retry/Rounds.antt =====
-- How often execute of RetryOnFailureOperation.h tries: impl/operations/RetryOnFailureOperation.h.
use cpp_client.Prelude.{
  ◌≡◌, refl, ℕ, zero, suc, ◌+◌, ◌*◌, ◌-◌, ◌<◌, ◌≤◌, Bool, true, false, [], Option, none, some, leb,
  if◌then◌else◌, arith,
}
use cpp_client.Exceptions.{Exception, Outcome, ok, throws, fault, internal}
use cpp_client.Retry.{
  Servers, Factory, Attempt, over, failed_by, should_retry, after_switch, next_count, try_on,
  next_round, after, execute_loop, execute,
}

module _ (f : Factory) where
  abbrev pub has_switched : Outcome Bool → ℕ
  has_switched (ok true) = 1
  has_switched _ = 0

  -- 1 where the end of this attempt asks for a switch of the cluster, and gets it.
  abbrev pub switch_at : ℕ → f.World → ℕ
  switch_at count w =
      if leb f.max_retries (count + 1) then has_switched (f.cluster_switch w).0 else 0

  abbrev pub Count : Type 0
  Count = ℕ → Servers → f.World → ℕ

  -- A number that is counted over the rounds that follow.
  abbrev pub later : Count → Servers → Outcome (Option ℕ) × f.World → ℕ
  later loop failed (ok (some count), w) = loop (count + 1) failed w
  later loop failed (ok none, w) = 0
  later loop failed (throws x, w) = 0
  later loop failed (fault, w) = 0

  abbrev pub switches_after : Count → ℕ → Attempt f → ℕ
  switches_after loop count (over r w) = 0
  switches_after loop count (failed_by e failed w) =
      switch_at count w + later loop failed (next_count f count w)

  -- The successful switches of the cluster in so many rounds.
  unfoldable pub switches : ℕ → Count
  switches zero count failed w = 0
  switches (suc fuel) count failed w =
      let attempt =
        switches_after (switches fuel) count (try_on f failed (f.get_transport failed w)) in
      if should_retry f count then attempt else 0

  -- The most attempts between two switches: the configured retries, but at least one.
  abbrev pub tries : ℕ
  tries = f.max_retries + (1 - f.max_retries)

  -- The attempts that are left before the next switch.
  abbrev left : ℕ → ℕ
  left count = f.max_retries - count + (1 - (f.max_retries - count))

  Ends : Option (Outcome f.Result × f.World) → Type 0
  Ends o = (x : Outcome f.Result × f.World) × (o ≡ some x)

  -- So many rounds are enough.
  Suffices : ℕ → Type 0
  Suffices fuel =
      (count : ℕ) (failed : Servers) (w : f.World)
      → switches fuel count failed w * tries + left count < fuel
      → Ends (execute_loop f fuel count failed w)

  after_switch-Ends :
      (fuel count : ℕ) (e : Exception) (failed : Servers) (x : Outcome Bool × f.World)
      → Suffices fuel
      → count ≤ f.max_retries
      → (has_switched x.0 + later (switches fuel) failed (after_switch f x)) * tries + left count
        < suc fuel
      → Ends (next_round f (execute_loop f fuel) e failed (after_switch f x))
  unfolding after_switch next_round Ends Suffices
  after_switch-Ends fuel count e failed (ok true, w) ih c h = ih 1 failed w (omega (arith, h, c))
  after_switch-Ends fuel count e failed (ok false, w) ih c h = ((throws e, w), refl)
  after_switch-Ends fuel count e failed (throws x, w) ih c h = ((throws x, w), refl)
  after_switch-Ends fuel count e failed (fault, w) ih c h = ((fault, w), refl)

  counted-Ends :
      (fuel count : ℕ) (e : Exception) (failed : Servers) (w : f.World) (last : Bool)
      → Suffices fuel
      → count ≤ f.max_retries
      → leb f.max_retries (count + 1) ≡ last
      → ((if last then has_switched (f.cluster_switch w).0 else 0)
              + later
                  (switches fuel)
                  failed
                  (if last then after_switch f (f.cluster_switch w) else (ok (some count), w)))
            * tries
          + left count
        < suc fuel
      → Ends (
          next_round f
            (execute_loop f fuel)
            e
            failed
            (if last then after_switch f (f.cluster_switch w) else (ok (some count), w)))
  unfolding next_round Ends Suffices
  counted-Ends fuel count e failed w true ih c b h =
      after_switch-Ends fuel count e failed (f.cluster_switch w) ih c h
  counted-Ends fuel count e failed w false ih c b h =
      let more : count + 1 < f.max_retries = ground (arith, b) in
      ih (count + 1) failed w (omega (arith, h, more))

  after-Ends :
      (fuel count : ℕ) (a : Attempt f)
      → Suffices fuel
      → count ≤ f.max_retries
      → switches_after (switches fuel) count a * tries + left count < suc fuel
      → Ends (after f (execute_loop f fuel) count a)
  unfolding after next_count Ends
  after-Ends fuel count (over r w) ih c h = ((r, w), refl)
  after-Ends fuel count (failed_by e failed w) ih c h =
      counted-Ends fuel count e failed w (leb f.max_retries (count + 1)) ih c refl h

  tried-Ends :
      (fuel count : ℕ) (a : Attempt f) (w : f.World) (go : Bool)
      → (go ≡ true → count ≤ f.max_retries)
      → Suffices fuel
      → (if go then switches_after (switches fuel) count a else 0) * tries + left count < suc fuel
      → Ends (elim go [
        | false ↦ some (throws internal, w)
        | true ↦ after f (execute_loop f fuel) count a
      ])
  unfolding Ends
  tried-Ends fuel count a w true c ih h = after-Ends fuel count a ih (c refl) h
  tried-Ends fuel count a w false c ih h = ((throws internal, w), refl)

  retries : (count : ℕ) → should_retry f count ≡ true → count ≤ f.max_retries
  unfolding should_retry
  retries count h = ground (arith, h)

  execute_loop-Ends : (fuel : ℕ) → Suffices fuel
  unfolding switches execute_loop Suffices
  execute_loop-Ends zero count failed w h = let bad : ⊥ = omega (arith, h) in elim bad [ ]
  execute_loop-Ends (suc fuel) count failed w h =
      tried-Ends fuel count (try_on f failed (f.get_transport failed w)) w (should_retry f count)
        (retries count) (execute_loop-Ends fuel) h

  -- Given more rounds than this many attempts, execute ends, with a result or with an exception that
  -- leaves it, whatever the transports, the operation, the handlers and the switches of the cluster
  -- answer or throw: the configured retries, or one if there are none, once and once more for each
  -- switch of the cluster that succeeds in those rounds.
  pub execute-ends :
      (fuel : ℕ) (w : f.World)
      → (switches fuel 0 [] w + 1) * tries < fuel
      → (x : Outcome f.Result × f.World) × (execute f fuel w ≡ some x)
  unfolding execute Ends Suffices
  execute-ends fuel w h = execute_loop-Ends fuel 0 [] w (omega (arith, h))
