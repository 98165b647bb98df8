-- ===== src/Pool/Counts.antt =====
-- The counters of the pool, and how its sections keep them.
use cpp_client.Prelude.{
  if◌then◌else◌, suc, ℕ, ◌+◌, ◌≤◌, ◌<◌, ◌≡◌, refl, Bool, true, false, List, [], ◌∷◌, ◌++◌, length,
  length-append, Option, none, some, arith,
}
use cpp_client.Prelude.Words.{u32}
use cpp_client.Prelude.Maps.{
  lookup, insert, is_unique, is_unique-insert, total, total-insert, measure_at,
}
use cpp_client.Address.{Address, address_key}
use cpp_client.Exceptions.{Outcome, ok, throws, fault, Run, then_run, ◌>>=◌}
use cpp_client.Pool.State.{
  PingResult, ConnectionPoolConfiguration, ObjectFactory, Queues, Pool, make_object, destroy_object,
  validate_object, push_idle, poll_idle, push_busy, pinged,
}

abbrev pub size_of : Option (List ℕ) → ℕ
size_of none = 0
size_of (some q) = length q

-- The transports in all queues of a map.
abbrev pub count : Queues → ℕ
count m = total size_of m

pub count-insert :
    (k : Address) (old new : Option (List ℕ)) (m : Queues)
    → lookup k m ≡ some old
    → count (insert k new m) + size_of old ≡ count m + size_of new
count-insert k old new m e =
    let at_key : measure_at size_of k m ≡ size_of old = rw (e, measure_at) refl in
    omega (arith, total-insert size_of k new m, at_key)

-- Each counter is the number of transports in its queues, as far as 32 bits tell, and with `held`
-- transports that are between the queues the pool keeps to maxTotal and `extra` more.
pub record Sound (f : ObjectFactory) (c : ConnectionPoolConfiguration) (extra held : ℕ) (p : Pool f)
    : Type 0 where
  pub idle_unique : is_unique p.idle ≡ true
  pub busy_unique : is_unique p.busy ≡ true
  pub idle_counted : p.total_idle ≡ u32 (count p.idle)
  pub busy_counted : p.total_active ≡ u32 (count p.busy)
  pub within : 0 < c.max_total → count p.idle + count p.busy + held ≤ c.max_total + extra

-- What an answer holds.
abbrev pub held_by : {A : Type 0} → (A → ℕ) → Outcome A → ℕ
held_by g (ok a) = g a
held_by g (throws e) = 0
held_by g fault = 0

abbrev pub held_if : Bool → ℕ
held_if true = 1
held_if false = 0

abbrev pub held_in : {A : Type 0} → Option A → ℕ
held_in (some a) = 1
held_in none = 0

module _ (f : ObjectFactory) (c : ConnectionPoolConfiguration) (extra : ℕ) where
  abbrev pub Answers : {A : Type 0} → (A → ℕ) → Outcome A × Pool f → Type 0
  Answers g x = Sound f c extra (held_by g x.0) x.1

  pub if-Answers :
      {A : Type 0} (g : A → ℕ) (b : Bool) (x y : Outcome A × Pool f)
      → (b ≡ true → Answers g x)
      → (b ≡ false → Answers g y)
      → Answers g (if b then x else y)
  if-Answers g true x y t e = t refl
  if-Answers g false x y t e = e refl

  -- A section that starts with `held` transports in hand ends with those of its answer.
  pub record Keeps {A : Type 0} (held : ℕ) (m : Run (Pool f) A) (g : A → ℕ) : Type 0 where
    pub keeps : (p : Pool f) → Sound f c extra held p → Answers g (m p)

  pub then_run-Answers :
      {A B : Type 0} (g : A → ℕ) {g' : B → ℕ} {k : A → Run (Pool f) B} (x : Outcome A × Pool f)
      → Answers g x
      → ((a : A) → Keeps (g a) (k a) g')
      → Answers g' (then_run k x)
  then_run-Answers g (ok a, p) s later = (later a).keeps p s
  then_run-Answers g (throws e, p) s later = s
  then_run-Answers g (fault, p) s later = s

  pub >>=-Keeps :
      {A B : Type 0} {held : ℕ} {m : Run (Pool f) A} {k : A → Run (Pool f) B} (g : A → ℕ)
      {g' : B → ℕ}
      → Keeps held m g
      → ((a : A) → Keeps (g a) (k a) g')
      → Keeps held (m >>= k) g'
  >>=-Keeps {m = m} g first later = record {
    keeps = λ p s. then_run-Answers g (m p) (first.keeps p s) later;
  }

  pub fewer :
      {p : Pool f} (held less : ℕ) → less ≤ held → Sound f c extra held p → Sound f c extra less p
  fewer held less h s = record {
    idle_unique = s.idle_unique;
    busy_unique = s.busy_unique;
    idle_counted = s.idle_counted;
    busy_counted = s.busy_counted;
    within = λ pos. omega (arith, s.within pos);
  }

  pub in_world :
      {p : Pool f} {held : ℕ} (w : f.World)
      → Sound f c extra held p
      → Sound f c extra held (record p { world = w })
  in_world w s = record {
    idle_unique = s.idle_unique;
    busy_unique = s.busy_unique;
    idle_counted = s.idle_counted;
    busy_counted = s.busy_counted;
    within = s.within;
  }

  pushed_idle :
      (held : ℕ) (k : Address) (t : ℕ) (p : Pool f)
      → Sound f c extra (suc held) p
      → (o : Option (Option (List ℕ))) → lookup k p.idle ≡ o
      → Answers (λ _. held) (push_idle f k t p)
  unfolding push_idle
  pushed_idle held k t p s none e = rw (e, push_idle) (fewer (suc held) 0 (omega arith) s)
  pushed_idle held k t p s (some none) e = rw (e, push_idle) (fewer (suc held) 0 (omega arith) s)
  pushed_idle held k t p s (some (some q)) e =
      let added = count-insert k (some q) (some (q ++ (t ∷ []))) p.idle e in
      let longer = length-append q (t ∷ []) in
      rw (e, push_idle)
        (record {
          idle_unique = is_unique-insert k (some (q ++ (t ∷ []))) p.idle s.idle_unique;
          busy_unique = s.busy_unique;
          idle_counted = omega (arith, s.idle_counted);
          busy_counted = s.busy_counted;
          within = λ pos. omega (arith, s.within pos);
        })

  pub push_idle-Keeps :
      (held : ℕ) (k : Address) (t : ℕ) → Keeps (suc held) (push_idle f k t) (λ _. held)
  push_idle-Keeps held k t = record {
    keeps = λ p s. pushed_idle held k t p s (lookup k p.idle) refl;
  }

  polled_idle :
      (k : Address) (p : Pool f)
      → Sound f c extra 0 p
      → (o : Option (Option (List ℕ))) → lookup k p.idle ≡ o
      → Answers held_in (poll_idle f k p)
  unfolding poll_idle
  polled_idle k p s none e = rw (e, poll_idle) s
  polled_idle k p s (some none) e = rw (e, poll_idle) s
  polled_idle k p s (some (some [])) e = rw (e, poll_idle) s
  polled_idle k p s (some (some (t ∷ q))) e =
      let taken = count-insert k (some (t ∷ q)) (some q) p.idle e in
      rw (e, poll_idle)
        (record {
          idle_unique = is_unique-insert k (some q) p.idle s.idle_unique;
          busy_unique = s.busy_unique;
          idle_counted = omega (arith, s.idle_counted);
          busy_counted = s.busy_counted;
          within = λ pos. omega (arith, s.within pos);
        })

  pub poll_idle-Keeps : (k : Address) → Keeps 0 (poll_idle f k) held_in
  poll_idle-Keeps k = record { keeps = λ p s. polled_idle k p s (lookup k p.idle) refl }

  pushed_busy :
      (k : Address) (t : ℕ) (p : Pool f)
      → Sound f c extra 1 p
      → (o : Option (Option (List ℕ))) → lookup k p.busy ≡ o
      → Answers (λ _. 0) (push_busy f k t p)
  unfolding push_busy
  pushed_busy k t p s none e = rw (e, push_busy) (fewer 1 0 (omega arith) s)
  pushed_busy k t p s (some none) e = rw (e, push_busy) (fewer 1 0 (omega arith) s)
  pushed_busy k t p s (some (some q)) e =
      let added = count-insert k (some q) (some (q ++ (t ∷ []))) p.busy e in
      let longer = length-append q (t ∷ []) in
      rw (e, push_busy)
        (record {
          idle_unique = s.idle_unique;
          busy_unique = is_unique-insert k (some (q ++ (t ∷ []))) p.busy s.busy_unique;
          idle_counted = s.idle_counted;
          busy_counted = omega (arith, s.busy_counted);
          within = λ pos. omega (arith, s.within pos);
        })

  pub push_busy-Keeps : (k : Address) (t : ℕ) → Keeps 1 (push_busy f k t) (λ _. 0)
  push_busy-Keeps k t = record { keeps = λ p s. pushed_busy k t p s (lookup k p.busy) refl }

  made-Answers :
      (held : ℕ) (p : Pool f) (x : Outcome ℕ × f.World)
      → Sound f c extra held p
      → Answers (λ _. held) (let (t, w) = x in (t, record p { world = w }))
  made-Answers held p (ok t, w) s = in_world w s
  made-Answers held p (throws e, w) s = fewer held 0 (omega arith) (in_world w s)
  made-Answers held p (fault, w) s = fewer held 0 (omega arith) (in_world w s)

  pub make_object-Keeps : (held : ℕ) (k : Address) → Keeps held (make_object f k) (λ _. held)
  unfolding make_object
  make_object-Keeps held k = record {
    keeps = λ p s. made-Answers held p (f.make_object k p.world) s;
  }

  pub destroy_object-Keeps :
      (held : ℕ) (k : Address) (t : ℕ) → Keeps held (destroy_object f k t) (λ _. held)
  unfolding destroy_object
  destroy_object-Keeps held k t = record {
    keeps = λ p s. in_world (f.destroy_object k t p.world) s;
  }

  pinged-Answers :
      (held : ℕ) (p : Pool f) (x : Outcome PingResult × f.World)
      → Sound f c extra held p
      → Answers (λ _. held) (pinged f x p)
  unfolding pinged
  pinged-Answers held p (ok r, w) s = in_world w s
  pinged-Answers held p (throws e, w) s = fewer held 0 (omega arith) (in_world w s)
  pinged-Answers held p (fault, w) s = fewer held 0 (omega arith) (in_world w s)

  pub validate_object-Keeps : (held : ℕ) (t : ℕ) → Keeps held (validate_object f t) (λ _. held)
  unfolding validate_object
  validate_object-Keeps held t = record {
    keeps = λ p s. pinged-Answers held p (f.ping t p.world) s;
  }
