-- ===== src/TransportFactory/Adding.antt =====
-- Adding servers to the pool: each gets its queues, and no other loses one.
use cpp_client.Prelude.{
  ℕ, zero, suc, ◌≡◌, refl, sym, subst, Bool, true, false, ◌||◌, List, [], ◌∷◌, ◌++◌, Option, none,
  some, arith, if◌then◌else◌,
}
use cpp_client.Prelude.Maps.{
  lookup-absent, contains, contains-insert, contains-erase, lookup, lookup-contains, lookup-insert,
  lookup-erase,
}
use cpp_client.Address.{Address, address_same, address_same_iff, address_key}
use cpp_client.Exceptions.{Outcome, ok, throws, fault, Run, then_run}
use cpp_client.Pool.State.{
  ConnectionPoolConfiguration, ObjectFactory, Pool, Queues, make_object, push_idle,
}
use cpp_client.Pool.Borrow.{
  add_object, add_queue, ensure_min_idle, calculate_min_idle_grow, grow, make_idle,
}
use cpp_client.Pool.Return.{clear_key}
use cpp_client.TransportFactory.Sets.{mem}
use cpp_client.Transactions.Steps.{OnOk, OnOk-map}
use cpp_client.TransportFactory.Servers.{add_each}

abbrev pub is_null : Option (Option (List ℕ)) → Bool
is_null (some none) = true
is_null (some (some q)) = false
is_null none = false

-- Every server that stands in `idle` stands in `busy`, and no entry of the two is a null pointer: it
-- has a queue of idle transports and one of those lent.
pub record IsPaired (f : ObjectFactory) (p : Pool f) : Type 0 where
  pub both : (j : Address) → contains j p.idle ≡ true → contains j p.busy ≡ true
  pub idle_whole : (j : Address) → is_null (lookup j p.idle) ≡ false
  pub busy_whole : (j : Address) → is_null (lookup j p.busy) ≡ false

module _ (f : ObjectFactory) where
  -- No server loses its queue.
  pub record Onward (p q : Pool f) : Type 0 where
    pub kept : (j : Address) → contains j p.idle ≡ true → contains j q.idle ≡ true
    pub paired : IsPaired f p → IsPaired f q

  stays : (p : Pool f) → Onward p p
  stays p = record { kept = λ j h. h; paired = λ h. h }

  one_after_other : {p q r : Pool f} → Onward p q → Onward q r → Onward p r
  one_after_other one two = record {
    kept = λ j h. two.kept j (one.kept j h);
    paired = λ h. two.paired (one.paired h);
  }

  made-Onward : (k : Address) (p : Pool f) → Onward p (make_object f k p).1
  unfolding make_object
  made-Onward k p = record {
    kept = λ j h. h;
    paired = λ h. record { both = h.both; idle_whole = h.idle_whole; busy_whole = h.busy_whole };
  }

  pushed-Onward :
      (k : Address) (t : ℕ) (p : Pool f) (o : Option (Option (List ℕ)))
      → lookup k p.idle ≡ o
      → Onward p (push_idle f k t p).1
  unfolding push_idle
  pushed-Onward k t p none e = rw (e, push_idle) (stays p)
  pushed-Onward k t p (some none) e = rw (e, push_idle) (stays p)
  pushed-Onward k t p (some (some q)) e =
      let there = lookup-contains k (some q) p.idle e in
      rw (e, push_idle)
        (record {
          kept = λ j h. ground (arith, h, contains-insert k j (some (q ++ (t ∷ []))) p.idle);
          paired = λ h. record {
            both = λ j g. h.both j (
                ground (
                  arith,
                  g,
                  there,
                  address_same_iff k j,
                  contains-insert k j (some (q ++ (t ∷ []))) p.idle,
                ));
            idle_whole = λ j.
                ground (arith, h.idle_whole j, lookup-insert k j (some (q ++ (t ∷ []))) p.idle);
            busy_whole = h.busy_whole;
          };
        })

  then_run-Onward :
      {A B : Type 0} (p : Pool f) (k : A → Run (Pool f) B) (x : Outcome A × Pool f)
      → Onward p x.1
      → ((a : A) (q : Pool f) → Onward q (k a q).1)
      → Onward p (then_run k x).1
  then_run-Onward p k (ok a, q) one two = one_after_other one (two a q)
  then_run-Onward p k (throws e, q) one two = one
  then_run-Onward p k (fault, q) one two = one

  module _ (c : ConnectionPoolConfiguration) where
    grow-Onward : (n : ℕ) (k : Address) (p : Pool f) → Onward p (grow f c n k p).1
    unfolding grow make_idle
    grow-Onward zero k p = stays p
    grow-Onward (suc n) k p =
        then_run-Onward p (λ _. grow f c n k) (make_idle f c k p)
          (then_run-Onward p (push_idle f k) (make_object f k p) (made-Onward k p)
            λ t q. pushed-Onward k t q (lookup k q.idle) refl)
          λ _ q. grow-Onward n k q

    counted-same : (k : Address) (p : Pool f) → (calculate_min_idle_grow f c k p).1 ≡ p
    unfolding calculate_min_idle_grow
    counted-same k p = ground arith

    ensured-Onward : (k : Address) (p : Pool f) → Onward p (ensure_min_idle f c k p).1
    unfolding ensure_min_idle
    ensured-Onward k p =
        then_run-Onward p (λ n. grow f c n k) (calculate_min_idle_grow f c k p)
          (subst (Onward p) (sym (counted-same k p)) (stays p)) λ n q. grow-Onward n k q

    contains-add_queue :
        (k j : Address) (m : Queues)
        → contains j (add_queue k m) ≡ (address_same k j || contains j m)
    unfolding add_queue
    contains-add_queue k j m = ground (arith, contains-insert k j (some []) m, address_same_iff k j)

    whole-add_queue :
        (k j : Address) (m : Queues)
        → is_null (lookup j m) ≡ false
        → is_null (lookup j (add_queue k m)) ≡ false
    unfolding add_queue
    whole-add_queue k j m h = ground (arith, h, lookup-insert k j (some []) m)

    -- Clearing a server leaves the queues of the others.
    pub record Kept (k : Address) (p q : Pool f) : Type 0 where
      pub kept :
          (j : Address)
          → address_same k j ≡ false
          → contains j p.idle ≡ true
          → contains j q.idle ≡ true
      pub paired : IsPaired f p → IsPaired f q

    -- addObject gives the server its queues.
    record Adds (k : Address) (p q : Pool f) : Type 0 where
      onward : Onward p q
      added : contains k q.idle ≡ true

    opened-Onward :
        (k : Address) (p : Pool f)
        → Onward p (record p { idle = add_queue k p.idle; busy = add_queue k p.busy })
    opened-Onward k p = record {
      kept = λ j h. ground (arith, h, contains-add_queue k j p.idle);
      paired = λ h. record {
        both = λ j g.
            ground
              (arith, g, h.both j, contains-add_queue k j p.idle, contains-add_queue k j p.busy);
        idle_whole = λ j. whole-add_queue k j p.idle (h.idle_whole j);
        busy_whole = λ j. whole-add_queue k j p.busy (h.busy_whole j);
      };
    }

    if_pool :
        {A : Type 0} (P : Pool f → Type 0) (b : Bool) (x y : Outcome A × Pool f)
        → (b ≡ true → P x.1)
        → (b ≡ false → P y.1)
        → P (if b then x else y).1
    if_pool P true x y t e = t refl
    if_pool P false x y t e = e refl

    add_object-Adds : (k : Address) (p : Pool f) → Adds k p (add_object f c k p).1
    unfolding add_object
    add_object-Adds k p =
        let opened = record p { idle = add_queue k p.idle; busy = add_queue k p.busy } in
        let ensured = ensured-Onward k opened in
        if_pool (Adds k p) (contains k p.idle) (ok tt, p) (ensure_min_idle f c k opened)
          (λ here. record { onward = stays p; added = here })
          (λ _. record {
            onward = one_after_other (opened-Onward k p) ensured;
            added =
                ensured.kept k
                  (ground (arith, contains-add_queue k k p.idle, address_same_iff k k));
          })

    pub record AddsEach (ks : List Address) (p q : Pool f) : Type 0 where
      pub onward : Onward p q
      pub added : (j : Address) → mem j ks ≡ true → contains j q.idle ≡ true

    after_one :
        (k : Address) (ks : List Address) (p : Pool f) (x : Outcome (Unit {0}) × Pool f)
        → Adds k p x.1
        → ((q : Pool f) → OnOk (λ _ r. AddsEach ks q r) (add_each f c ks q))
        → OnOk (λ _ r. AddsEach (k ∷ ks) p r) (then_run (λ _. add_each f c ks) x)
    unfolding mem
    after_one k ks p (throws e, q) one later = tt
    after_one k ks p (fault, q) one later = tt
    after_one k ks p (ok _, q) one later =
        OnOk-map (λ _ r. AddsEach ks q r) (λ _ r. AddsEach (k ∷ ks) p r) (add_each f c ks q)
          (later q)
          λ _ r two. record {
            onward = one_after_other one.onward two.onward;
            added = λ j h.
                ground (arith, h, two.added j, two.onward.kept k one.added, address_same_iff k j);
          }

    pub add_each-AddsEach :
        (ks : List Address) (p : Pool f) → OnOk (λ _ q. AddsEach ks p q) (add_each f c ks p)
    unfolding add_each mem
    add_each-AddsEach [] p = record { onward = stays p; added = λ j h. ground (arith, h) }
    add_each-AddsEach (k ∷ ks) p =
        after_one k ks p (add_object f c k p) (add_object-Adds k p) (add_each-AddsEach ks)

    -- However it ends, no server loses its queue.
    pub add_each-Onward : (ks : List Address) (p : Pool f) → Onward p (add_each f c ks p).1
    unfolding add_each
    add_each-Onward [] p = stays p
    add_each-Onward (k ∷ ks) p =
        then_run-Onward p (λ _. add_each f c ks) (add_object f c k p) (add_object-Adds k p).onward
          λ _ q. add_each-Onward ks q

    pub cleared :
        (k : Address) (p : Pool f) (o : Option (Option (List ℕ)))
        → lookup k p.idle ≡ o
        → contains k p.idle ≡ true
        → Kept k p (clear_key f k p)
    unfolding clear_key
    cleared k p none e h = ground (arith, h, lookup-absent k p.idle e)
    cleared k p (some none) e h = rw (e, clear_key) (record { kept = λ j _ g. g; paired = λ g. g })
    cleared k p (some (some q)) e h =
        rw (e, clear_key)
          (record {
            kept = λ j other g. ground (arith, g, other, contains-erase k j p.idle);
            paired = λ g. record {
              both = λ j there. g.both j (ground (arith, there, contains-erase k j p.idle));
              idle_whole = λ j. ground (arith, g.idle_whole j, lookup-erase k j p.idle);
              busy_whole = g.busy_whole;
            };
          })
