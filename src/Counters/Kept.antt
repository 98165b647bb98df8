-- ===== src/Counters/Kept.antt =====
-- A counter that was given out stands for its name until it is removed.
use cpp_client.Prelude.{
  ◌≡◌, refl, ◌∙◌, ap, ℕ, zero, suc, Bool, true, false, List, [], ◌∷◌, ◌++◌, length, get_elem?,
  Option, none, some, All, arith,
}
use cpp_client.Prelude.Maps.{
  bytes_key, bytes_same, bytes_same_iff, lookup, insert, lookup-insert, lookup-erase,
}
use cpp_client.Exceptions.{Outcome, ok, throws, fault, client}
use cpp_client.Managers.Steps.{if-both}
use cpp_client.Transactions.Steps.{OnOk, OnOk-map}
use cpp_client.Counters.Configuration.{CounterConfiguration}
use cpp_client.Counters.Manager.{
  CounterServers, CounterManager, Counter, Kind, strong_counter, weak_counter, is_kind, is_weak,
  kind_of, keep_counter, found_counter, get_strong_counter, get_weak_counter, set_removed,
  forget_counter, remove_counter, define_counter,
}
use cpp_client.Counters.Listeners.{add_listener, remove_listener}
use cpp_client.Counters.Same.{Same-Stands, added-Same, removed-Same}
use cpp_client.Counters.Standing.{Stands, found, again}

-- The calls of the application.
pub data CounterCall : Type 0 where
  gets_strong : List ℕ → CounterCall
  gets_weak : List ℕ → CounterCall
  defines : List ℕ → CounterConfiguration → CounterCall
  removes : List ℕ → CounterCall
  adds_listener : List ℕ → List ℕ → ℕ → CounterCall
  removes_listener : List ℕ → ℕ → CounterCall

-- The call removes the counter of this name.
abbrev pub is_removal : List ℕ → CounterCall → Bool
is_removal name (removes n) = bytes_same n name
is_removal name _ = false

append_elem :
    (cs : List Counter) (x c : Counter) (a : ℕ)
    → get_elem? cs a ≡ some c
    → get_elem? (cs ++ (x ∷ [])) a ≡ some c
append_elem [] x c a e = ground (arith, e)
append_elem (y ∷ cs) x c zero e = e
append_elem (y ∷ cs) x c (suc a) e = append_elem cs x c a e

-- A removal marks a counter and leaves its kind.
marked :
    (b : ℕ) (cs : List Counter) (a : ℕ) (c : Counter)
    → get_elem? cs a ≡ some c
    → (d : Counter) × ((get_elem? (set_removed b cs) a ≡ some d) × (d.kind ≡ c.kind))
unfolding set_removed
marked b [] a c e = ground (arith, e)
marked zero (y ∷ cs) zero c e = (record y { removed = true }, (refl, ground (arith, e)))
marked zero (y ∷ cs) (suc a) c e = (c, (e, refl))
marked (suc b) (y ∷ cs) zero c e = (c, (e, refl))
marked (suc b) (y ∷ cs) (suc a) c e = marked b cs a c e

module _ (r : CounterServers) where
  unfoldable pub counter_step : CounterManager r → CounterCall → CounterManager r
  counter_step s (gets_strong n) = (get_strong_counter r n s).1
  counter_step s (gets_weak n) = (get_weak_counter r n s).1
  counter_step s (defines n c) = (define_counter r n c s).1
  counter_step s (removes n) = (remove_counter r n s).1
  counter_step s (adds_listener fresh n l) = (add_listener r fresh n l s).1
  counter_step s (removes_listener n l) = (remove_listener r n l s).1

  unfoldable pub run : CounterManager r → List CounterCall → CounterManager r
  unfolding counter_step
  run s [] = s
  run s (c ∷ cs) = run (counter_step s c) cs

  -- A counter of another name is made or refused.
  kept-Stands :
      (k j : Kind) (name n : List ℕ) (a : ℕ) (x : Outcome CounterConfiguration × r.World)
      (s : CounterManager r)
      → lookup n s.counters ≡ none
      → Stands r k name a s
      → Stands r k name a (keep_counter r j n x s).1
  unfolding keep_counter
  kept-Stands k j name n a (throws e, w) s absent h =
      Same-Stands r k name a s _ (record { same_counters = refl; same_made = refl }) h
  kept-Stands k j name n a (fault, w) s absent h =
      Same-Stands r k name a s _ (record { same_counters = refl; same_made = refl }) h
  kept-Stands k j name n a (ok cc, w) s absent h =
      let new : Counter = record { kind = j; name = n; configuration = cc; removed = false } in
      let other : CounterManager r = record s {
        made = s.made ++ (new ∷ []);
        counters = insert n (length s.made) s.counters;
        world = w;
      } in
      if-both (λ (y : Outcome ℕ × CounterManager r). Stands r k name a y.1)
        (is_kind j (kind_of (is_weak cc.type))) (ok (length s.made), other)
        (throws client, record s { world = w })
        (λ same. record {
          found = ground (
            arith,
            absent,
            h.found,
            lookup-insert n name (length s.made) s.counters,
            bytes_same_iff n name,
          );
          counter = h.counter;
          there = append_elem s.made new h.counter a h.there;
          kind_is = h.kind_is;
        })
        λ differs. Same-Stands r k name a s _ (record { same_counters = refl; same_made = refl }) h

  found-Stands :
      (k j : Kind) (name n : List ℕ) (a : ℕ) (o : Option ℕ) (s : CounterManager r)
      → lookup n s.counters ≡ o
      → Stands r k name a s
      → Stands r k name a (found_counter r j n o s).1
  unfolding found_counter
  found-Stands k j name n a none s e h =
      kept-Stands k j name n a (r.get_configuration n s.world) s e h
  found-Stands k j name n a (some b) s e h = h

  forgotten-Stands :
      (k : Kind) (name n : List ℕ) (a : ℕ) (o : Option ℕ) (x : Outcome (Unit {0}) × r.World)
      (s : CounterManager r)
      → bytes_same n name ≡ false
      → Stands r k name a s
      → Stands r k name a (forget_counter r n o x s).1
  unfolding forget_counter
  forgotten-Stands k name n a (some b) (ok _, w) s other h =
      let (d, (there, same)) = marked b s.made a h.counter h.there in
      record {
        found = ground (arith, other, h.found, lookup-erase n name s.counters);
        counter = d;
        there = there;
        kind_is = ap (is_kind k) same ∙ h.kind_is;
      }
  forgotten-Stands k name n a none (ok _, w) s other h =
      Same-Stands r k name a s _ (record { same_counters = refl; same_made = refl }) h
  forgotten-Stands k name n a o (throws e, w) s other h =
      Same-Stands r k name a s _ (record { same_counters = refl; same_made = refl }) h
  forgotten-Stands k name n a o (fault, w) s other h =
      Same-Stands r k name a s _ (record { same_counters = refl; same_made = refl }) h

  counter_step-Stands :
      (k : Kind) (name : List ℕ) (a : ℕ) (c : CounterCall) (s : CounterManager r)
      → is_removal name c ≡ false
      → Stands r k name a s
      → Stands r k name a (counter_step s c)
  unfolding counter_step get_strong_counter get_weak_counter define_counter remove_counter
      add_listener remove_listener
  counter_step-Stands k name a (gets_strong n) s other h =
      found-Stands k strong_counter name n a (lookup n s.counters) s refl h
  counter_step-Stands k name a (gets_weak n) s other h =
      found-Stands k weak_counter name n a (lookup n s.counters) s refl h
  counter_step-Stands k name a (defines n c) s other h =
      Same-Stands r k name a s _ (record { same_counters = refl; same_made = refl }) h
  counter_step-Stands k name a (removes n) s other h =
      forgotten-Stands k name n a (lookup n s.counters) (r.remove_counter n s.world) s other h
  counter_step-Stands k name a (adds_listener fresh n l) s other h =
      Same-Stands r k name a s _ (added-Same r fresh n l s.dispatcher s) h
  counter_step-Stands k name a (removes_listener n l) s other h =
      Same-Stands r k name a s _ (removed-Same r n l s.dispatcher s) h

  run-Stands :
      (k : Kind) (name : List ℕ) (a : ℕ) (cs : List CounterCall) (s : CounterManager r)
      → All (λ c. is_removal name c ≡ false) cs
      → Stands r k name a s
      → Stands r k name a (run s cs)
  unfolding run
  run-Stands k name a [] s others h = h
  run-Stands k name a (c ∷ cs) s (other, others) h =
      run-Stands k name a cs (counter_step s c) others (counter_step-Stands k name a c s other h)

  -- Once a strong counter was given out under a name, and after any other calls on counters and
  -- listeners, of which none removes the counter of that name, the same one is given out for that name
  -- again, without a call of the server; as a weak counter it is cast to a class that it is not of.
  pub get_strong_counter-kept :
      (name : List ℕ) (s : CounterManager r) (cs : List CounterCall)
      → All (λ c. is_removal name c ≡ false) cs
      → OnOk
          (λ a s'.
            (get_strong_counter r name (run s' cs) ≡ (ok a, run s' cs))
            × (get_weak_counter r name (run s' cs) ≡ (fault, run s' cs)))
          (get_strong_counter r name s)
  unfolding get_strong_counter get_weak_counter is_kind
  get_strong_counter-kept name s cs others =
      OnOk-map (λ a s'. Stands r strong_counter name a s')
        (λ a s'.
          (get_strong_counter r name (run s' cs) ≡ (ok a, run s' cs))
          × (get_weak_counter r name (run s' cs) ≡ (fault, run s' cs)))
        (get_strong_counter r name s) (found r strong_counter name (lookup name s.counters) s refl)
        λ a s' h.
          let kept = run-Stands strong_counter name a cs s' others h in
          (
            again r strong_counter strong_counter name a (run s' cs) kept,
            again r strong_counter weak_counter name a (run s' cs) kept,
          )
