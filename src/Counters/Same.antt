-- ===== src/Counters/Same.antt =====
-- Listeners are added and removed without a change of the counters: CounterDispatcher.
use cpp_client.Prelude.{
  ◌≡◌, refl, ◌∙◌, ap, ℕ, Bool, true, false, List, [], get_elem?, Option, none, some, if◌then◌else◌,
}
use cpp_client.Prelude.Maps.{bytes_key, lookup}
use cpp_client.Exceptions.{Outcome, ok, throws, fault}
use cpp_client.Counters.Manager.{CounterServers, CounterManager, Kind}
use cpp_client.Counters.Listeners.{
  Listeners, push_listener, listener_answer, add_to_listed, add_to, get_listeners, without,
  is_empty_list, stop_if_empty, unlisten, remove_from_copy, remove_of,
}
use cpp_client.Counters.Standing.{Stands}

module _ (r : CounterServers) where
  -- The counters of both states are the same.
  pub record Same (s t : CounterManager r) : Type 0 where
    pub same_counters : t.counters ≡ s.counters
    pub same_made : t.made ≡ s.made

  pub Same-Stands :
      (k : Kind) (name : List ℕ) (a : ℕ) (s t : CounterManager r)
      → Same s t
      → Stands r k name a s
      → Stands r k name a t
  Same-Stands k name a s t e h = record {
    found = ap (lookup name) e.same_counters ∙ h.found;
    counter = h.counter;
    there = ap (λ m. get_elem? m a) e.same_made ∙ h.there;
    kind_is = h.kind_is;
  }

  if-Same :
      {A : Type 0} (b : Bool) (s : CounterManager r) (x y : Outcome A × CounterManager r)
      → Same s x.1
      → Same s y.1
      → Same s (if b then x else y).1
  if-Same true s x y one two = one
  if-Same false s x y one two = two

  answered-Same :
      (name : List ℕ) (l : ℕ) (d : Listeners) (x : Outcome Bool × r.World) (s : CounterManager r)
      → Same s (listener_answer r name l d x s).1
  unfolding listener_answer push_listener
  answered-Same name l d (ok true, w) s = record { same_counters = refl; same_made = refl }
  answered-Same name l d (ok false, w) s = record { same_counters = refl; same_made = refl }
  answered-Same name l d (throws e, w) s = record { same_counters = refl; same_made = refl }
  answered-Same name l d (fault, w) s = record { same_counters = refl; same_made = refl }

  trans-Same : (s t u : CounterManager r) → Same s t → Same t u → Same s u
  trans-Same s t u one two = record {
    same_counters = two.same_counters ∙ one.same_counters;
    same_made = two.same_made ∙ one.same_made;
  }

  pub added-Same :
      (fresh name : List ℕ) (l : ℕ) (o : Option Listeners) (s : CounterManager r)
      → Same s (add_to r fresh name l o s).1
  unfolding add_to add_to_listed push_listener
  added-Same fresh name l none s =
      let t : CounterManager r = record s { listener_id = fresh } in
      trans-Same s t _ (record { same_counters = refl; same_made = refl })
        (answered-Same name l [] (r.add_counter_listener name fresh true s.world) t)
  added-Same fresh name l (some d) s =
      let (ls, e) = get_listeners name d in
      let t : CounterManager r = record s { dispatcher = some e } in
      if-Same _ s (listener_answer r name l e _ t) (push_listener r name l e s)
        (trans-Same s t _ (record { same_counters = refl; same_made = refl })
          (answered-Same name l e (r.add_counter_listener name s.listener_id false s.world) t))
        (record { same_counters = refl; same_made = refl })

  stopped-Same : (d : Listeners) (s : CounterManager r) → Same s (stop_if_empty r d s).1
  unfolding stop_if_empty
  stopped-Same d s =
      if-Same _ s _ _ (record { same_counters = refl; same_made = refl })
        (record { same_counters = refl; same_made = refl })

  unlistened-Same :
      (name : List ℕ) (d : Listeners) (x : Outcome Bool × r.World) (s : CounterManager r)
      → Same s (unlisten r name d x s).1
  unfolding unlisten
  unlistened-Same name d (ok true, w) s =
      let t : CounterManager r = record s { world = w } in
      trans-Same s t _ (record { same_counters = refl; same_made = refl }) (stopped-Same _ t)
  unlistened-Same name d (ok false, w) s =
      let t : CounterManager r = record s { world = w } in
      trans-Same s t _ (record { same_counters = refl; same_made = refl }) (stopped-Same d t)
  unlistened-Same name d (throws e, w) s = record { same_counters = refl; same_made = refl }
  unlistened-Same name d (fault, w) s = record { same_counters = refl; same_made = refl }

  pub removed-Same :
      (name : List ℕ) (l : ℕ) (o : Option Listeners) (s : CounterManager r)
      → Same s (remove_of r name l o s).1
  unfolding remove_of remove_from_copy
  removed-Same name l none s = record { same_counters = refl; same_made = refl }
  removed-Same name l (some d) s =
      let (ls, e) = get_listeners name d in
      let answered = unlisten r name e (r.remove_counter_listener name s.listener_id s.world) s in
      if-Same (is_empty_list (without l ls)) s answered (stop_if_empty r e s)
        (unlistened-Same name e (r.remove_counter_listener name s.listener_id s.world) s)
        (stopped-Same e s)
