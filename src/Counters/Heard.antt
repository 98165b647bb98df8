-- ===== src/Counters/Heard.antt =====
-- Which listeners of a counter are told of its changes.
use cpp_client.Prelude.{
  sym, ◌≡◌, refl, ◌∙◌, ap, ℕ, Bool, true, false, ◌&&◌, List, [], ◌∷◌, ◌++◌, Option, none, some,
  if◌then◌else◌, arith,
}
use cpp_client.Prelude.Maps.{lookup-insert, bytes_key, bytes_same, lookup, bytes_same_iff}
use cpp_client.Exceptions.{Outcome, ok, throws, fault}
use cpp_client.Counters.Manager.{CounterServers, CounterManager}
use cpp_client.Counters.Listeners.{
  without, add_to_listed, add_to, add_listener, listener_answer, remove_listener, remove_of,
  remove_from_copy, stop_if_empty, is_empty_list, Listeners, listed, get_listeners, push_listener,
}

abbrev pub heard_in : Option Listeners → List ℕ → List ℕ
heard_in none j = []
heard_in (some d) j = listed (lookup j d)

first_of : (name : List ℕ) (d : Listeners) → (get_listeners name d).0 ≡ listed (lookup name d)
unfolding get_listeners
first_of name d = ground arith

rest_of :
    (name j : List ℕ) (d : Listeners)
    → listed (lookup j (get_listeners name d).1) ≡ listed (lookup j d)
unfolding get_listeners
rest_of name j d = ground (arith, lookup-insert name j [] d, bytes_same_iff name j)

module _ (r : CounterServers) where
  abbrev pub heard : CounterManager r → List ℕ → List ℕ
  heard s j = heard_in s.dispatcher j

  abbrev pub is_added : Outcome (Option ℕ) → Bool
  is_added (ok (some l)) = true
  is_added _ = false

  -- The listeners once one is added for `name`.
  abbrev pub with_one : Bool → List ℕ → ℕ → List ℕ → List ℕ → List ℕ
  with_one added name l j ls = if added && bytes_same name j then ls ++ (l ∷ []) else ls

  push_listener-heard :
      (name j : List ℕ) (l : ℕ) (d : Listeners) (s : CounterManager r)
      → heard (push_listener r name l d s).1 j ≡ with_one true name l j (listed (lookup j d))
  unfolding push_listener
  push_listener-heard name j l d s = ground (
    arith,
    lookup-insert name j ((get_listeners name d).0 ++ (l ∷ [])) (get_listeners name d).1,
    first_of name d,
    rest_of name j d,
    bytes_same_iff name j,
  )

  listener_answer-heard :
      (name j : List ℕ) (l : ℕ) (d : Listeners) (x : Outcome Bool × r.World) (s : CounterManager r)
      → heard s j ≡ listed (lookup j d)
      → heard (listener_answer r name l d x s).1 j
        ≡ with_one (is_added (listener_answer r name l d x s).0) name l j (listed (lookup j d))
  unfolding listener_answer push_listener
  listener_answer-heard name j l d (ok true, w) s h =
      push_listener-heard name j l d (record s { world = w })
  listener_answer-heard name j l d (ok false, w) s h = h
  listener_answer-heard name j l d (throws e, w) s h = h
  listener_answer-heard name j l d (fault, w) s h = h

  with_one-same :
      (added : Bool) (name : List ℕ) (l : ℕ) (j xs ys : List ℕ)
      → xs ≡ ys
      → with_one added name l j xs ≡ with_one added name l j ys
  with_one-same added name l j xs ys e = ap (with_one added name l j) e

  add_to_listed-heard :
      (name j : List ℕ) (l : ℕ) (ls : List ℕ) (d : Listeners) (s : CounterManager r)
      → heard (add_to_listed r name l (ls, d) s).1 j
        ≡ with_one (is_added (add_to_listed r name l (ls, d) s).0) name l j (listed (lookup j d))
  unfolding add_to_listed push_listener
  add_to_listed-heard name j l [] d s =
      listener_answer-heard name j l d (r.add_counter_listener name s.listener_id false s.world)
        (record s { dispatcher = some d }) refl
  add_to_listed-heard name j l (x ∷ ls) d s = push_listener-heard name j l d s

  add_to-heard :
      (fresh name j : List ℕ) (l : ℕ) (o : Option Listeners) (s : CounterManager r)
      → s.dispatcher ≡ o
      → heard (add_to r fresh name l o s).1 j
        ≡ with_one (is_added (add_to r fresh name l o s).0) name l j (heard_in o j)
  unfolding add_to
  add_to-heard fresh name j l none s e =
      listener_answer-heard name j l [] (r.add_counter_listener name fresh true s.world)
        (record s { listener_id = fresh }) (ap (λ o. heard_in o j) e ∙ unfold lookup in refl)
      ∙ unfold lookup in refl
  add_to-heard fresh name j l (some d) s e =
      let (ls, later) = get_listeners name d in
      add_to_listed-heard name j l ls later s
      ∙ with_one-same (is_added (add_to_listed r name l (ls, later) s).0) name l j
          (listed (lookup j later)) (listed (lookup j d)) (rest_of name j d)

  -- Adding a listener to a counter puts it behind those that are told of that counter already, where
  -- the answer is the listener; where it is a null pointer or an exception, and for every other
  -- counter, the listeners stay as they were.
  pub add_listener-heard :
      (fresh name j : List ℕ) (l : ℕ) (s : CounterManager r)
      → heard (add_listener r fresh name l s).1 j
        ≡ with_one (is_added (add_listener r fresh name l s).0) name l j (heard s j)
  unfolding add_listener
  add_listener-heard fresh name j l s = add_to-heard fresh name j l s.dispatcher s refl

  listed-stays :
      (name : List ℕ) (ls : List ℕ) (d : Listeners)
      → lookup name d ≡ some ls
      → is_empty_list d ≡ false
  unfolding lookup
  listed-stays name ls [] e = ground (arith, e)
  listed-stays name ls ((k, v) ∷ d) e = refl

  get_listeners-listed :
      (name : List ℕ) (d : Listeners) (ls : List ℕ)
      → lookup name d ≡ some ls
      → get_listeners name d ≡ (ls, d)
  unfolding get_listeners
  get_listeners-listed name d ls h = rw (h, get_listeners) refl

  copy_left :
      (name : List ℕ) (l : ℕ) (ls : List ℕ) (d : Listeners) (s : CounterManager r)
      → is_empty_list (without l ls) ≡ false
      → is_empty_list d ≡ false
      → remove_from_copy r name l (ls, d) s ≡ (ok tt, record s { dispatcher = some d })
  unfolding remove_from_copy stop_if_empty
  copy_left name l ls d s other stays = ground (arith, other, stays)

  -- As long as another listener of the counter is left, taking one away changes nothing: the listener
  -- that was taken away is told of every later change as before.
  pub remove_listener-ignored :
      (name : List ℕ) (l : ℕ) (d : Listeners) (ls : List ℕ) (s : CounterManager r)
      → s.dispatcher ≡ some d
      → lookup name d ≡ some ls
      → is_empty_list (without l ls) ≡ false
      → remove_listener r name l s ≡ (ok tt, s)
  unfolding remove_listener remove_of
  remove_listener-ignored name l d ls s e h other =
      ap (λ o. remove_of r name l o s) e
      ∙ ap (λ x. remove_from_copy r name l x s) (get_listeners-listed name d ls h)
      ∙ copy_left name l ls d s other (listed-stays name ls d h)
      ∙ ap (λ o. (ok tt, record s { dispatcher = o })) (sym e)
