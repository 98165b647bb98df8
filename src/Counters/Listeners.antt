-- ===== src/Counters/Listeners.antt =====
-- The listeners of counters: addListener and removeListener of RemoteCounterManagerImpl.cpp, with
-- getListeners, empty and remove of CounterDispatcher. A listener is the pointer that names it.
use cpp_client.Prelude.{
  ℕ, Bool, true, false, List, [], ◌∷◌, ◌++◌, Option, none, some, ◌==◌, if◌then◌else◌,
}
use cpp_client.Prelude.Maps.{bytes_key, lookup, insert, erase}
use cpp_client.Exceptions.{Outcome, ok, throws, fault, Run}
use cpp_client.Counters.Manager.{CounterServers, CounterManager}

abbrev pub Listeners : Type 0
Listeners = List (List ℕ × List ℕ)

abbrev pub is_empty_list : {A : Type 0} → List A → Bool
is_empty_list [] = true
is_empty_list (x ∷ xs) = false

abbrev pub listed : Option (List ℕ) → List ℕ
listed none = []
listed (some ls) = ls

-- `listeners[counterName]` makes an empty list where there is none.
unfoldable pub get_listeners : List ℕ → Listeners → List ℕ × Listeners
unfolding lookup insert
get_listeners name d = elim (lookup name d) [ some ls ↦ (ls, d) | none ↦ ([], insert name [] d) ]

-- `std::list::remove`
unfoldable pub without : ℕ → List ℕ → List ℕ
without l [] = []
without l (x ∷ xs) = let rest = without l xs in if x == l then rest else x ∷ rest

module _ (r : CounterServers) where
  -- The new listener comes last; the answer is the listener, or a null pointer.
  unfoldable pub push_listener : List ℕ → ℕ → Listeners → Run (CounterManager r) (Option ℕ)
  unfolding get_listeners insert
  push_listener name l d s = (
    ok (some l),
    record s {
      dispatcher =
          some (insert name ((get_listeners name d).0 ++ (l ∷ [])) (get_listeners name d).1);
    },
  )

  unfoldable pub listener_answer :
      List ℕ → ℕ → Listeners → Outcome Bool × r.World → Run (CounterManager r) (Option ℕ)
  unfolding push_listener
  listener_answer name l d (ok true, w) s = push_listener name l d (record s { world = w })
  listener_answer name l d (ok false, w) s = (ok none, record s { world = w })
  listener_answer name l d (throws e, w) s = (throws e, record s { world = w })
  listener_answer name l d (fault, w) s = (fault, record s { world = w })

  -- The first listener of a counter asks the server.
  unfoldable pub add_to_listed : List ℕ → ℕ → List ℕ × Listeners → Run (CounterManager r) (Option ℕ)
  unfolding listener_answer push_listener
  add_to_listed name l (ls, d) s =
      if is_empty_list ls
      then listener_answer name l d (r.add_counter_listener name s.listener_id false s.world)
          (record s { dispatcher = some d })
      else push_listener name l d s

  -- The first listener of all makes the dispatcher, under the random id `fresh`.
  unfoldable pub add_to : List ℕ → List ℕ → ℕ → Option Listeners → Run (CounterManager r) (Option ℕ)
  unfolding add_to_listed listener_answer get_listeners
  add_to fresh name l none s =
      listener_answer name l [] (r.add_counter_listener name fresh true s.world)
        (record s { listener_id = fresh })
  add_to fresh name l (some d) s = add_to_listed name l (get_listeners name d) s

  unfoldable pub add_listener : List ℕ → List ℕ → ℕ → Run (CounterManager r) (Option ℕ)
  unfolding add_to
  add_listener fresh name l s = add_to fresh name l s.dispatcher s

  -- A dispatcher without any counter is stopped.
  unfoldable pub stop_if_empty : Listeners → Run (CounterManager r) (Unit {0})
  stop_if_empty d s =
      if is_empty_list d
      then (ok tt, record s { dispatcher = none; world = r.stop_dispatcher s.world })
      else (ok tt, record s { dispatcher = some d })

  unfoldable pub unlisten :
      List ℕ → Listeners → Outcome Bool × r.World → Run (CounterManager r) (Unit {0})
  unfolding stop_if_empty erase
  unlisten name d (ok true, w) s = stop_if_empty (erase name d) (record s { world = w })
  unlisten name d (ok false, w) s = stop_if_empty d (record s { world = w })
  unlisten name d (throws e, w) s = (throws e, record s { dispatcher = some d; world = w })
  unlisten name d (fault, w) s = (fault, record s { dispatcher = some d; world = w })

  -- The listener is taken off a copy of the list.
  unfoldable pub remove_from_copy :
      List ℕ → ℕ → List ℕ × Listeners → Run (CounterManager r) (Unit {0})
  unfolding without unlisten stop_if_empty
  remove_from_copy name l (ls, d) s =
      if is_empty_list (without l ls)
      then unlisten name d (r.remove_counter_listener name s.listener_id s.world) s
      else stop_if_empty d s

  unfoldable pub remove_of : List ℕ → ℕ → Option Listeners → Run (CounterManager r) (Unit {0})
  unfolding remove_from_copy get_listeners
  remove_of name l none s = (ok tt, s)
  remove_of name l (some d) s = remove_from_copy name l (get_listeners name d) s

  unfoldable pub remove_listener : List ℕ → ℕ → Run (CounterManager r) (Unit {0})
  unfolding remove_of
  remove_listener name l s = remove_of name l s.dispatcher s
