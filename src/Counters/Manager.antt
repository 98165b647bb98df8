-- ===== src/Counters/Manager.antt =====
-- The counters that RemoteCounterManagerImpl.cpp keeps, and CountersImpl.h. A pointer to a counter is
-- its place among the counters that were made.
use cpp_client.Prelude.{
  ℕ, zero, suc, Bool, true, false, List, [], ◌∷◌, ◌++◌, length, get_elem?, Option, none, some,
  if◌then◌else◌,
}
use cpp_client.Prelude.Maps.{bytes_key, lookup, insert, erase}
use cpp_client.Exceptions.{Outcome, ok, throws, fault, Run, client}
use cpp_client.Counters.Configuration.{
  CounterConfiguration, CounterType, unbounded_strong, bounded_strong, weak,
}

-- The operations of CounterOperations.cpp through the retry loop, on the servers and connections.
pub record CounterServers : Type 1 where
  pub World : Type 0
  pub get_configuration : List ℕ → World → Outcome CounterConfiguration × World
  pub define : List ℕ → CounterConfiguration → World → Outcome Bool × World
  pub remove_counter : List ℕ → World → Outcome (Unit {0}) × World
  pub add_counter_listener : List ℕ → List ℕ → Bool → World → Outcome Bool × World
  pub remove_counter_listener : List ℕ → List ℕ → World → Outcome Bool × World
  pub stop_dispatcher : World → World

pub data Kind : Type 0 where
  strong_counter : Kind
  weak_counter : Kind

pub record Counter : Type 0 where
  pub kind : Kind
  pub name : List ℕ
  pub configuration : CounterConfiguration
  pub removed : Bool

unfoldable pub is_weak : CounterType → Bool
is_weak weak = true
is_weak bounded_strong = false
is_weak unbounded_strong = false

unfoldable pub is_kind : Kind → Kind → Bool
is_kind strong_counter strong_counter = true
is_kind weak_counter weak_counter = true
is_kind strong_counter weak_counter = false
is_kind weak_counter strong_counter = false

abbrev pub kind_of : Bool → Kind
kind_of true = weak_counter
kind_of false = strong_counter

unfoldable pub set_removed : ℕ → List Counter → List Counter
set_removed a [] = []
set_removed zero (c ∷ cs) = record c { removed = true } ∷ cs
set_removed (suc a) (c ∷ cs) = c ∷ set_removed a cs

module _ (r : CounterServers) where
  -- The dispatcher has the listeners of each counter.
  pub record CounterManager : Type 0 where
    pub made : List Counter
    pub counters : List (List ℕ × ℕ)
    pub dispatcher : Option (List (List ℕ × List ℕ))
    pub listener_id : List ℕ
    pub world : r.World

  -- The configuration that the server has, if it is of the kind that is asked for.
  unfoldable pub keep_counter :
      Kind → List ℕ → Outcome CounterConfiguration × r.World → Run CounterManager ℕ
  unfolding is_kind is_weak
  keep_counter k name (ok cc, w) s =
      if is_kind k (kind_of (is_weak cc.type))
      then (
        ok (length s.made),
        record s {
          made =
              s.made
              ++ (record { kind = k; name = name; configuration = cc; removed = false } ∷ []);
          counters = insert name (length s.made) s.counters;
          world = w;
        },
      )
      else (throws client, record s { world = w })
  keep_counter k name (throws e, w) s = (throws e, record s { world = w })
  keep_counter k name (fault, w) s = (fault, record s { world = w })

  -- `static_pointer_cast` of a counter of the other kind has no defined use.
  unfoldable pub cast_counter : Kind → ℕ → Option Counter → Outcome ℕ
  unfolding is_kind
  cast_counter k a none = fault
  cast_counter k a (some c) = if is_kind k c.kind then ok a else fault

  unfoldable pub found_counter : Kind → List ℕ → Option ℕ → Run CounterManager ℕ
  unfolding keep_counter cast_counter
  found_counter k name none s = keep_counter k name (r.get_configuration name s.world) s
  found_counter k name (some a) s = (cast_counter k a (get_elem? s.made a), s)

  unfoldable pub get_strong_counter : List ℕ → Run CounterManager ℕ
  unfolding found_counter lookup
  get_strong_counter name s = found_counter strong_counter name (lookup name s.counters) s

  unfoldable pub get_weak_counter : List ℕ → Run CounterManager ℕ
  unfolding found_counter lookup
  get_weak_counter name s = found_counter weak_counter name (lookup name s.counters) s

  unfoldable pub forget_counter :
      List ℕ → Option ℕ → Outcome (Unit {0}) × r.World → Run CounterManager (Unit {0})
  unfolding set_removed erase
  forget_counter name (some a) (ok _, w) s =
      (ok tt, record s { made = set_removed a s.made; counters = erase name s.counters; world = w })
  forget_counter name none (ok _, w) s = (ok tt, record s { world = w })
  forget_counter name o (throws e, w) s = (throws e, record s { world = w })
  forget_counter name o (fault, w) s = (fault, record s { world = w })

  unfoldable pub remove_counter : List ℕ → Run CounterManager (Unit {0})
  unfolding forget_counter lookup
  remove_counter name s =
      forget_counter name (lookup name s.counters) (r.remove_counter name s.world) s

  -- The code of the other methods is the operation alone.
  unfoldable pub define_counter : List ℕ → CounterConfiguration → Run CounterManager Bool
  define_counter name c s = let x = r.define name c s.world in (x.0, record s { world = x.1 })
