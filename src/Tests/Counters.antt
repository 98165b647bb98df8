-- ===== src/Tests/Counters.antt =====
-- The operations on counters, and what is kept of counters, at concrete values.
use cpp_client.Prelude.{List, ℕ, ◌≡◌, refl, true, [], ◌∷◌, ◌++◌, none, some, arith}
use cpp_client.Prelude.Maps.{bytes_same, lookup}
use cpp_client.Exceptions.{ok, fault}
use cpp_client.Wire.Stream.{got}
use cpp_client.Wire.Write.{write_long}
use cpp_client.Protocol.Exchange.{plain_response}
use cpp_client.Operations.Exchange.{Settings}
use cpp_client.Operations.Replies.{requested}
use cpp_client.Transactions.Steps.{OnOk}
use cpp_client.Counters.Configuration.{
  CounterConfiguration, bounded_strong, persistent, write_configuration, read_configuration,
}
use cpp_client.Counters.Operations.{add_and_get_operation, compare_and_swap_operation}
use cpp_client.Counters.RoundTrip.{announced, IsFitting, read_configuration-write_configuration}
use cpp_client.Counters.Replies.{
  counted, swapped, add_and_get_operation-counted, compare_and_swap_operation-swapped,
}
use cpp_client.Counters.Manager.{
  CounterServers, CounterManager, get_strong_counter, get_weak_counter,
}
use cpp_client.Counters.Listeners.{without, add_listener, remove_listener}
use cpp_client.Counters.Heard.{
  heard, is_added, with_one, add_listener-heard, remove_listener-ignored,
}
use cpp_client.Counters.Kept.{
  CounterCall, gets_weak, removes, adds_listener, run, get_strong_counter-kept,
}

abbrev settings : Settings
settings = record {
  protocol_version = 27;
  cache_name = [];
  flags = 0;
  topology_id = 0;
  address = record { hostname = 65 ∷ []; port = 11222 };
}

abbrev bounded : CounterConfiguration
bounded = record {
  initial_value = 1;
  lower_bound = 0;
  upper_bound = 10;
  concurrency_level = 4;
  type = bounded_strong;
  storage = persistent;
}

bounded-IsFitting : IsFitting bounded
bounded-IsFitting = record {
  initial_fits = omega arith;
  lower_fits = omega arith;
  upper_fits = omega arith;
  level_fits = omega arith;
}

read_configuration-write_configuration_example :
    read_configuration (write_configuration bounded ++ (9 ∷ []))
    ≡ got (ok (announced bounded)) (9 ∷ [])
read_configuration-write_configuration_example =
    read_configuration-write_configuration bounded (9 ∷ []) bounded-IsFitting

add_and_get_operation-counted_example :
    (add_and_get_operation settings
      (67 ∷ [])
      5
      0
      (plain_response (requested settings 0 0x52 0x53) 0x04 (write_long 10 ++ (9 ∷ [])))).reply
    ≡ counted 5 0x04 10 (9 ∷ [])
add_and_get_operation-counted_example =
    add_and_get_operation-counted settings 0 5 0x04 10 (67 ∷ []) (9 ∷ []) (omega arith)

compare_and_swap_operation-swapped_example :
    (compare_and_swap_operation settings
      (67 ∷ [])
      5
      11
      bounded
      0
      (plain_response (requested settings 0 0x58 0x59) 0x04 (write_long 10 ++ (9 ∷ [])))).reply
    ≡ swapped bounded 11 0x04 10 (9 ∷ [])
compare_and_swap_operation-swapped_example =
    compare_and_swap_operation-swapped settings 0 5 11 0x04 10 bounded (67 ∷ []) (9 ∷ [])
      (omega arith)

abbrev servers : CounterServers
servers = record {
  World = ℕ;
  get_configuration = λ name w. (ok bounded, w);
  define = λ name c w. (ok true, w);
  remove_counter = λ name w. (ok tt, w);
  add_counter_listener = λ name id keep w. (ok true, w);
  remove_counter_listener = λ name id w. (ok true, w);
  stop_dispatcher = λ w. w;
}

abbrev no_counters : CounterManager servers
no_counters = record { made = []; counters = []; dispatcher = none; listener_id = []; world = 0 }

abbrev two_listeners : CounterManager servers
two_listeners = record no_counters { dispatcher = some ((67 ∷ [], 1 ∷ 2 ∷ []) ∷ []) }

add_listener-heard_example :
    heard servers (add_listener servers (7 ∷ []) (67 ∷ []) 3 two_listeners).1 (67 ∷ [])
    ≡ with_one servers
        (is_added servers (add_listener servers (7 ∷ []) (67 ∷ []) 3 two_listeners).0)
        (67 ∷ [])
        3
        (67 ∷ [])
        (heard servers two_listeners (67 ∷ []))
add_listener-heard_example = add_listener-heard servers (7 ∷ []) (67 ∷ []) (67 ∷ []) 3 two_listeners

three_heard :
    heard servers (add_listener servers (7 ∷ []) (67 ∷ []) 3 two_listeners).1 (67 ∷ [])
    ≡ 1 ∷ 2 ∷ 3 ∷ []
unfolding add_listener bytes_same
three_heard = refl

remove_listener-ignored_example :
    remove_listener servers (67 ∷ []) 1 two_listeners ≡ (ok tt, two_listeners)
unfolding lookup bytes_same without
remove_listener-ignored_example =
    remove_listener-ignored servers (67 ∷ []) 1 ((67 ∷ [], 1 ∷ 2 ∷ []) ∷ []) (1 ∷ 2 ∷ [])
      two_listeners refl refl refl

abbrev calls : List CounterCall
calls = gets_weak (68 ∷ []) ∷ removes (68 ∷ []) ∷ adds_listener (7 ∷ []) (67 ∷ []) 1 ∷ []

get_strong_counter-kept_example :
    OnOk
      (λ a s'.
        (get_strong_counter servers (67 ∷ []) (run servers s' calls) ≡ (ok a, run servers s' calls))
        × (get_weak_counter servers (67 ∷ []) (run servers s' calls)
            ≡ (fault, run servers s' calls)))
      (get_strong_counter servers (67 ∷ []) no_counters)
unfolding bytes_same
get_strong_counter-kept_example =
    get_strong_counter-kept servers (67 ∷ []) no_counters calls (refl, (refl, (refl, tt)))

given_out : (get_strong_counter servers (67 ∷ []) no_counters).0 ≡ ok 0
unfolding get_strong_counter
given_out = refl
