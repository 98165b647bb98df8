-- ===== src/Tests/Managers.antt =====
-- The managers of caches on a server with one named cache. The ping of another is answered with a
-- status that is no success.
use cpp_client.Protocol.OpCodes.{is_success}
use cpp_client.Prelude.{ℕ, ◌+◌, ◌≡◌, refl, true, false, List, [], ◌∷◌, none, some, if◌then◌else◌}
use cpp_client.Prelude.Maps.{insert, bytes_key, bytes_same, lookup}
use cpp_client.Exceptions.{ok}
use cpp_client.Transactions.Steps.{OnOk}
use cpp_client.Managers.Impl.{
  Name, Parts, Manager, new_manager, name_and_force, create_remote_cache,
}
use cpp_client.Managers.Connected.{Sound}
use cpp_client.Managers.Reach.{Call, starts, stops, creates, run, run-Sound}
use cpp_client.Managers.Kept.{Given, create_remote_cache-Given}
use cpp_client.Managers.Caches.{CacheManager, c_str, get_cache}
use cpp_client.Managers.Again.{IsOver, get_cache-again}

abbrev here : Name
here = 97 ∷ []

abbrev absent_name : Name
absent_name = 98 ∷ []

-- The world counts the calls that reach the server.
abbrev parts : Parts
parts = record {
  World = ℕ;
  start_factory = λ n w. (ok tt, w + 1);
  destroy_factory = λ n w. w;
  start_listener = λ name n w. (ok tt, w + 1);
  stop_listener = λ name w. w;
  ping = λ name n w. (ok (if bytes_same name here then 0 else 0x02), w + 1);
  start_counters = λ w. w;
  stop_counters = λ w. w;
  stop_notifier = λ w. w;
}

abbrev calls : List (Call parts)
calls = creates here true false ∷ starts ∷ creates absent_name true true ∷ stops ∷ starts ∷ []

run-Sound_example : Sound parts (run parts (new_manager parts 0) calls)
run-Sound_example = run-Sound parts calls 0

create_remote_cache-Given_example :
    OnOk
      (λ o t. Given parts here false o t)
      (create_remote_cache parts here false true (run parts (new_manager parts 0) calls))
create_remote_cache-Given_example = create_remote_cache-Given parts calls 0 here false true

-- The cache that was made before the first start is over the second transport factory after the
-- second.
over_second : (run parts (new_manager parts 0) calls).objects ≡ (
    record {
      name = here;
      factory = some 1;
      force_return_value = true;
      is_near = false;
      is_shut_down = false;
    }
    ∷ record {
      name = absent_name;
      factory = some 1;
      force_return_value = true;
      is_near = true;
      is_shut_down = true;
    }
    ∷ [])
unfolding run lookup bytes_same insert is_success cpp_client.Prelude.Maps.bytes_less
over_second = refl

abbrev started : Manager parts
started = run parts (new_manager parts 0) (starts ∷ [])

abbrev caches : CacheManager parts
caches = record { impl = started; is_near = true; made = []; remote_cache_map = [] }

abbrev asked : Manager parts
asked = (create_remote_cache parts absent_name false false started).1

nothing_kept : lookup (name_and_force absent_name false) caches.remote_cache_map ≡ none
unfolding lookup
nothing_kept = refl

undefined_kept :
    create_remote_cache parts (c_str absent_name) false false caches.impl ≡ (ok (some 0), asked)
unfolding create_remote_cache lookup run bytes_same c_str is_success
undefined_kept = refl

get_cache-again_example :
    (h : ℕ) × ((some 0 ≡ some h)
      × (((get_cache parts 2 absent_name false (
              cpp_client.Managers.Again.run parts
                (get_cache parts 1 absent_name false caches).1
                [])).0
            ≡ ok 0)
          × (IsOver
                (get_cache parts 2 absent_name false (
                  cpp_client.Managers.Again.run parts
                    (get_cache parts 1 absent_name false caches).1
                    [])).1.made
                0
                (some h)
              × ((get_cache parts 2 absent_name false (
                    cpp_client.Managers.Again.run parts
                      (get_cache parts 1 absent_name false caches).1
                      [])).1.impl
                  ≡ (cpp_client.Managers.Again.run parts
                      (get_cache parts 1 absent_name false caches).1
                      []).impl))))
get_cache-again_example =
    get_cache-again parts 1 2 absent_name false caches (some 0) asked [] nothing_kept undefined_kept
