-- ===== src/Tests/Api.antt =====
-- The public API of a cache at concrete values.
use Prim.Native.Nat.{◌/◌, ◌-◌}
use native.Mathlib.Nat.{div-add-mod, mod-lt}
use cpp_client.Prelude.{
  Option, if◌then◌else◌, Bool, false, ℕ, ◌+◌, ◌*◌, ◌≤◌, ◌<◌, ◌≡◌, refl, true, [], ◌∷◌, none, some,
  arith,
}
use cpp_client.Exceptions.{ok, throws, tx_state}
use cpp_client.Api.Answers.{returned, raised, plain, StdException, Call}
use cpp_client.Api.Seconds.{Doubles, milliseconds, hours, to_seconds, Rounds, to_seconds-Rounds}
use cpp_client.Api.Methods.{BaseCache, put, is_empty}
use cpp_client.Api.Async.{put_async_unit}
use cpp_client.Api.Agreement.{gets, removes, task}

-- The quotient without rounding.
abbrev exact : ℕ → ℕ → ℕ
exact t d = (t + d - 1) / d

exact-below : (t d : ℕ) → 0 < d → exact t d * d < t + d
exact-below t d h = omega (arith, div-add-mod (t + d - 1) d)

exact-above : (t d : ℕ) → 0 < d → t ≤ exact t d * d
exact-above t d h = omega (arith, div-add-mod (t + d - 1) d, mod-lt (t + d - 1) h)

abbrev doubles : Doubles
doubles = record {
  ceil_quotient = exact;
  below = λ t d h p q. exact-below t d p;
  above = λ t d h p q. exact-above t d p;
}

-- A server that keeps one entry: the value, the lifespan and the maximal idle time of it. A get
-- or a removal outside a transaction is refused.
abbrev cache : BaseCache
cache = record {
  World = ℕ × ℕ × ℕ;
  Tx = Bool;
  K = ℕ;
  V = ℕ;
  marshall_key = λ k. k ∷ [];
  unmarshall_key = λ bs. 0;
  unmarshall_value = λ bs. 0;
  as_value = λ k. k;
  base_get = λ tx k w. if tx then (ok (some w.0), w) else (throws tx_state, w);
  base_get_all = λ tx ks w. (ok ((1 ∷ [], 2 ∷ []) ∷ []), w);
  base_put = λ tx k v l i w. (ok none, (v, l, i));
  base_put_if_absent = λ tx k v l i w. (ok none, w);
  base_put_all = λ tx kvs l i w. (ok tt, w);
  base_replace = λ tx k v l i w. (ok none, (v, l, i));
  base_remove = λ tx k w. if tx then (ok none, w) else (throws tx_state, w);
  base_contains_key = λ tx k w. (ok true, w);
  base_replace_with_version = λ tx k v n l i w. (ok true, (v, l, i));
  base_remove_with_version = λ tx k n w. (ok true, w);
  base_get_bulk = λ tx n w. (ok [], w);
  base_key_set = λ tx n w. (ok [], w);
  base_size = λ tx w. (ok 0, w);
  base_clear = λ tx w. (ok tt, w);
}

put_half_minute : put cache doubles true 7 5 30 0 (1, 2, 3) ≡ (returned none, (5, 30, 0))
unfolding put
put_half_minute = refl

is_empty_now : is_empty cache doubles true (1, 2, 3) ≡ (returned true, (1, 2, 3))
unfolding is_empty
is_empty_now = refl

to_seconds-Rounds_example :
    Rounds doubles 1_001 milliseconds (to_seconds doubles 1_001 milliseconds)
to_seconds-Rounds_example = to_seconds-Rounds doubles 1_001 milliseconds (omega arith)

-- A callback for a failure that answers a value.
abbrev on_failure : StdException → Call (ℕ × ℕ × ℕ) (Option ℕ)
on_failure e w = (returned (some 4), w)

told_of_failure :
    task cache doubles true false (removes 7) none (some on_failure) (1, 2, 3)
    ≡ (returned (some 4), (1, 2, 3))
unfolding cpp_client.Api.Async.remove_async
told_of_failure = refl

-- A task of a caller in a transaction: the get is in it, the removal is not and is refused.
get_inside :
    task cache doubles true false (gets 7) none none (1, 2, 3) ≡ (returned (some 1), (1, 2, 3))
unfolding cpp_client.Api.Async.get_async
get_inside = refl

remove_outside :
    task cache doubles true false (removes 7) none none (1, 2, 3) ≡ (raised plain, (1, 2, 3))
unfolding cpp_client.Api.Async.remove_async
remove_outside = refl

-- 60 hours become a lifespan of 60 and a maximal idle time of 5 seconds.
put_async_sixty_hours :
    put_async_unit cache doubles true 7 5 60 hours none none (1, 2, 3) ≡ (returned none, (5, 60, 5))
unfolding put_async_unit
put_async_sixty_hours = refl
