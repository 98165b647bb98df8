-- ===== src/Tests/Cache.antt =====
-- The operations of a cache inside a transaction, at a concrete cache.
use cpp_client.Prelude.Maps.{bytes_same, insert, lookup, contains}
use cpp_client.Prelude.{ℕ, ◌+◌, ◌%◌, ◌≡◌, refl, true, false, [], ◌∷◌, none, some, arith}
use cpp_client.Exceptions.{ok}
use cpp_client.Transactions.Context.{no_metadata, has_value}
use cpp_client.Transactions.Manager.{active}
use cpp_client.Transactions.Cache.{accept_rw, CacheImpl, RemoteCacheBase, State, context, base_get}
use cpp_client.Transactions.Versioned.{base_contains_key, base_replace_with_version}
use cpp_client.Transactions.Steps.{OnOk}
use cpp_client.Transactions.Operations.{puts, puts_if_absent, run}
use cpp_client.Transactions.Refines.{Refines, run-Refines}
use cpp_client.Transactions.Hidden.{base_contains_key-hides}

-- A pointer names one of ten objects; a copy has another pointer. The server has object 7 for
-- every key.
abbrev object : ℕ → ℕ
object p = p % 10

abbrev ten_objects : CacheImpl
ten_objects = record {
  World = ℕ;
  Key = ℕ;
  base_key_marshall = λ k. k ∷ [];
  value_copy_constructor = λ p w. (p + 10, w + 1);
  value_destructor = λ p w. w;
  get = λ k w. (ok (some 7), w);
  get_with_metadata = λ k w. (ok (some 7, no_metadata), w);
  put = λ k p life idle w. (ok none, w);
  put_if_absent = λ k p life idle w. (ok none, w);
  replace = λ k p life idle w. (ok none, w);
  remove = λ k w. (ok none, w);
  contains_key = λ k w. (ok true, w);
  replace_with_version = λ k p v life idle w. (ok false, w);
  remove_with_version = λ k v w. (ok false, w);
}

copied_object : (p w : ℕ) → object (ten_objects.value_copy_constructor p w).0 ≡ object p
copied_object p w = omega arith

abbrev cache : RemoteCacheBase
cache = record { self = 1; transactional = true; force_return_value = true }

abbrev begun : State ten_objects cache
begun = record {
  transaction = record {
    status = active;
    xid = record { global_id = []; branch_id = [] };
    sa = record { registered_cache = []; prepared_cache = [] };
  };
  world = 0;
}

-- A put of object 3 is told of the object of the server, and a get then gives object 3.
abbrev written : State ten_objects cache
written = (run ten_objects cache (puts 5 3 0 0) begun).1

put_told : (run ten_objects cache (puts 5 3 0 0) begun).0 ≡ ok (some 17)
unfolding run contains lookup insert bytes_same
put_told = refl

get_written : (base_get ten_objects cache 5 written).0 ≡ ok (some 23)
unfolding base_get run contains lookup insert bytes_same
get_written = refl

run-Refines_example :
    OnOk
      (Refines ten_objects cache object copied_object (puts_if_absent 6 4 0 0) written)
      (run ten_objects cache (puts_if_absent 6 4 0 0) written)
unfolding accept_rw run contains lookup insert bytes_same
run-Refines_example =
    run-Refines ten_objects cache object copied_object (puts_if_absent 6 4 0 0) written refl refl

base_contains_key-hides_example :
    (base_get ten_objects cache 5 (base_contains_key ten_objects cache 5 begun).1).0 ≡ ok none
unfolding accept_rw has_value contains context lookup
base_contains_key-hides_example = base_contains_key-hides ten_objects cache begun 5 refl refl refl

-- The server has the key.
told_contained : (base_contains_key ten_objects cache 5 begun).0 ≡ ok true
unfolding base_contains_key lookup
told_contained = refl

-- In a transaction the version of an entry does not go on: the second change by version 1 is made too.
abbrev replaced_twice : State ten_objects cache
replaced_twice =
    (base_replace_with_version ten_objects cache 5 2 1 0 0
      (base_replace_with_version ten_objects cache 5 2 0 0 0 begun).1).1

replaced_again : (base_replace_with_version ten_objects cache 5 3 1 0 0 replaced_twice).0 ≡ ok true
unfolding base_replace_with_version contains lookup insert bytes_same
replaced_again = refl
