-- ===== src/Api/Methods.antt =====
-- The methods of RemoteCache.h that answer at once, over the base class. `tx` is the transaction of
-- the calling thread.
use cpp_client.Prelude.{ℕ, Bool, List, Option, none, some, map, ◌==◌}
use cpp_client.Exceptions.{Outcome, unsupported_operation}
use cpp_client.Api.Answers.{
  Answer, returned, raised, undefined, derived, invalid_argument, Call, call_of,
}
use cpp_client.Api.Seconds.{Doubles, TimeUnit, seconds, to_seconds}

-- RemoteCacheBase, whose values and keys are those of the application. `unmarshall_key` gives a
-- pointer to a key, which `as_value` takes for a pointer to a value.
pub record BaseCache : Type 1 where
  pub World : Type 0
  pub Tx : Type 0
  pub K : Type 0
  pub V : Type 0
  pub marshall_key : K → List ℕ
  pub unmarshall_key : List ℕ → K
  pub unmarshall_value : List ℕ → V
  pub as_value : K → V
  pub base_get : Tx → K → World → Outcome (Option V) × World
  pub base_get_all : Tx → List (List ℕ) → World → Outcome (List (List ℕ × List ℕ)) × World
  pub base_put : Tx → K → V → ℕ → ℕ → World → Outcome (Option V) × World
  pub base_put_if_absent : Tx → K → V → ℕ → ℕ → World → Outcome (Option V) × World
  pub base_put_all : Tx → List (K × V) → ℕ → ℕ → World → Outcome (Unit {0}) × World
  pub base_replace : Tx → K → V → ℕ → ℕ → World → Outcome (Option V) × World
  pub base_remove : Tx → K → World → Outcome (Option V) × World
  pub base_contains_key : Tx → K → World → Outcome Bool × World
  pub base_replace_with_version : Tx → K → V → ℕ → ℕ → ℕ → World → Outcome Bool × World
  pub base_remove_with_version : Tx → K → ℕ → World → Outcome Bool × World
  pub base_get_bulk : Tx → ℕ → World → Outcome (List (K × V)) × World
  pub base_key_set : Tx → ℕ → World → Outcome (List K) × World
  pub base_size : Tx → World → Outcome ℕ × World
  pub base_clear : Tx → World → Outcome (Unit {0}) × World

module _ (r : BaseCache) (f : Doubles) where
  -- Both times in seconds, or std::invalid_argument.
  unfoldable pub expiring :
      {A : Type 0} → (ℕ → ℕ → Call r.World A) → Option ℕ → Option ℕ → Call r.World A
  expiring m (some l) (some i) w = m l i w
  expiring m none i w = (raised invalid_argument, w)
  expiring m (some l) none w = (raised invalid_argument, w)

  unfoldable pub unsupported : {A : Type 0} → Call r.World A
  unsupported w = (raised (derived unsupported_operation), w)

  unfoldable pub get : r.Tx → r.K → Call r.World (Option r.V)
  unfolding call_of
  get tx k = call_of (r.base_get tx k)

  -- The bytes of keys and values as the base class answers them.
  unfoldable pub unmarshalled :
      Answer (List (List ℕ × List ℕ)) × r.World → Answer (List (r.K × r.V)) × r.World
  unmarshalled (returned kvs, w) =
      (returned (map (λ kv. (r.unmarshall_key kv.0, r.as_value (r.unmarshall_key kv.1))) kvs), w)
  unmarshalled (raised e, w) = (raised e, w)
  unmarshalled (undefined, w) = (undefined, w)

  unfoldable pub get_all : r.Tx → List r.K → Call r.World (List (r.K × r.V))
  unfolding unmarshalled call_of
  get_all tx ks w = unmarshalled (call_of (r.base_get_all tx (map r.marshall_key ks)) w)

  unfoldable pub put_units :
      r.Tx → r.K → r.V → ℕ → TimeUnit → ℕ → TimeUnit → Call r.World (Option r.V)
  unfolding expiring to_seconds call_of
  put_units tx k v l lu i iu =
      expiring (λ l' i'. call_of (r.base_put tx k v l' i')) (to_seconds f l lu) (to_seconds f i iu)

  unfoldable pub put : r.Tx → r.K → r.V → ℕ → ℕ → Call r.World (Option r.V)
  unfolding put_units
  put tx k v l i = put_units tx k v l seconds i seconds

  unfoldable pub put_unit : r.Tx → r.K → r.V → ℕ → TimeUnit → Call r.World (Option r.V)
  unfolding put_units
  put_unit tx k v l lu = put_units tx k v l lu 0 seconds

  unfoldable pub put_if_absent_units :
      r.Tx → r.K → r.V → ℕ → TimeUnit → ℕ → TimeUnit → Call r.World (Option r.V)
  unfolding expiring to_seconds call_of
  put_if_absent_units tx k v l lu i iu =
      expiring (λ l' i'. call_of (r.base_put_if_absent tx k v l' i')) (to_seconds f l lu)
        (to_seconds f i iu)

  unfoldable pub put_if_absent : r.Tx → r.K → r.V → ℕ → ℕ → Call r.World (Option r.V)
  unfolding put_if_absent_units
  put_if_absent tx k v l i = put_if_absent_units tx k v l seconds i seconds

  unfoldable pub put_if_absent_unit : r.Tx → r.K → r.V → ℕ → TimeUnit → Call r.World (Option r.V)
  unfolding put_if_absent_units
  put_if_absent_unit tx k v l lu = put_if_absent_units tx k v l lu 0 seconds

  unfoldable pub put_all_units :
      r.Tx → List (r.K × r.V) → ℕ → TimeUnit → ℕ → TimeUnit → Call r.World (Unit {0})
  unfolding expiring to_seconds call_of
  put_all_units tx kvs l lu i iu =
      expiring (λ l' i'. call_of (r.base_put_all tx kvs l' i')) (to_seconds f l lu)
        (to_seconds f i iu)

  unfoldable pub put_all : r.Tx → List (r.K × r.V) → ℕ → ℕ → Call r.World (Unit {0})
  unfolding put_all_units
  put_all tx kvs l i = put_all_units tx kvs l seconds i seconds

  unfoldable pub put_all_unit : r.Tx → List (r.K × r.V) → ℕ → TimeUnit → Call r.World (Unit {0})
  unfolding put_all_units
  put_all_unit tx kvs l lu = put_all_units tx kvs l lu 0 seconds

  unfoldable pub replace_units :
      r.Tx → r.K → r.V → ℕ → TimeUnit → ℕ → TimeUnit → Call r.World (Option r.V)
  unfolding expiring to_seconds call_of
  replace_units tx k v l lu i iu =
      expiring (λ l' i'. call_of (r.base_replace tx k v l' i')) (to_seconds f l lu)
        (to_seconds f i iu)

  unfoldable pub replace : r.Tx → r.K → r.V → ℕ → ℕ → Call r.World (Option r.V)
  unfolding replace_units
  replace tx k v l i = replace_units tx k v l seconds i seconds

  unfoldable pub replace_unit : r.Tx → r.K → r.V → ℕ → TimeUnit → Call r.World (Option r.V)
  unfolding replace_units
  replace_unit tx k v l lu = replace_units tx k v l lu 0 seconds

  unfoldable pub replace_old_units :
      r.Tx → r.K → r.V → r.V → ℕ → TimeUnit → ℕ → TimeUnit → Call r.World (Option r.V)
  unfolding unsupported
  replace_old_units tx k old v l lu i iu = unsupported

  unfoldable pub remove : r.Tx → r.K → Call r.World (Option r.V)
  unfolding call_of
  remove tx k = call_of (r.base_remove tx k)

  unfoldable pub contains_key : r.Tx → r.K → Call r.World Bool
  unfolding call_of
  contains_key tx k = call_of (r.base_contains_key tx k)

  unfoldable pub contains_value : r.V → Call r.World Bool
  unfolding unsupported
  contains_value v = unsupported

  unfoldable pub replace_with_version : r.Tx → r.K → r.V → ℕ → ℕ → ℕ → Call r.World Bool
  unfolding call_of
  replace_with_version tx k v version l i = call_of (r.base_replace_with_version tx k v version l i)

  unfoldable pub remove_with_version : r.Tx → r.K → ℕ → Call r.World Bool
  unfolding call_of
  remove_with_version tx k version = call_of (r.base_remove_with_version tx k version)

  unfoldable pub get_bulk : r.Tx → ℕ → Call r.World (List (r.K × r.V))
  unfolding call_of
  get_bulk tx n = call_of (r.base_get_bulk tx n)

  unfoldable pub key_set : r.Tx → Call r.World (List r.K)
  unfolding call_of
  key_set tx = call_of (r.base_key_set tx 0)

  unfoldable pub size : r.Tx → Call r.World ℕ
  unfolding call_of
  size tx = call_of (r.base_size tx)

  unfoldable pub is_zero : Answer ℕ × r.World → Answer Bool × r.World
  is_zero (returned n, w) = (returned (n == 0), w)
  is_zero (raised e, w) = (raised e, w)
  is_zero (undefined, w) = (undefined, w)

  unfoldable pub is_empty : r.Tx → Call r.World Bool
  unfolding size is_zero
  is_empty tx w = is_zero (size tx w)

  unfoldable pub clear : r.Tx → Call r.World (Unit {0})
  unfolding call_of
  clear tx = call_of (r.base_clear tx)
