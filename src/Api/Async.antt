-- ===== src/Api/Async.antt =====
-- The methods of RemoteCache.h that give a future: the task that std::async runs. `tx` is the
-- transaction of the calling thread, `other` that of the thread that the task runs in.
use cpp_client.Prelude.{ℕ, Bool, List, Option}
use cpp_client.Api.Answers.{Call, StdException, call_of, go_async, go_async_void}
use cpp_client.Api.Seconds.{Doubles, TimeUnit, seconds, unit_code, to_seconds}
use cpp_client.Api.Methods.{
  BaseCache, expiring, put_all, put_all_unit, put_all_units, replace_units, remove,
  replace_with_version, remove_with_version, clear,
}

module _ (r : BaseCache) (f : Doubles) where
  abbrev pub Success : Type 0 → Type 0
  Success A = Option (A → Call r.World A)

  abbrev pub Fail : Type 0 → Type 0
  Fail A = Option (StdException → Call r.World A)

  abbrev pub Task : Type 0 → Type 0
  Task A = Success A → Fail A → Call r.World A

  abbrev pub VoidTask : Type 0
  VoidTask = Option (Call r.World (Unit {0})) → Fail (Unit {0}) → Call r.World (Unit {0})

  unfoldable pub get_async : r.Tx → r.K → Task (Option r.V)
  unfolding go_async call_of
  get_async tx k = go_async (call_of (r.base_get tx k))

  unfoldable pub put_async : r.Tx → r.K → r.V → ℕ → ℕ → Task (Option r.V)
  unfolding go_async call_of
  put_async tx k v l i = go_async (call_of (r.base_put tx k v l i))

  -- The code of the unit stands in the place of the maximal idle time.
  unfoldable pub put_async_unit : r.Tx → r.K → r.V → ℕ → TimeUnit → Task (Option r.V)
  unfolding go_async call_of unit_code
  put_async_unit tx k v l lu = go_async (call_of (r.base_put tx k v l (unit_code lu)))

  unfoldable pub put_async_units :
      r.Tx → r.K → r.V → ℕ → TimeUnit → ℕ → TimeUnit → Task (Option r.V)
  unfolding go_async expiring to_seconds call_of
  put_async_units tx k v l lu i iu = go_async (
      expiring r f (λ l' i'. call_of (r.base_put tx k v l' i')) (to_seconds f l lu)
        (to_seconds f i iu))

  unfoldable pub put_if_absent_async : r.Tx → r.K → r.V → ℕ → ℕ → Task (Option r.V)
  unfolding go_async call_of
  put_if_absent_async tx k v l i = go_async (call_of (r.base_put_if_absent tx k v l i))

  unfoldable pub put_if_absent_async_units :
      r.Tx → r.K → r.V → ℕ → TimeUnit → ℕ → TimeUnit → Task (Option r.V)
  unfolding go_async expiring to_seconds call_of
  put_if_absent_async_units tx k v l lu i iu = go_async (
      expiring r f (λ l' i'. call_of (r.base_put_if_absent tx k v l' i')) (to_seconds f l lu)
        (to_seconds f i iu))

  unfoldable pub put_if_absent_async_unit : r.Tx → r.K → r.V → ℕ → TimeUnit → Task (Option r.V)
  unfolding put_if_absent_async_units
  put_if_absent_async_unit tx k v l lu = put_if_absent_async_units tx k v l lu 0 seconds

  -- From here on the task calls the method, which takes the transaction of its thread.
  unfoldable pub put_all_async : r.Tx → List (r.K × r.V) → ℕ → ℕ → VoidTask
  unfolding go_async_void put_all
  put_all_async other kvs l i = go_async_void (put_all r f other kvs l i)

  unfoldable pub put_all_async_unit : r.Tx → List (r.K × r.V) → ℕ → TimeUnit → VoidTask
  unfolding go_async_void put_all_unit
  put_all_async_unit other kvs l lu = go_async_void (put_all_unit r f other kvs l lu)

  unfoldable pub put_all_async_units :
      r.Tx → List (r.K × r.V) → ℕ → TimeUnit → ℕ → TimeUnit → VoidTask
  unfolding go_async_void put_all_units
  put_all_async_units other kvs l lu i iu = go_async_void (put_all_units r f other kvs l lu i iu)

  unfoldable pub replace_async_units :
      r.Tx → r.K → r.V → ℕ → TimeUnit → ℕ → TimeUnit → Task (Option r.V)
  unfolding go_async replace_units
  replace_async_units other k v l lu i iu = go_async (replace_units r f other k v l lu i iu)

  unfoldable pub replace_async : r.Tx → r.K → r.V → ℕ → ℕ → Task (Option r.V)
  unfolding replace_async_units
  replace_async other k v l i = replace_async_units other k v l seconds i seconds

  unfoldable pub replace_async_unit : r.Tx → r.K → r.V → ℕ → TimeUnit → Task (Option r.V)
  unfolding replace_async_units
  replace_async_unit other k v l lu = replace_async_units other k v l lu 0 seconds

  unfoldable pub remove_async : r.Tx → r.K → Task (Option r.V)
  unfolding go_async remove
  remove_async other k = go_async (remove r f other k)

  unfoldable pub replace_with_version_async : r.Tx → r.K → r.V → ℕ → ℕ → ℕ → Task Bool
  unfolding go_async replace_with_version
  replace_with_version_async other k v version l i =
      go_async (replace_with_version r f other k v version l i)

  unfoldable pub remove_with_version_async : r.Tx → r.K → ℕ → Task Bool
  unfolding go_async remove_with_version
  remove_with_version_async other k version = go_async (remove_with_version r f other k version)

  unfoldable pub clear_async : r.Tx → VoidTask
  unfolding go_async_void clear
  clear_async other = go_async_void (clear r f other)
