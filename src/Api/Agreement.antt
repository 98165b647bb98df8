-- ===== src/Api/Agreement.antt =====
-- The tasks of RemoteCache.h against the methods that they stand for.
use cpp_client.Prelude.{◌≡◌, refl, ℕ, List, Option, none, some}
use cpp_client.Api.Answers.{
  Answer, returned, raised, undefined, plain, StdException, Call, call_of, go_async, go_async_void,
  applied, failing, chosen,
}
use cpp_client.Api.Seconds.{Doubles, TimeUnit, unit_code, to_seconds}
use cpp_client.Api.Methods.{
  BaseCache, expiring, get, put, put_units, put_if_absent, put_if_absent_units, put_if_absent_unit,
  replace, replace_units, replace_unit, remove,
}
use cpp_client.Api.Async.{
  get_async, put_async, put_async_unit, put_async_units, put_if_absent_async,
  put_if_absent_async_units, put_if_absent_async_unit, replace_async, replace_async_units,
  replace_async_unit, remove_async, put_all_async, put_all_async_units, put_all_async_unit,
  clear_async, Task,
}

module _ (r : BaseCache) (f : Doubles) where
  -- A method that has a task and answers a value.
  pub data Job : Type 0 where
    gets : r.K → Job
    puts : r.K → r.V → ℕ → ℕ → Job
    puts_units : r.K → r.V → ℕ → TimeUnit → ℕ → TimeUnit → Job
    puts_if_absent : r.K → r.V → ℕ → ℕ → Job
    puts_if_absent_units : r.K → r.V → ℕ → TimeUnit → ℕ → TimeUnit → Job
    puts_if_absent_unit : r.K → r.V → ℕ → TimeUnit → Job
    replaces : r.K → r.V → ℕ → ℕ → Job
    replaces_units : r.K → r.V → ℕ → TimeUnit → ℕ → TimeUnit → Job
    replaces_unit : r.K → r.V → ℕ → TimeUnit → Job
    removes : r.K → Job

  -- Only the task of a get or a put runs in the transaction of its caller; a replace or a removal runs
  -- in that of the thread that runs the task, which is the second one.
  abbrev pub method : r.Tx → r.Tx → Job → Call r.World (Option r.V)
  method tx other (gets k) = get r f tx k
  method tx other (puts k v l i) = put r f tx k v l i
  method tx other (puts_units k v l lu i iu) = put_units r f tx k v l lu i iu
  method tx other (puts_if_absent k v l i) = put_if_absent r f tx k v l i
  method tx other (puts_if_absent_units k v l lu i iu) = put_if_absent_units r f tx k v l lu i iu
  method tx other (puts_if_absent_unit k v l lu) = put_if_absent_unit r f tx k v l lu
  method tx other (replaces k v l i) = replace r f other k v l i
  method tx other (replaces_units k v l lu i iu) = replace_units r f other k v l lu i iu
  method tx other (replaces_unit k v l lu) = replace_unit r f other k v l lu
  method tx other (removes k) = remove r f other k

  abbrev pub task : r.Tx → r.Tx → Job → Task r f (Option r.V)
  task tx other (gets k) = get_async r f tx k
  task tx other (puts k v l i) = put_async r f tx k v l i
  task tx other (puts_units k v l lu i iu) = put_async_units r f tx k v l lu i iu
  task tx other (puts_if_absent k v l i) = put_if_absent_async r f tx k v l i
  task tx other (puts_if_absent_units k v l lu i iu) =
      put_if_absent_async_units r f tx k v l lu i iu
  task tx other (puts_if_absent_unit k v l lu) = put_if_absent_async_unit r f tx k v l lu
  task tx other (replaces k v l i) = replace_async r f other k v l i
  task tx other (replaces_units k v l lu i iu) = replace_async_units r f other k v l lu i iu
  task tx other (replaces_unit k v l lu) = replace_async_unit r f other k v l lu
  task tx other (removes k) = remove_async r f other k

  -- What becomes of an exception: it goes to the callback for a failure, and without one it comes out
  -- as a plain std::exception.
  abbrev pub passed_on :
      Option (StdException → Call r.World (Option r.V))
      → Answer (Option r.V) × r.World
      → Answer (Option r.V) × r.World
  passed_on fail (returned a, w) = (returned a, w)
  passed_on none (raised e, w) = (raised plain, w)
  passed_on (some fail) (raised e, w) = fail e w
  passed_on fail (undefined, w) = (undefined, w)

  -- What the future gives for the end of the method: its value, or what the callback for success makes
  -- of it, and the same for an exception of the method or of that callback.
  abbrev pub sliced :
      Option (Option r.V → Call r.World (Option r.V))
      → Option (StdException → Call r.World (Option r.V))
      → Answer (Option r.V) × r.World
      → Answer (Option r.V) × r.World
  sliced none fail (returned a, w) = (returned a, w)
  sliced (some success) fail (returned a, w) = passed_on fail (success a w)
  sliced success fail (raised e, w) = passed_on fail (raised e, w)
  sliced success fail (undefined, w) = (undefined, w)

  failing-passed_on :
      (fail : Option (StdException → Call r.World (Option r.V))) (x : Answer (Option r.V) × r.World)
      → failing fail x ≡ passed_on fail x
  unfolding failing
  failing-passed_on none (returned a, w) = refl
  failing-passed_on none (raised e, w) = refl
  failing-passed_on none (undefined, w) = refl
  failing-passed_on (some fail) (returned a, w) = refl
  failing-passed_on (some fail) (raised e, w) = refl
  failing-passed_on (some fail) (undefined, w) = refl

  called_back :
      (success : Option (Option r.V → Call r.World (Option r.V)))
      (fail : Option (StdException → Call r.World (Option r.V))) (x : Answer (Option r.V) × r.World)
      → failing fail (applied success x) ≡ sliced success fail x
  unfolding applied
  called_back none fail (returned a, w) = failing-passed_on fail (returned a, w)
  called_back (some success) fail (returned a, w) = failing-passed_on fail (success a w)
  called_back none fail (raised e, w) = failing-passed_on fail (raised e, w)
  called_back (some success) fail (raised e, w) = failing-passed_on fail (raised e, w)
  called_back none fail (undefined, w) = failing-passed_on fail (undefined, w)
  called_back (some success) fail (undefined, w) = failing-passed_on fail (undefined, w)

  -- putAsync with one unit puts the entry for a lifespan that is not converted from its unit, and with
  -- the code of the unit as the maximal idle time in seconds.
  put_async_unit-misplaced :
      (tx : r.Tx) (k : r.K) (v : r.V) (l : ℕ) (lu : TimeUnit) (w : r.World)
      → put_async_unit r f tx k v l lu none none w
        ≡ sliced none none (put r f tx k v l (unit_code lu) w)
  unfolding put_async_unit put put_units expiring to_seconds go_async
  put_async_unit-misplaced tx k v l lu w =
      called_back none none (call_of (r.base_put tx k v l (unit_code lu)) w)

  -- With a callback for success, the tasks without a value call nothing but the callbacks: neither the
  -- entries nor the times nor the transaction make a difference, and nothing is put or cleared.
  pub put_all_async-skips :
      (tx other : r.Tx) (kvs : List (r.K × r.V)) (l i : ℕ) (lu iu : TimeUnit)
      (success : Call r.World (Unit {0})) (fail : Option (StdException → Call r.World (Unit {0})))
      (w : r.World)
      → (put_all_async r f tx kvs l i (some success) fail w ≡ failing fail (success w))
        × ((put_all_async_unit r f tx kvs l lu (some success) fail w ≡ failing fail (success w))
            × ((put_all_async_units r f tx kvs l lu i iu (some success) fail w
                  ≡ failing fail (success w))
                × (clear_async r f other (some success) fail w ≡ failing fail (success w))))
  unfolding put_all_async put_all_async_unit put_all_async_units clear_async go_async_void chosen
  put_all_async-skips tx other kvs l i lu iu success fail w = (refl, (refl, (refl, refl)))
