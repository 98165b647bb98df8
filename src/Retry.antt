-- ===== src/Retry.antt =====
-- impl/operations/RetryOnFailureOperation.h: an operation is tried on one transport after another.
-- The transport factory and the operation are an interface.
pub mod Rounds
use cpp_client.Prelude.{
  ℕ, zero, suc, ◌+◌, Bool, true, false, List, [], ◌∷◌, Option, none, some, leb, if◌then◌else◌,
}
use cpp_client.Prelude.Maps.{contains, insert}
use cpp_client.Address.{Address, new_address, address_key}
use cpp_client.Exceptions.{
  Exception, client, transport, invalid_response, remote_node_suspect, internal,
  unsupported_operation, tx_state, rollback, tx_remote_state, counter_upper_bound,
  counter_lower_bound, no_such_element, Outcome, ok, throws, fault,
}

-- A set of servers, in their order.
abbrev pub Servers : Type 0
Servers = List (Address × Unit {0})

-- TransportFactory as the operation sees it, and `executeOperation`. `World` is the state of the
-- pools, the connections and the cluster, and each operation may throw.
pub record Factory : Type 1 where
  pub World : Type 0
  pub Transport : Type 0
  pub Result : Type 0
  pub max_retries : ℕ
  pub get_transport : Servers → World → Outcome Transport × World
  pub execute_operation : Transport → World → Outcome Result × World
  pub release_transport : Transport → World → Outcome (Unit {0}) × World
  pub invalidate_transport : Address → Transport → World → Outcome (Unit {0}) × World
  pub cluster_switch : World → Outcome Bool × World

module _ (f : Factory) where
  -- What an attempt came to: the operation is over, or its exception is one to retry on.
  pub data Attempt : Type 0 where
    over : Outcome f.Result → f.World → Attempt
    failed_by : Exception → Servers → f.World → Attempt

  unfoldable pub should_retry : ℕ → Bool
  should_retry count = leb count f.max_retries

  -- The guards on a null pointer: no transport was obtained.
  unfoldable pub release : Option f.Transport → f.World → Outcome (Unit {0}) × f.World
  release none w = (ok tt, w)
  release (some t) w = f.release_transport t w

  unfoldable pub invalidate : Address → Option f.Transport → f.World → Outcome (Unit {0}) × f.World
  invalidate a none w = (ok tt, w)
  invalidate a (some t) w = f.invalidate_transport a t w

  unfoldable pub after_switch : Outcome Bool × f.World → Outcome (Option ℕ) × f.World
  after_switch (ok true, w) = (ok (some 0), w)
  after_switch (ok false, w) = (ok none, w)
  after_switch (throws x, w) = (throws x, w)
  after_switch (fault, w) = (fault, w)

  -- logErrorAndThrowExceptionIfNeeded: the count to go on with, or `none` where it throws the exception
  -- again.
  unfoldable pub next_count : ℕ → f.World → Outcome (Option ℕ) × f.World
  unfolding after_switch
  next_count count w =
      if leb f.max_retries (count + 1)
      then after_switch (f.cluster_switch w)
      else (ok (some count), w)

  -- A handler that goes on after it gave the transport back: what that throws leaves execute.
  unfoldable pub retry_on : Exception → Servers → Outcome (Unit {0}) × f.World → Attempt
  retry_on e failed (ok _, w) = failed_by e failed w
  retry_on e failed (throws x, w) = over (throws x) w
  retry_on e failed (fault, w) = over fault w

  -- A handler that ends with `throw`.
  unfoldable pub rethrow : Exception → Outcome (Unit {0}) × f.World → Attempt
  rethrow e (ok _, w) = over (throws e) w
  rethrow e (throws x, w) = over (throws x) w
  rethrow e (fault, w) = over fault w

  -- The handlers. NoSuchElementException is under none of them.
  unfoldable pub handle : Servers → Option f.Transport → Exception → f.World → Attempt
  unfolding release invalidate retry_on rethrow
  handle failed t (transport host port) w =
      let a = new_address host port in
      retry_on (transport host port) (insert a tt failed) (invalidate a t w)
  handle failed t counter_upper_bound w = rethrow counter_upper_bound (release t w)
  handle failed t counter_lower_bound w = rethrow counter_lower_bound (release t w)
  handle failed t no_such_element w = over (throws no_such_element) w
  handle failed t e w = retry_on e failed (release t w)

  -- The release after the operation is in the try block: what it throws is handled as well.
  unfoldable pub released :
      Servers → f.Transport → f.Result → Outcome (Unit {0}) × f.World → Attempt
  unfolding handle
  released failed t r (ok _, w) = over (ok r) w
  released failed t r (throws e, w) = handle failed (some t) e w
  released failed t r (fault, w) = over fault w

  unfoldable pub operated : Servers → f.Transport → Outcome f.Result × f.World → Attempt
  unfolding released release handle
  operated failed t (ok r, w) = released failed t r (release (some t) w)
  operated failed t (throws e, w) = handle failed (some t) e w
  operated failed t (fault, w) = over fault w

  unfoldable pub try_on : Servers → Outcome f.Transport × f.World → Attempt
  unfolding operated handle
  try_on failed (ok t, w) = operated failed t (f.execute_operation t w)
  try_on failed (throws e, w) = handle failed none e w
  try_on failed (fault, w) = over fault w

  abbrev pub Loop : Type 0
  Loop = ℕ → Servers → f.World → Option (Outcome f.Result × f.World)

  -- `++retryCount` and the next round, unless the exception goes on.
  unfoldable pub next_round :
      Loop
      → Exception
      → Servers
      → Outcome (Option ℕ) × f.World
      → Option (Outcome f.Result × f.World)
  next_round loop e failed (ok none, w) = some (throws e, w)
  next_round loop e failed (ok (some count), w) = loop (count + 1) failed w
  next_round loop e failed (throws x, w) = some (throws x, w)
  next_round loop e failed (fault, w) = some (fault, w)

  unfoldable pub after : Loop → ℕ → Attempt → Option (Outcome f.Result × f.World)
  unfolding next_count next_round
  after loop count (over r w) = some (r, w)
  after loop count (failed_by e failed w) = next_round loop e failed (next_count count w)

  -- The loop, with the rounds that may still be made; `none` when they do not suffice.
  unfoldable pub execute_loop : ℕ → Loop
  unfolding should_retry try_on after
  execute_loop zero count failed w = none
  execute_loop (suc fuel) count failed w = elim (should_retry count) [
    | false ↦ some (throws internal, w)
    | true ↦ after (execute_loop fuel) count (try_on failed (f.get_transport failed w))
  ]

  unfoldable pub execute : ℕ → f.World → Option (Outcome f.Result × f.World)
  unfolding execute_loop
  execute fuel w = execute_loop fuel 0 [] w
