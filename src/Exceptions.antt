-- ===== src/Exceptions.antt =====
-- The exception classes of include/infinispan/hotrod/exceptions.h, with the fields that the client
-- reads back, and the outcome of an operation that may throw.
use cpp_client.Prelude.{ℕ, List, Bool, true, false}

-- `client` is a plain HotRodClientException; the text of a message is not modelled.
pub data Exception : Type 0 where
  client : Exception
  transport : List ℕ → ℕ → Exception
  invalid_response : Exception
  remote_node_suspect : Exception
  internal : Exception
  not_started : Exception
  unsupported_operation : Exception
  tx_state : Exception
  rollback : ℕ → Exception
  tx_remote_state : ℕ → Exception
  counter_upper_bound : Exception
  counter_lower_bound : Exception
  no_such_element : Exception

-- The handlers of `catch (const HotRodClientException&)`: the class and those derived from it.
unfoldable pub is_client_exception : Exception → Bool
is_client_exception counter_upper_bound = false
is_client_exception counter_lower_bound = false
is_client_exception no_such_element = false
is_client_exception _ = true

-- `fault` is behaviour that C++ leaves undefined: an index out of range, a null pointer, a shift
-- past the width, a division by zero.
pub data Outcome {ℓ} (A : Type ℓ) : Type ℓ where
  ok : A → Outcome A
  throws : Exception → Outcome A
  fault : Outcome A

-- Code that changes a state and may throw: a chain goes on from what its first part answers.
abbrev pub Run : Type 0 → Type 0 → Type 0
Run S A = S → Outcome A × S

abbrev pub then_run : {S A B : Type 0} → (A → Run S B) → Outcome A × S → Outcome B × S
then_run k (ok a, s) = k a s
then_run k (throws e, s) = (throws e, s)
then_run k (fault, s) = (fault, s)

infixl 5 ◌>>=◌
abbrev pub ◌>>=◌ : {S A B : Type 0} → Run S A → (A → Run S B) → Run S B
(m >>= k) s = then_run k (m s)

abbrev pub return : {S A : Type 0} → A → Run S A
return a s = (ok a, s)
