-- ===== src/Api/Answers.antt =====
-- What a call of the public API comes to, and goAsync of RemoteCache.h.
use cpp_client.Prelude.{Option, none, some}
use cpp_client.Exceptions.{Exception, Outcome, ok, throws, fault}

-- The classes that `catch (std::exception&)` sees. `plain` is the base class itself.
pub data StdException : Type 0 where
  derived : Exception → StdException
  invalid_argument : StdException
  plain : StdException

pub data Answer (A : Type 0) : Type 0 where
  returned : A → Answer A
  raised : StdException → Answer A
  undefined : Answer A

abbrev pub Call : Type 0 → Type 0 → Type 0
Call W A = W → Answer A × W

unfoldable pub answer_of : {A : Type 0} → Outcome A → Answer A
answer_of (ok a) = returned a
answer_of (throws e) = raised (derived e)
answer_of fault = undefined

unfoldable pub call_of : {W A : Type 0} → (W → Outcome A × W) → Call W A
unfolding answer_of
call_of m w = (answer_of (m w).0, (m w).1)

-- `success` and `fail` are the callbacks, with `none` for a null function.
unfoldable pub applied : {W A : Type 0} → Option (A → Call W A) → Answer A × W → Answer A × W
applied none x = x
applied (some success) (returned a, w) = success a w
applied (some success) (raised e, w) = (raised e, w)
applied (some success) (undefined, w) = (undefined, w)

-- `throw ex` copies what was caught as a std::exception.
unfoldable pub failing :
    {W A : Type 0} → Option (StdException → Call W A) → Answer A × W → Answer A × W
failing fail (returned a, w) = (returned a, w)
failing fail (undefined, w) = (undefined, w)
failing none (raised e, w) = (raised plain, w)
failing (some fail) (raised e, w) = fail e w

-- The task that std::async runs.
unfoldable pub go_async :
    {W A : Type 0} → Call W A → Option (A → Call W A) → Option (StdException → Call W A) → Call W A
unfolding applied failing
go_async f success fail w = failing fail (applied success (f w))

-- The same for an operation without a value: with a callback for success, only that is called.
unfoldable pub chosen :
    {W : Type 0} → Call W (Unit {0}) → Option (Call W (Unit {0})) → Call W (Unit {0})
chosen f none = f
chosen f (some success) = success

unfoldable pub go_async_void :
    {W : Type 0}
    → Call W (Unit {0})
    → Option (Call W (Unit {0}))
    → Option (StdException → Call W (Unit {0}))
    → Call W (Unit {0})
unfolding chosen failing
go_async_void f success fail w = failing fail (chosen f success w)
