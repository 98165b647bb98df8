-- ===== src/Api/Seconds.antt =====
-- TimeUnit.h and toSeconds of RemoteCache.h.
use cpp_client.Prelude.{
  inr, inl, ◌⊎◌, ℕ, ◌+◌, ◌*◌, ◌^◌, ◌≤◌, ◌<◌, ◌≡◌, refl, Option, none, some, arith,
}
use cpp_client.Prelude.Words.{u64}

pub data TimeUnit : Type 0 where
  seconds : TimeUnit
  milliseconds : TimeUnit
  nanoseconds : TimeUnit
  microseconds : TimeUnit
  minutes : TimeUnit
  hours : TimeUnit
  days : TimeUnit
  default : TimeUnit
  infinitum : TimeUnit

unfoldable pub unit_code : TimeUnit → ℕ
unit_code seconds = 0x00
unit_code milliseconds = 0x01
unit_code nanoseconds = 0x02
unit_code microseconds = 0x03
unit_code minutes = 0x04
unit_code hours = 0x05
unit_code days = 0x06
unit_code default = 0x07
unit_code infinitum = 0x08

-- `(uint64_t) ceil(time / d)` with a division of doubles. Below 2^53 a time is a double, and the
-- quotient by a number up to 10^9 is not rounded to a whole number that it is not.
pub record Doubles : Type 0 where
  pub ceil_quotient : ℕ → ℕ → ℕ
  pub below : (t d : ℕ) → t < 2 ^ 53 → 0 < d → d ≤ 10 ^ 9 → ceil_quotient t d * d < t + d
  pub above : (t d : ℕ) → t < 2 ^ 53 → 0 < d → d ≤ 10 ^ 9 → t ≤ ceil_quotient t d * d

module _ (f : Doubles) where
  -- `none` is std::invalid_argument.
  unfoldable pub to_seconds : ℕ → TimeUnit → Option ℕ
  to_seconds time nanoseconds = some (f.ceil_quotient time 1_000_000_000)
  to_seconds time microseconds = some (f.ceil_quotient time 1_000_000)
  to_seconds time milliseconds = some (f.ceil_quotient time 1_000)
  to_seconds time seconds = some time
  to_seconds time minutes = some (u64 (time * 60))
  to_seconds time hours = some (u64 (time * 3600))
  to_seconds time days = some (u64 (time * 86400))
  to_seconds time default = none
  to_seconds time infinitum = none

  -- How many nanoseconds a unit has.
  abbrev pub nanos : TimeUnit → ℕ
  nanos nanoseconds = 1
  nanos microseconds = 1_000
  nanos milliseconds = 1_000_000
  nanos seconds = 1_000_000_000
  nanos minutes = 60_000_000_000
  nanos hours = 3_600_000_000_000
  nanos days = 86_400_000_000_000
  nanos default = 0
  nanos infinitum = 0

  -- The seconds are as long as the time, and less than a second longer.
  abbrev pub Rounds : ℕ → TimeUnit → Option ℕ → Type 0
  Rounds time unit none = (unit ≡ default) ⊎ (unit ≡ infinitum)
  Rounds time unit (some s) =
      (time * nanos unit ≤ s * nanos seconds)
      × (s * nanos seconds < time * nanos unit + nanos seconds)

  -- With quotients of doubles that are rounded up as documented, a time below 2^47 in any unit that
  -- has a length is rounded up to whole seconds, by less than one; the two other values of the
  -- enumeration are refused.
  pub to_seconds-Rounds :
      (time : ℕ) (unit : TimeUnit) → time < 2 ^ 47 → Rounds time unit (to_seconds time unit)
  unfolding to_seconds
  to_seconds-Rounds time nanoseconds h = (
    omega (arith, f.above time 1_000_000_000 (omega arith) (omega arith) (omega arith)),
    omega (arith, f.below time 1_000_000_000 (omega arith) (omega arith) (omega arith)),
  )
  to_seconds-Rounds time microseconds h = (
    omega (arith, f.above time 1_000_000 (omega arith) (omega arith) (omega arith)),
    omega (arith, f.below time 1_000_000 (omega arith) (omega arith) (omega arith)),
  )
  to_seconds-Rounds time milliseconds h = (
    omega (arith, f.above time 1_000 (omega arith) (omega arith) (omega arith)),
    omega (arith, f.below time 1_000 (omega arith) (omega arith) (omega arith)),
  )
  to_seconds-Rounds time seconds h = (omega arith, omega arith)
  to_seconds-Rounds time minutes h = (omega arith, omega arith)
  to_seconds-Rounds time hours h = (omega arith, omega arith)
  to_seconds-Rounds time days h = (omega arith, omega arith)
  to_seconds-Rounds time default h = inl refl
  to_seconds-Rounds time infinitum h = inr refl
