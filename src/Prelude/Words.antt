-- ===== src/Prelude/Words.antt =====
-- Machine words: unsigned patterns below a power of two, and the casts of the source.
use Prim.Native.Nat.{ℕ, ◌+◌, ◌-◌, ◌*◌, ◌/◌, ◌%◌, ◌^◌, ◌<◌}
use mathlib.Core.Path.{◌≡◌}
use native.Mathlib.Omega.{arith}
use cpp_client.Prelude.Tests.{ltb, if◌then◌else◌}

abbrev pub u8 : ℕ → ℕ
u8 n = n % 2 ^ 8

abbrev pub u16 : ℕ → ℕ
u16 n = n % 2 ^ 16

abbrev pub u32 : ℕ → ℕ
u32 n = n % 2 ^ 32

abbrev pub u64 : ℕ → ℕ
u64 n = n % 2 ^ 64

abbrev pub IsByte : ℕ → Type 0
IsByte b = b < 2 ^ 8

abbrev pub IsU32 : ℕ → Type 0
IsU32 n = n < 2 ^ 32

abbrev pub IsU64 : ℕ → Type 0
IsU64 n = n < 2 ^ 64

-- `x << k` in a 64-bit word and `x >> k` of an unsigned word.
abbrev pub shl64 : ℕ → ℕ → ℕ
shl64 x k = u64 (x * 2 ^ k)

abbrev pub shr : ℕ → ℕ → ℕ
shr x k = x / 2 ^ k

-- A signed 8-bit value widened to 64 bits, as a two's complement pattern.
unfoldable pub sign_extend8 : ℕ → ℕ
sign_extend8 b = if ltb b 128 then b else b + (2 ^ 64 - 2 ^ 8)

-- A signed 16-bit value widened to 32 bits.
unfoldable pub sign_extend16 : ℕ → ℕ
sign_extend16 n = if ltb n (2 ^ 15) then n else n + (2 ^ 32 - 2 ^ 16)

-- Widening and then narrowing again gives the pattern back.
pub u16-sign_extend16 : (n : ℕ) → n < 2 ^ 16 → u16 (sign_extend16 n) ≡ n
unfolding sign_extend16
u16-sign_extend16 n h = ground arith

pub u8-sign_extend8 : (b : ℕ) → b < 2 ^ 8 → u8 (sign_extend8 b) ≡ b
unfolding sign_extend8
u8-sign_extend8 b h = ground arith
