-- ===== src/Wire/Write.antt =====
-- The bytes that each `write…` puts on the stream.
use Prim.Native.Nat.{bit_and-bitwise}
use mathlib.Core.Logic.{dite}
use mathlib.Core.WellFounded.{Acc, WellFounded}
use cpp_client.Prelude.{
  refl, ℕ, zero, suc, ◌*◌, ◌/◌, ◌^◌, ◌<◌, ◌≢◌, bit_and, bit_or, List, [], ◌∷◌, ◌++◌, map, length,
  arith, ℕ_discrete,
}
use cpp_client.Prelude.Words.{u8, u32, shr}

below-Acc : (k n : ℕ) → n < k → Acc ◌<◌ n
below-Acc zero n h = absurd (omega arith)
below-Acc (suc k) n h = Acc.intro n (λ m hm. below-Acc k m (omega arith))

unfoldable pub lt_wf : WellFounded ◌<◌
unfolding below-Acc
lt_wf = record { apply = λ n. below-Acc (suc n) n (omega arith) }

pub shrinks : (v mask : ℕ) → bit_and v mask ≢ 0 → v / 2 ^ 7 < v
shrinks zero mask h = absurd (h (simp bit_and-bitwise refl))
shrinks (suc v) mask h = omega arith

-- `while ((u & ~0x7F) != 0) { write((u & 0x7f) | 0x80); u >>= 7; } write((char) u)`, for the width
-- at which `~0x7F` is `mask`.
unfoldable pub write_var_loop : (mask v : ℕ) → Acc ◌<◌ v → List ℕ
write_var_loop mask v (Acc.intro _ smaller) =
    dite (ℕ_discrete (bit_and v mask) 0) (λ _. u8 v ∷ [])
      (λ more.
        u8 (bit_or (bit_and v 0x7f) 0x80)
        ∷ write_var_loop mask (shr v 7) (smaller _ (shrinks v mask more)))

unfoldable pub write_vint : ℕ → List ℕ
write_vint v = write_var_loop 0xFFFF_FF80 v (lt_wf.apply v)

unfoldable pub write_vlong : ℕ → List ℕ
write_vlong v = write_var_loop 0xFFFF_FFFF_FFFF_FF80 v (lt_wf.apply v)

-- `ptr[7-i] = (char) (longValue >> (8*i))` for i from 0 to 7.
unfoldable pub write_long : ℕ → List ℕ
write_long v = map (λ i. u8 (shr v (8 * i))) (7 ∷ 6 ∷ 5 ∷ 4 ∷ 3 ∷ 2 ∷ 1 ∷ 0 ∷ [])

-- writeArray, and writeString on the characters of the string.
unfoldable pub write_array : List ℕ → List ℕ
write_array bytes = write_vint (u32 (length bytes)) ++ bytes
