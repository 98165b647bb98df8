-- ===== src/Wire/Fixed.antt =====
-- The fixed-width values: writeLong with readLong, and the ports of a topology.
use native.Mathlib.Nat.{mod-eq_of_lt}
use cpp_client.Prelude.{
  ℕ, ◌+◌, ◌*◌, ◌/◌, ◌^◌, ◌<◌, ◌≡◌, ap, ◌∙◌, bit_and, bit_xor, List, [], ◌∷◌, ◌++◌, arith,
}
use cpp_client.Prelude.Bits.{bit_and_low, bit_xor_disjoint}
use cpp_client.Prelude.Words.{u8, u16, IsByte, IsU64, shl64, sign_extend8, u8-sign_extend8}
use cpp_client.Wire.Stream.{got}
use cpp_client.Wire.Write.{write_long}
use cpp_client.Wire.Read.{read_bytes, read_long, long_of, short_of}

-- Masking a sign-extended byte gives the byte.
pub masked_byte : (b : ℕ) → IsByte b → bit_and (sign_extend8 b) 0xFF ≡ b
masked_byte b h = bit_and_low 8 (sign_extend8 b) ∙ u8-sign_extend8 b h

join_byte64 : (r b : ℕ) → r < 2 ^ 56 → IsByte b → bit_xor (shl64 r 8) b ≡ r * 2 ^ 8 + b
join_byte64 r b hr hb =
    ap (λ (t : ℕ). bit_xor t b) (mod-eq_of_lt {n = r * 2 ^ 8} (omega arith))
    ∙ bit_xor_disjoint 8 r b hb

-- One round of the loop, where `r` is all of `w` but its last byte.
long_step : (r w : ℕ) (bs : List ℕ) → r ≡ w / 256 → IsU64 w → long_of r (u8 w ∷ bs) ≡ long_of w bs
unfolding long_of
long_step r w bs e hw =
    ap (λ (t : ℕ). long_of t bs)
      (rw (masked_byte (u8 w) (omega arith))
        (join_byte64 r (u8 w) (omega arith) (omega arith) ∙ omega arith))

long_of-bytes : (v : ℕ) → IsU64 v → long_of 0 (write_long v) ≡ v
unfolding write_long
long_of-bytes v h =
    long_step 0 (v / 2 ^ 56) _ (omega arith) (omega arith)
    ∙ long_step _ (v / 2 ^ 48) _ (omega arith) (omega arith)
    ∙ long_step _ (v / 2 ^ 40) _ (omega arith) (omega arith)
    ∙ long_step _ (v / 2 ^ 32) _ (omega arith) (omega arith)
    ∙ long_step _ (v / 2 ^ 24) _ (omega arith) (omega arith)
    ∙ long_step _ (v / 2 ^ 16) _ (omega arith) (omega arith)
    ∙ long_step _ (v / 2 ^ 8) _ (omega arith) (omega arith)
    ∙ long_step _ (v / 1) _ (omega arith) (omega arith)
    ∙ unfold long_of in omega arith

-- For every 64-bit pattern, readLong takes exactly the eight bytes that writeLong put on the stream,
-- gives the pattern, and leaves whatever follows.
pub read_long-write_long :
    (v : ℕ) (rest : List ℕ) → IsU64 v → read_long (write_long v ++ rest) ≡ got v rest
unfolding write_long read_long read_bytes
read_long-write_long v rest h = ap (λ (t : ℕ). got t rest) (long_of-bytes v h)

join_byte16 : (r b : ℕ) → r < 2 ^ 8 → IsByte b → bit_xor (u16 (r * 2 ^ 8)) b ≡ r * 2 ^ 8 + b
join_byte16 r b hr hb =
    ap (λ (t : ℕ). bit_xor t b) (mod-eq_of_lt {n = r * 2 ^ 8} (omega arith))
    ∙ bit_xor_disjoint 8 r b hb

short_step :
    (r b : ℕ) (bs : List ℕ)
    → r < 2 ^ 8
    → IsByte b
    → short_of r (b ∷ bs) ≡ short_of (r * 2 ^ 8 + b) bs
unfolding short_of
short_step r b bs hr hb =
    ap (λ (t : ℕ). short_of t bs)
      (rw (masked_byte b hb, join_byte16 r b hr hb) (mod-eq_of_lt (omega arith)))

pub short_of-two_bytes : (b c : ℕ) → IsByte b → IsByte c → short_of 0 (b ∷ c ∷ []) ≡ b * 2 ^ 8 + c
short_of-two_bytes b c hb hc =
    short_step 0 b _ (omega arith) hb
    ∙ short_step _ c _ (omega arith) hc
    ∙ unfold short_of in omega arith
