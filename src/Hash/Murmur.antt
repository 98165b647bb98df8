-- ===== src/Hash/Murmur.antt =====
-- impl/hash/MurmurHash3.cpp. An int64_t is the pattern of its 64 bits; products and sums wrap.
-- The bytes are read in little-endian order, as the pointer cast of `getblock64` does on the
-- platforms that the client is built for.
use cpp_client.Prelude.{ℕ, ◌+◌, ◌*◌, ◌^◌, ◌-◌, bit_or, bit_xor, List, [], ◌∷◌, length}
use cpp_client.Prelude.Words.{u32, u64, shl64, shr, sign_extend8}

unfoldable pub rotl64 : ℕ → ℕ → ℕ
rotl64 x r = bit_or (shl64 x r) (shr x (64 - r))

unfoldable pub fmix64 : ℕ → ℕ
fmix64 k0 =
    let k1 = bit_xor k0 (shr k0 33) in
    let k2 = u64 (k1 * 0xff51_afd7_ed55_8ccd) in
    let k3 = bit_xor k2 (shr k2 33) in
    let k4 = u64 (k3 * 0xc4ce_b9fe_1a85_ec53) in bit_xor k4 (shr k4 33)

-- The four variables of the mixing loop.
pub record Mix : Type 0 where
  pub h1 : ℕ
  pub h2 : ℕ
  pub c1 : ℕ
  pub c2 : ℕ

-- `bmix`: the body of the loop and of the tail.
unfoldable pub bmix : ℕ → ℕ → Mix → Mix
bmix k1 k2 s =
    let m1 = u64 (rotl64 (u64 (k1 * s.c1)) 23 * s.c2) in
    let h1 = u64 (bit_xor s.h1 m1 + s.h2) in
    let r2 = rotl64 s.h2 41 in
    let m2 = u64 (rotl64 (u64 (k2 * s.c2)) 23 * s.c1) in
    let h2 = u64 (bit_xor r2 m2 + h1) in
    record {
      h1 = u64 (h1 * 3 + 0x52dc_e729);
      h2 = u64 (h2 * 3 + 0x3849_5ab5);
      c1 = u64 (s.c1 * 5 + 0x7b7d_159c);
      c2 = u64 (s.c2 * 5 + 0x6bce_6396);
    }

-- A seed that is not negative is widened by zeros.
unfoldable pub start : ℕ → Mix
start seed = record {
  h1 = bit_xor 0x9368_e53c_2f6a_f274 seed;
  h2 = bit_xor 0x586d_cd20_8f7c_d3fd seed;
  c1 = 0x87c3_7b91_1142_53d5;
  c2 = 0x4cf5_ad43_2745_937f;
}

-- `getblock64`: eight bytes, the lowest first.
unfoldable pub block64 : List ℕ → ℕ
block64 [] = 0
block64 (b ∷ bs) = b + block64 bs * 2 ^ 8

-- One variable of the tail: `k ^= ((int64_t) tail[i]) << 8*i` from the last byte down to the first,
-- each byte a signed char.
unfoldable pub tail_word : ℕ → List ℕ → ℕ
tail_word shift [] = 0
tail_word shift (b ∷ bs) = bit_xor (tail_word (shift + 8) bs) (shl64 (sign_extend8 b) shift)

-- The loop over the blocks of sixteen bytes and then the tail; `len & 15` is the tail's length.
unfoldable pub body : List ℕ → Mix → Mix
unfolding bmix block64 tail_word
body (b0 ∷ b1 ∷ b2 ∷ b3 ∷ b4 ∷ b5 ∷ b6 ∷ b7 ∷ b8 ∷ b9 ∷ b10 ∷ b11 ∷ b12 ∷ b13 ∷ b14 ∷ b15 ∷ rest)
      s =
    body rest (
      bmix (block64 (b0 ∷ b1 ∷ b2 ∷ b3 ∷ b4 ∷ b5 ∷ b6 ∷ b7 ∷ []))
        (block64 (b8 ∷ b9 ∷ b10 ∷ b11 ∷ b12 ∷ b13 ∷ b14 ∷ b15 ∷ [])) s)
body (b0 ∷ b1 ∷ b2 ∷ b3 ∷ b4 ∷ b5 ∷ b6 ∷ b7 ∷ rest) s =
    bmix (tail_word 0 (b0 ∷ b1 ∷ b2 ∷ b3 ∷ b4 ∷ b5 ∷ b6 ∷ b7 ∷ [])) (tail_word 0 rest) s
body [] s = s
body tail s = bmix (tail_word 0 tail) 0 s

unfoldable pub finish : ℕ → Mix → ℕ
unfolding fmix64
finish len s =
    let h2 = bit_xor s.h2 len in
    let h1 = u64 (s.h1 + h2) in let h2' = u64 (h2 + h1) in u64 (fmix64 h1 + fmix64 h2')

unfoldable pub murmur_hash3_x64_64 : List ℕ → ℕ → ℕ
unfolding start body finish
murmur_hash3_x64_64 key seed = finish (length key) (body key (start seed))

unfoldable pub murmur_hash3_x64_32 : List ℕ → ℕ → ℕ
unfolding murmur_hash3_x64_64
murmur_hash3_x64_32 key seed = u32 (shr (murmur_hash3_x64_64 key seed) 32)

-- MurmurHash3::hash(const void*, size_t).
unfoldable pub hash : List ℕ → ℕ
unfolding murmur_hash3_x64_32
hash key = murmur_hash3_x64_32 key 9001
