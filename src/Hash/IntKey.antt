-- ===== src/Hash/IntKey.antt =====
-- MurmurHash3::hash(int32_t): the hash of the four bytes of an integer, with the code inlined.
use cpp_client.Prelude.{ℕ, bit_xor, List, [], ◌∷◌}
use cpp_client.Prelude.Words.{u8, u32, shl64, shr, sign_extend8}
use cpp_client.Hash.Murmur.{bmix, start, finish}

-- `k1 ^= (int64_t) b3 << 24; … k1 ^= b0;`
unfoldable pub int_word : ℕ → ℕ → ℕ → ℕ → ℕ
int_word b0 b1 b2 b3 =
    let k3 = bit_xor 0 (shl64 (sign_extend8 b3) 24) in
    let k2 = bit_xor k3 (shl64 (sign_extend8 b2) 16) in
    let k1 = bit_xor k2 (shl64 (sign_extend8 b1) 8) in bit_xor k1 (sign_extend8 b0)

unfoldable pub hash_int : ℕ → ℕ
unfolding int_word bmix start finish
hash_int key =
    let k1 = int_word (u8 key) (u8 (shr key 8)) (u8 (shr key 16)) (u8 (shr key 24)) in
    u32 (shr (finish 4 (bmix k1 0 (start 9001))) 32)

-- The bytes of an integer, the lowest first.
abbrev pub int_bytes : ℕ → List ℕ
int_bytes key = u8 key ∷ u8 (shr key 8) ∷ u8 (shr key 16) ∷ u8 (shr key 24) ∷ []
