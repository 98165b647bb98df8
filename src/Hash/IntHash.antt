-- ===== src/Hash/IntHash.antt =====
-- The two hashes agree on integers.
use cpp_client.Prelude.{ℕ, ◌*◌, ◌^◌, ◌≡◌, arith}
use cpp_client.Prelude.Words.{u8, u64, shr, sign_extend8}
use cpp_client.Hash.Murmur.{tail_word, hash}
use cpp_client.Hash.IntKey.{int_word, hash_int, int_bytes}

sign_extend8-lt : (b : ℕ) → u64 (sign_extend8 (u8 b) * 2 ^ 0) ≡ sign_extend8 (u8 b)
unfolding sign_extend8
sign_extend8-lt b = ground arith

tail-int_word :
    (key : ℕ)
    → tail_word 0 (int_bytes key)
      ≡ int_word (u8 key) (u8 (shr key 8)) (u8 (shr key 16)) (u8 (shr key 24))
unfolding tail_word int_word
tail-int_word key = rw sign_extend8-lt

-- The hash of a 32-bit integer is that of its four bytes, the lowest first.
pub hash_int-hash : (key : ℕ) → hash_int key ≡ hash (int_bytes key)
unfolding hash_int hash
hash_int-hash key = rw tail-int_word
