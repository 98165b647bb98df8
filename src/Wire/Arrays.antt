-- ===== src/Wire/Arrays.antt =====
-- writeArray and readArray (and writeString and readString): a length and the bytes.
use native.Mathlib.Nat.{mod-eq_of_lt}
use cpp_client.Prelude.{
  ◌∙◌, ap, append_assoc, ℕ, ◌^◌, ◌<◌, ◌≡◌, refl, List, [], ◌∷◌, ◌++◌, length, arith, append_assoc,
}
use cpp_client.Prelude.Words.{u32}
use cpp_client.Wire.Stream.{got, >>=-got}
use cpp_client.Wire.Write.{write_array}
use cpp_client.Wire.Read.{read_vint, read_bytes, read_array}
use cpp_client.Wire.VarInt.{read_vint-write_vint}

pub read_bytes-append :
    (bytes rest : List ℕ) → read_bytes (length bytes) (bytes ++ rest) ≡ got bytes rest
unfolding read_bytes
read_bytes-append [] rest = refl
read_bytes-append (b ∷ bs) rest = rw (read_bytes-append bs rest)

-- For every byte array shorter than 2^32, readArray takes exactly the bytes that writeArray put on
-- the stream, gives the array, and leaves whatever follows.
pub read_array-write_array :
    (bytes rest : List ℕ)
    → length bytes < 2 ^ 32
    → read_array (write_array bytes ++ rest) ≡ got bytes rest
unfolding read_array write_array
read_array-write_array bytes rest h =
    let n : ℕ = u32 (length bytes) in
    rw append_assoc (
      >>=-got read_vint read_bytes _ (read_vint-write_vint n (bytes ++ rest) (omega arith))
      ∙ ap (λ (t : ℕ). read_bytes t (bytes ++ rest)) (mod-eq_of_lt h)
      ∙ read_bytes-append bytes rest)
