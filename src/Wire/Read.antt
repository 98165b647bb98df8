-- ===== src/Wire/Read.antt =====
-- The values that each `read…` takes from the stream.
use cpp_client.Prelude.{
  ℕ, zero, suc, ◌+◌, ◌*◌, ◌^◌, ◌%◌, bit_and, bit_or, bit_xor, List, [], ◌∷◌, ltb, ◌==◌,
  if◌then◌else◌,
}
use cpp_client.Prelude.Words.{u16, u32, shl64, sign_extend8}
use cpp_client.Wire.Stream.{Read, Reader, got, ended, undefined, ◌>>=◌, return}

unfoldable pub read_byte : Reader ℕ
read_byte [] = ended
read_byte (b ∷ rest) = got b rest

-- `for (shift = 7; (b & 0x80) != 0; shift += 7) { b = read(); i |= (b & 0x7FL) << shift; }` with `i`
-- kept in `width` bits. The shifted operand is a long, so that a shift past 63 is undefined.
unfoldable pub read_var_loop : ℕ → List ℕ → ℕ → ℕ → ℕ → Read ℕ
read_var_loop width [] b i shift = if bit_and b 0x80 == 0 then got i [] else ended
read_var_loop width (c ∷ rest) b i shift =
    let next = bit_or i (shl64 (bit_and c 0x7f) shift) % 2 ^ width in
    let more = read_var_loop width rest c next (shift + 7) in
    if bit_and b 0x80 == 0 then got i (c ∷ rest) else if ltb 63 shift then undefined else more

unfoldable pub read_var : ℕ → Reader ℕ
unfolding read_var_loop
read_var width [] = ended
read_var width (b ∷ rest) = read_var_loop width rest b (bit_and b 0x7f) 7

unfoldable pub read_vint : Reader ℕ
unfolding read_var
read_vint input = read_var 32 input

unfoldable pub read_vlong : Reader ℕ
unfolding read_var
read_vlong input = read_var 64 input

-- `socket.getInputStream().read(buffer, size)`: all the bytes or a TransportException.
unfoldable pub read_bytes : ℕ → Reader (List ℕ)
read_bytes zero input = got [] input
read_bytes (suc n) [] = ended
read_bytes (suc n) (b ∷ rest) = elim (read_bytes n rest) [
  | got bs r ↦ got (b ∷ bs) r
  | ended ↦ ended
  | undefined ↦ undefined
]

-- readArray, and readString as the characters of the string.
unfoldable pub read_array : Reader (List ℕ)
read_array = do size ← read_vint; read_bytes size

-- `result <<= 8; result ^= (int64_t) byte & 0xFF` over the bytes.
unfoldable pub long_of : ℕ → List ℕ → ℕ
long_of r [] = r
long_of r (b ∷ bs) = long_of (bit_xor (shl64 r 8) (bit_and (sign_extend8 b) 0xFF)) bs

unfoldable pub read_long : Reader ℕ
read_long = do bytes ← read_bytes 8; return (long_of 0 bytes)

-- The same in an int16_t: the pattern of its 16 bits.
unfoldable pub short_of : ℕ → List ℕ → ℕ
short_of r [] = r
short_of r (b ∷ bs) = short_of (u16 (bit_xor (u16 (r * 2 ^ 8)) (bit_and (sign_extend8 b) 0xFF))) bs

unfoldable pub read_unsigned_short : Reader ℕ
read_unsigned_short = do bytes ← read_bytes 2; return (short_of 0 bytes)

-- `result = (result << 8) + readByte()`, four times.
four_bytes : ℕ → ℕ → Reader ℕ
four_bytes zero r = return r
four_bytes (suc n) r = do b ← read_byte; four_bytes n (u32 (u32 (r * 2 ^ 8) + b))

unfoldable pub read_4byte_int : Reader ℕ
unfolding four_bytes
read_4byte_int = four_bytes 4 0
