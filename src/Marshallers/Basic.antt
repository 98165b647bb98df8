-- ===== src/Marshallers/Basic.antt =====
-- JBasicMarshaller.h. A string is the list of its bytes, an
-- int the pattern of its 32 bits.
use cpp_client.Prelude.{ℕ, ◌*◌, ◌^◌, not, ◌&&◌, List, [], ◌∷◌}
use cpp_client.Prelude.{bit_and, bit_xor, length, leb, ltb, ◌==◌, if◌then◌else◌}
use cpp_client.Prelude.Words.{u8, u32, shr, sign_extend8}
use cpp_client.Wire.Stream.{Read, got, ended, undefined}
use cpp_client.Wire.Read.{read_bytes}

abbrev pub marshall_version : ℕ
marshall_version = 0x03

abbrev pub small_string : ℕ
small_string = 0x3E

abbrev pub medium_string : ℕ
medium_string = 0x3F

abbrev pub integer : ℕ
integer = 0x4B

unfoldable pub marshall_small : List ℕ → List ℕ
marshall_small s = marshall_version ∷ small_string ∷ u8 (length s) ∷ s

unfoldable pub marshall_medium : List ℕ → List ℕ
marshall_medium s =
    marshall_version ∷ medium_string ∷ u8 (shr (length s) 8) ∷ u8 (bit_and (length s) 0xFF) ∷ s

unfoldable pub marshall_string : List ℕ → List ℕ
unfolding marshall_small marshall_medium
marshall_string s = if leb (length s) 0x100 then marshall_small s else marshall_medium s

-- What a marshaller of the application gets back. `refused` is the exception of the helper, `beyond`
-- a read outside of the buffer.
pub data Unmarshalled (A : Type 0) : Type 0 where
  value : A → Unmarshalled A
  refused : Unmarshalled A
  beyond : Unmarshalled A

-- `std::string(b.data() + 3, b.size() - 3)`
unfoldable pub unmarshall_string : List ℕ → Unmarshalled (List ℕ)
unmarshall_string (a ∷ b ∷ c ∷ s) = value s
unmarshall_string _ = beyond

unfoldable pub first_bytes : Read (List ℕ) → Unmarshalled (List ℕ)
first_bytes (got s rest) = value s
first_bytes ended = beyond
first_bytes undefined = beyond

-- JBasicMarshallerHelper: `std::string(b + 3, b[2])`, where the char `b[2]` becomes a size.
unfoldable pub helper_unmarshall_string : List ℕ → Unmarshalled (List ℕ)
unfolding first_bytes read_bytes sign_extend8
helper_unmarshall_string (v ∷ t ∷ n ∷ s) =
    if not (v == marshall_version)
    then refused
    else if not (t == small_string) && not (t == medium_string)
    then refused
    else first_bytes (read_bytes (sign_extend8 n) s)
helper_unmarshall_string _ = beyond

unfoldable pub add_preamble_small : List ℕ → List ℕ
add_preamble_small s = marshall_version ∷ small_string ∷ u8 (length s) ∷ s

-- `s.size() && 0xff` is one.
unfoldable pub add_preamble_medium : List ℕ → List ℕ
add_preamble_medium s = marshall_version ∷ medium_string ∷ u8 (shr (length s) 8) ∷ 1 ∷ s

unfoldable pub add_preamble : List ℕ → List ℕ
unfolding add_preamble_small add_preamble_medium
add_preamble s = if ltb (length s) 0x100 then add_preamble_small s else add_preamble_medium s

unfoldable pub marshall_int : ℕ → List ℕ
marshall_int n =
    marshall_version ∷ integer ∷ u8 (shr n 24) ∷ u8 (shr n 16) ∷ u8 (shr n 8) ∷ u8 n ∷ []

-- `result <<= 8; result ^= (int) *(b+i+2) & 0xFF` in an int, as the pattern of its bits.
unfoldable pub int_of : ℕ → List ℕ → ℕ
int_of r [] = r
int_of r (b ∷ bs) = int_of (bit_xor (u32 (r * 2 ^ 8)) (bit_and (sign_extend8 b) 0xFF)) bs

unfoldable pub unmarshall_int : List ℕ → Unmarshalled ℕ
unfolding int_of
unmarshall_int (x ∷ y ∷ a ∷ b ∷ c ∷ d ∷ rest) = value (int_of 0 (a ∷ b ∷ c ∷ d ∷ []))
unmarshall_int _ = beyond

unfoldable pub helper_unmarshall_int : List ℕ → Unmarshalled ℕ
unfolding unmarshall_int
helper_unmarshall_int (v ∷ t ∷ rest) =
    if not (v == marshall_version)
    then refused
    else if not (t == integer)
    then refused
    else unmarshall_int (v ∷ t ∷ rest)
helper_unmarshall_int _ = beyond
