-- ===== src/Marshallers/RoundTrip.antt =====
-- What the application gets back of what it marshalled.
use native.Mathlib.Nat.{mod-eq_of_lt}
use cpp_client.Prelude.{sym, ℕ, ◌*◌, ◌/◌, ◌%◌, ◌^◌, ◌<◌, ◌≡◌, refl, ap, ◌∙◌, List, [], ◌∷◌, arith}
use cpp_client.Prelude.{length, leb, append-nil, if◌then◌else◌}
use cpp_client.Prelude.Bits.{bit_and_low, bit_xor_disjoint}
use cpp_client.Prelude.Words.{u8, u32, shr, IsU32, sign_extend8}
use cpp_client.Wire.Stream.{got}
use cpp_client.Wire.Read.{read_bytes}
use cpp_client.Wire.Fixed.{masked_byte}
use cpp_client.Wire.Arrays.{read_bytes-append}
use cpp_client.Marshallers.Basic.{
  marshall_string, marshall_small, marshall_medium, unmarshall_string, helper_unmarshall_string,
  first_bytes, marshall_int, unmarshall_int, helper_unmarshall_int, int_of, value,
}

-- A string of at most 256 bytes comes back as it was marshalled; a longer one comes back with the low
-- byte of its length in front of it.
pub unmarshall_string-marshall_string :
    (s : List ℕ)
    → unmarshall_string (marshall_string s)
      ≡ value (if leb (length s) 256 then s else length s % 256 ∷ s)
unfolding unmarshall_string marshall_string marshall_small marshall_medium
unmarshall_string-marshall_string s = ground (arith, bit_and_low 8 (length s))

sized :
    (s : List ℕ)
    → length s < 128
    → first_bytes (read_bytes (sign_extend8 (u8 (length s))) s) ≡ value s
unfolding first_bytes sign_extend8
sized s h =
    let n : sign_extend8 (u8 (length s)) ≡ length s = ground arith in
    let all : read_bytes (length s) s ≡ got s [] =
      ap (read_bytes (length s)) (sym (append-nil s)) ∙ read_bytes-append s [] in
    rw (n, all) refl

-- The helper, which takes the length from the buffer, gives back every string of less than 128 bytes.
pub helper_unmarshall_string-marshall_string :
    (s : List ℕ) → length s < 128 → helper_unmarshall_string (marshall_string s) ≡ value s
unfolding helper_unmarshall_string marshall_string marshall_small marshall_medium
helper_unmarshall_string-marshall_string s h = ground (arith, sized s h)

int_step : (r w : ℕ) (bs : List ℕ) → r ≡ w / 256 → IsU32 w → int_of r (u8 w ∷ bs) ≡ int_of w bs
unfolding int_of
int_step r w bs e hw =
    let widened : u32 (r * 2 ^ 8) ≡ r * 2 ^ 8 = mod-eq_of_lt (omega arith) in
    ap (λ (t : ℕ). int_of t bs)
      (rw (masked_byte (u8 w) (omega arith), widened)
        (bit_xor_disjoint 8 r (u8 w) (omega arith) ∙ omega arith))

-- Every int comes back as it was marshalled, from the marshaller and from the helper.
unmarshall_int-marshall_int :
    (n : ℕ)
    → IsU32 n
    → (unmarshall_int (marshall_int n) ≡ value n)
      × (helper_unmarshall_int (marshall_int n) ≡ value n)
unfolding unmarshall_int marshall_int helper_unmarshall_int
unmarshall_int-marshall_int n h =
    let back : int_of 0 (u8 (shr n 24) ∷ u8 (shr n 16) ∷ u8 (shr n 8) ∷ u8 n ∷ []) ≡ n =
      int_step 0 (n / 2 ^ 24) (u8 (shr n 16) ∷ u8 (shr n 8) ∷ u8 n ∷ []) (omega arith) (omega arith)
      ∙ int_step (n / 2 ^ 24) (n / 2 ^ 16) (u8 (shr n 8) ∷ u8 n ∷ []) (omega arith) (omega arith)
      ∙ int_step (n / 2 ^ 16) (n / 2 ^ 8) (u8 n ∷ []) (omega arith) (omega arith)
      ∙ int_step (n / 2 ^ 8) n [] (omega arith) (omega arith)
      ∙ unfold int_of in refl in
    (ap value back, ap value back)
