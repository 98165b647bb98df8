-- ===== src/Operations/Layout.antt =====
-- The fields of a request, as the protocol lays them out: written and read in their order.
use cpp_client.Prelude.{
  ℕ, ◌^◌, ◌<◌, ◌≡◌, refl, ◌∙◌, ap, List, [], ◌∷◌, ◌++◌, map, append_assoc, length, All,
}
use cpp_client.Prelude.Words.{IsByte, IsU32, IsU64}
use cpp_client.Wire.Stream.{Reader, got, ◌>>=◌, >>=-got, return}
use cpp_client.Wire.Read.{read_byte, read_vint, read_vlong, read_long, read_array}
use cpp_client.Wire.Write.{write_vint, write_vlong, write_long, write_array}
use cpp_client.Wire.VarInt.{read_vint-write_vint, read_vlong-write_vlong}
use cpp_client.Wire.Fixed.{read_long-write_long}
use cpp_client.Wire.Arrays.{read_array-write_array}

pub data Field : Type 0 where
  octet : ℕ → Field
  number : ℕ → Field
  wide : ℕ → Field
  long : ℕ → Field
  array : List ℕ → Field

-- The kind of a field, as a field without its content.
abbrev pub kind : Field → Field
kind (octet b) = octet 0
kind (number n) = number 0
kind (wide n) = wide 0
kind (long n) = long 0
kind (array bs) = array []

abbrev pub Fits : Field → Type 0
Fits (octet b) = IsByte b
Fits (number n) = IsU32 n
Fits (wide n) = IsU64 n
Fits (long n) = IsU64 n
Fits (array bs) = length bs < 2 ^ 32

abbrev pub read_field : Field → Reader Field
read_field (octet _) = read_byte >>= λ b. return (octet b)
read_field (number _) = read_vint >>= λ n. return (number n)
read_field (wide _) = read_vlong >>= λ n. return (wide n)
read_field (long _) = read_long >>= λ n. return (long n)
read_field (array _) = read_array >>= λ bs. return (array bs)

abbrev pub read_fields : List Field → Reader (List Field)
read_fields [] = return []
read_fields (k ∷ ks) = read_field k >>= λ x. read_fields ks >>= λ xs. return (x ∷ xs)

abbrev pub write_field : Field → List ℕ
write_field (octet b) = b ∷ []
write_field (number n) = write_vint n
write_field (wide n) = write_vlong n
write_field (long n) = write_long n
write_field (array bs) = write_array bs

abbrev pub write_fields : List Field → List ℕ
write_fields [] = []
write_fields (x ∷ xs) = write_field x ++ write_fields xs

read_field-write_field :
    (x : Field) (rest : List ℕ) → Fits x → read_field (kind x) (write_field x ++ rest) ≡ got x rest
unfolding read_byte
read_field-write_field (octet b) rest h = refl
read_field-write_field (number n) rest h = >>=-got read_vint _ _ (read_vint-write_vint n rest h)
read_field-write_field (wide n) rest h = >>=-got read_vlong _ _ (read_vlong-write_vlong n rest h)
read_field-write_field (long n) rest h = >>=-got read_long _ _ (read_long-write_long n rest h)
read_field-write_field (array bs) rest h = >>=-got read_array _ _ (read_array-write_array bs rest h)

pub read_fields-write_fields :
    (xs : List Field) (rest : List ℕ)
    → All Fits xs
    → read_fields (map kind xs) (write_fields xs ++ rest) ≡ got xs rest
read_fields-write_fields [] rest h = refl
read_fields-write_fields (x ∷ xs) rest h =
    ap (read_fields (map kind (x ∷ xs))) (append_assoc (write_field x) (write_fields xs) rest)
    ∙ >>=-got (read_field (kind x)) _ _ (read_field-write_field x (write_fields xs ++ rest) h.0)
    ∙ >>=-got (read_fields (map kind xs)) _ _ (read_fields-write_fields xs rest h.1)
