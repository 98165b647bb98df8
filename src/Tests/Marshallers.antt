-- ===== src/Tests/Marshallers.antt =====
-- The marshallers at concrete values.
use cpp_client.Prelude.{ℕ, ◌≡◌, refl, [], ◌∷◌, length, leb, ◌%◌, arith, if◌then◌else◌}
use cpp_client.Marshallers.Basic.{
  marshall_string, unmarshall_string, helper_unmarshall_string, marshall_int, value, refused,
}
use cpp_client.Marshallers.RoundTrip.{
  unmarshall_string-marshall_string, helper_unmarshall_string-marshall_string,
}

hello : marshall_string (104 ∷ 105 ∷ []) ≡ 3 ∷ 0x3E ∷ 2 ∷ 104 ∷ 105 ∷ []
unfolding marshall_string
hello = refl

unmarshall_string-marshall_string_example :
    unmarshall_string (marshall_string (104 ∷ 105 ∷ []))
    ≡ value (
        if leb (length {A = ℕ} (104 ∷ 105 ∷ [])) 256
        then 104 ∷ 105 ∷ []
        else length {A = ℕ} (104 ∷ 105 ∷ []) % 256 ∷ 104 ∷ 105 ∷ [])
unmarshall_string-marshall_string_example = unmarshall_string-marshall_string (104 ∷ 105 ∷ [])

helper_unmarshall_string-marshall_string_example :
    helper_unmarshall_string (marshall_string (104 ∷ 105 ∷ [])) ≡ value (104 ∷ 105 ∷ [])
helper_unmarshall_string-marshall_string_example =
    helper_unmarshall_string-marshall_string (104 ∷ 105 ∷ []) (omega arith)

not_a_string : helper_unmarshall_string (marshall_int 5) ≡ refused
unfolding helper_unmarshall_string marshall_int
not_a_string = refl
