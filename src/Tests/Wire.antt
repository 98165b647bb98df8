-- ===== src/Tests/Wire.antt =====
-- The codecs of the wire on concrete values.
use cpp_client.Prelude.{ℕ_discrete, ◌≡◌, refl, [], ◌∷◌, ◌++◌, arith}
use cpp_client.Wire.Stream.{got}
use cpp_client.Wire.Write.{lt_wf, write_var_loop, write_vint, write_long}
use cpp_client.Wire.Read.{read_vint}
use cpp_client.Wire.VarInt.{read_vint-write_vint}

write_vint_300 : write_vint 300 ≡ 0xAC ∷ 0x02 ∷ []
unfolding write_vint write_var_loop lt_wf ℕ_discrete
write_vint_300 = refl

write_long_258 : write_long 258 ≡ 0 ∷ 0 ∷ 0 ∷ 0 ∷ 0 ∷ 0 ∷ 1 ∷ 2 ∷ []
unfolding write_long
write_long_258 = refl

read_vint-write_vint_example :
    read_vint (write_vint 0xFFFF_FFFF ++ (7 ∷ [])) ≡ got 0xFFFF_FFFF (7 ∷ [])
read_vint-write_vint_example = read_vint-write_vint 0xFFFF_FFFF (7 ∷ []) (omega arith)
