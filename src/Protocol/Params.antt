-- ===== src/Protocol/Params.antt =====
-- The parameters that Codec20 (impl/protocol/Codec20.cpp) writes after a header, and the previous
-- value that it reads after one.
use cpp_client.Prelude.{
  Bool-cases, ◌^◌, inl, inr, ℕ, ◌≡◌, ◌∙◌, not, ◌&&◌, List, [], ◌∷◌, ◌++◌, append_assoc, length, ltb,
  ◌==◌, if◌then◌else◌, arith,
}
use cpp_client.Prelude.Words.{IsU32, u8, u32}
use cpp_client.Exceptions.{Outcome, ok, throws, fault, client}
use cpp_client.Wire.Stream.{Read, Reader, got, ◌>>=◌, >>=-got, return}
use cpp_client.Wire.Read.{read_vint, read_array}
use cpp_client.Wire.Write.{write_vint, write_array}
use cpp_client.Wire.VarInt.{read_vint-write_vint}
use cpp_client.Protocol.OpCodes.{has_previous}

-- Both are compared with their low 32 bits before anything is written.
unfoldable pub write_expiration_params : ℕ → ℕ → Outcome (List ℕ)
write_expiration_params lifespan max_idle =
    if not (u32 lifespan == lifespan)
    then throws client
    else if not (u32 max_idle == max_idle)
    then throws client
    else ok (write_vint (u32 lifespan) ++ write_vint (u32 max_idle))

unfoldable pub write_each : List (List ℕ) → List ℕ
write_each [] = []
write_each (p ∷ rest) = write_array p ++ write_each rest

-- A factory without a name has no parameters; the number of the others is cut to a byte.
unfoldable pub write_named_factory : List ℕ → List (List ℕ) → List ℕ
unfolding write_each
write_named_factory [] params = write_array []
write_named_factory (c ∷ cs) params =
    write_array (c ∷ cs) ++ (u8 (length params) ∷ write_each params)

unfoldable pub return_possible_prev_value : ℕ → Reader (List ℕ)
return_possible_prev_value status = if has_previous status then read_array else return []

abbrev pub two_numbers : Reader (ℕ × ℕ)
two_numbers = do l ← read_vint; i ← read_vint; return (l, i)

-- What a reader makes of what was written.
abbrev pub read_back : Outcome (List ℕ) → List ℕ → Outcome (Read (ℕ × ℕ))
read_back (ok bytes) rest = ok (two_numbers (bytes ++ rest))
read_back (throws e) rest = throws e
read_back fault rest = fault

both_numbers :
    (l i : ℕ) (rest : List ℕ)
    → IsU32 l
    → IsU32 i
    → two_numbers ((write_vint l ++ write_vint i) ++ rest) ≡ got (l, i) rest
both_numbers l i rest hl hi = rw append_assoc (
    >>=-got read_vint _ _ (read_vint-write_vint l (write_vint i ++ rest) hl)
    ∙ >>=-got read_vint _ _ (read_vint-write_vint i rest hi))

-- The life span and the idle time that are written are read back as two numbers when both fit in 32
-- bits; otherwise the call throws and writes nothing.
write_expiration_params-read_back :
    (lifespan max_idle : ℕ) (rest : List ℕ)
    → read_back (write_expiration_params lifespan max_idle) rest ≡ (
        if ltb lifespan (2 ^ 32) && ltb max_idle (2 ^ 32)
        then ok (got (lifespan, max_idle) rest)
        else throws client)
unfolding write_expiration_params
write_expiration_params-read_back l i rest = elim (Bool-cases (ltb l (2 ^ 32) && ltb i (2 ^ 32))) [
  | inr big ↦ rw big (ground arith)
  | inl fit ↦
      let hl : u32 l ≡ l = ground arith in
      let hi : u32 i ≡ i = ground arith in
      rw fit (ground (arith, both_numbers l i rest (ground arith) (ground arith)))
]
