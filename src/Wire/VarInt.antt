-- ===== src/Wire/VarInt.antt =====
-- writeVInt and readVInt, writeVLong and readVLong: what is written is read back.
use native.Mathlib.Nat.{div-add-mod, mod-eq_of_lt}
use native.Mathlib.Numerals.{towards_suc}
use mathlib.Core.WellFounded.{Acc}
use cpp_client.Prelude.{
  ℕ, zero, suc, ◌+◌, ◌*◌, ◌/◌, ◌%◌, ◌^◌, ◌<◌, ◌≤◌, ◌≡◌, ◌≢◌, refl, ap, ◌∙◌, bit_and, bit_or, List,
  [], ◌∷◌, ◌++◌, arith, ℕ_discrete,
}
use cpp_client.Prelude.Bits.{bit_and_low, bit_and_from, bit_or_disjoint}
use cpp_client.Prelude.Words.{u8, IsU32, IsU64, shl64}
use cpp_client.Wire.Stream.{Read, got, ended}
use cpp_client.Wire.Write.{lt_wf, shrinks, write_var_loop, write_vint, write_vlong}
use cpp_client.Wire.Read.{read_var_loop, read_vint, read_vlong}

low_seven : (b : ℕ) → bit_and b 0x7f ≡ b % 128
low_seven b = bit_and_low 7 b

eighth : (b : ℕ) → bit_and b 0x80 ≡ b / 128 % 2 * 128
eighth b = bit_and_from 7 b 1 ∙ ap (λ (t : ℕ). t * 128) (bit_and_low 1 (b / 128))

set_eighth : (b : ℕ) → bit_or (bit_and b 0x7f) 0x80 ≡ b % 128 + 128
set_eighth b = ground (arith, low_seven b, bit_or_disjoint 7 (b % 128) 1)

high_bits32 : (v : ℕ) → IsU32 v → bit_and v 0xFFFF_FF80 ≡ v / 128 * 128
high_bits32 v h = omega (arith, bit_and_from 7 v 0x1FF_FFFF, bit_and_low 25 (v / 128))

high_bits64 : (v : ℕ) → IsU64 v → bit_and v 0xFFFF_FFFF_FFFF_FF80 ≡ v / 128 * 128
high_bits64 v h = omega (arith, bit_and_from 7 v 0x1FF_FFFF_FFFF_FFFF, bit_and_low 57 (v / 128))

-- The next group of seven bits joins the number above the bits that are there.
join_group :
    (width i g shift : ℕ)
    → 2 ^ width ≤ 2 ^ 64
    → g < 128
    → i < 2 ^ shift
    → i + g * 2 ^ shift < 2 ^ width
    → bit_or i (shl64 g shift) % 2 ^ width ≡ i + g * 2 ^ shift
join_group width i g shift hw hg hi fits =
    let whole : shl64 g shift ≡ g * 2 ^ shift = mod-eq_of_lt (omega arith) in
    rw (whole, bit_or_disjoint shift i g hi) (mod-eq_of_lt fits)

join_byte :
    (width i c g shift : ℕ)
    → 2 ^ width ≤ 2 ^ 64
    → c % 128 ≡ g
    → i < 2 ^ shift
    → i + g * 2 ^ shift < 2 ^ width
    → bit_or i (shl64 (bit_and c 0x7f) shift) % 2 ^ width ≡ i + g * 2 ^ shift
join_byte width i c g shift hw e hi fits =
    rw (low_seven c, e) (join_group width i g shift hw (omega arith) hi fits)

-- The loop from the point where it reads the byte at `shift`.
enter : ℕ → List ℕ → ℕ → ℕ → Read ℕ
enter width [] i shift = ended
enter width (c ∷ rest) i shift =
    read_var_loop width rest c (bit_or i (shl64 (bit_and c 0x7f) shift) % 2 ^ width) (shift + 7)

loop_goes_on :
    (width : ℕ) (input : List ℕ) (b i shift : ℕ)
    → bit_and b 0x80 ≢ 0
    → shift ≤ 63
    → read_var_loop width input b i shift ≡ enter width input i shift
unfolding read_var_loop enter
loop_goes_on width [] b i shift h hs = ground arith
loop_goes_on width (c ∷ rest) b i shift h hs = ground arith

loop_stops :
    (width : ℕ) (input : List ℕ) (b i shift : ℕ)
    → bit_and b 0x80 ≡ 0
    → read_var_loop width input b i shift ≡ got i input
unfolding read_var_loop
loop_stops width [] b i shift h = ground arith
loop_stops width (c ∷ rest) b i shift h = ground arith

seven_more : (s : ℕ) → 2 ^ (s + 7) ≡ 128 * 2 ^ s
seven_more s = simp towards_suc (omega arith)

-- The lowest group of `v` and what is above it, both shifted by `s`.
split_low : (v s : ℕ) → v * 2 ^ s ≡ v % 128 * 2 ^ s + v / 128 * 2 ^ (s + 7)
split_low v s = omega (
  arith,
  ap (λ (t : ℕ). t * 2 ^ s) (div-add-mod v 128),
  ap (λ (t : ℕ). v / 128 * t) (seven_more s),
)

group_fits : (g i s : ℕ) → g < 128 → i < 2 ^ s → i + g * 2 ^ s < 2 ^ (s + 7)
group_fits g i s hg hi =
    let top : g * 2 ^ s ≤ 127 * 2 ^ s = grind arith in omega (arith, seven_more s, top)

write_stops :
    (mask v : ℕ) (w : Acc ◌<◌ v) → bit_and v mask ≡ 0 → write_var_loop mask v w ≡ u8 v ∷ []
unfolding write_var_loop
write_stops mask v (Acc.intro _ smaller) h = ground arith

write_goes_on :
    (mask v : ℕ) (w : Acc ◌<◌ v)
    → bit_and v mask ≢ 0
    → (w' : Acc ◌<◌ (v / 128)) × (write_var_loop mask v w
        ≡ u8 (v % 128 + 128) ∷ write_var_loop mask (v / 128) w')
unfolding write_var_loop
write_goes_on mask v (Acc.intro _ smaller) h =
    (smaller _ (shrinks v mask h), ground (arith, set_eighth v))

module _ (width mask : ℕ) (narrow : 2 ^ width ≤ 2 ^ 64)
    (high_bits : (v : ℕ) → v < 2 ^ width → bit_and v mask ≡ v / 128 * 128) where
  last_group :
      (v i shift : ℕ) (rest : List ℕ)
      → v < 128
      → i < 2 ^ shift
      → i + v * 2 ^ shift < 2 ^ width
      → enter width (u8 v ∷ rest) i shift ≡ got (i + v * 2 ^ shift) rest
  unfolding enter
  last_group v i shift rest hv hi fits =
      loop_stops width rest (u8 v) _ (shift + 7) (omega (arith, eighth (u8 v)))
      ∙ ap (λ (t : ℕ). got t rest) (join_byte width i (u8 v) v shift narrow (omega arith) hi fits)

  inner_group :
      (v i shift : ℕ) (rest : List ℕ)
      → i < 2 ^ shift
      → i + v % 128 * 2 ^ shift < 2 ^ width
      → shift ≤ 56
      → enter width (u8 (v % 128 + 128) ∷ rest) i shift
        ≡ enter width rest (i + v % 128 * 2 ^ shift) (shift + 7)
  unfolding enter
  inner_group v i shift rest hi fits hs =
      loop_goes_on width rest _ _ (shift + 7) (omega (arith, eighth (u8 (v % 128 + 128))))
        (omega arith)
      ∙ ap (λ (t : ℕ). enter width rest t (shift + 7))
          (join_byte width i _ (v % 128) shift narrow (omega arith) hi fits)

  -- `v` is what is still to be read and counts from bit `shift` on; `k + 1` groups hold it.
  enter-write :
      (k v : ℕ) (w : Acc ◌<◌ v) (i shift : ℕ) (rest : List ℕ)
      → v < 128 ^ suc k
      → shift + 7 * k ≤ 63
      → v < 2 ^ width
      → i < 2 ^ shift
      → i + v * 2 ^ shift < 2 ^ width
      → enter width (write_var_loop mask v w ++ rest) i shift ≡ got (i + v * 2 ^ shift) rest
  enter-write zero v w i s rest hk hj hv hi fits =
      rw (write_stops mask v w (omega (arith, high_bits v hv))) (last_group v i s rest hk hi fits)
  enter-write (suc k) v w i s rest hk hj hv hi fits = elim (ℕ_discrete (bit_and v mask) 0) [
    | yes stop ↦
        rw (write_stops mask v w stop)
          (last_group v i s rest (omega (arith, high_bits v hv)) hi fits)
    | no more ↦
        let (w', e) = write_goes_on mask v w more in
        let part : i + v % 128 * 2 ^ s < 2 ^ width = omega (arith, split_low v s) in
        rw e (
          inner_group v i s (write_var_loop mask (v / 128) w' ++ rest) hi part (omega arith)
          ∙ enter-write k (v / 128) w' (i + v % 128 * 2 ^ s) (s + 7) rest (omega arith)
              (omega arith) (omega arith) (group_fits (v % 128) i s (omega arith) hi)
              (omega (arith, split_low v s))
          ∙ ap (λ (t : ℕ). got t rest) (omega (arith, split_low v s)))
  ]

-- The first byte is read before the loop.
first_byte :
    (width b : ℕ) (rest : List ℕ)
    → 2 ^ width ≤ 2 ^ 64
    → 128 ≤ 2 ^ width
    → read_var_loop width rest b (bit_and b 0x7f) 7 ≡ enter width (b ∷ rest) 0 0
unfolding enter
first_byte width b rest narrow wide =
    ap (λ (t : ℕ). read_var_loop width rest b t 7)
      (omega (
        arith,
        low_seven b,
        join_byte width 0 b (b % 128) 0 narrow refl (omega arith) (omega arith),
      ))

read_vint-enter : (input : List ℕ) → read_vint input ≡ enter 32 input 0 0
unfolding read_vint
read_vint-enter [] = unfold enter in refl
read_vint-enter (b ∷ rest) = first_byte 32 b rest (omega arith) (omega arith)

read_vlong-enter : (input : List ℕ) → read_vlong input ≡ enter 64 input 0 0
unfolding read_vlong
read_vlong-enter [] = unfold enter in refl
read_vlong-enter (b ∷ rest) = first_byte 64 b rest (omega arith) (omega arith)

-- For every unsigned 32-bit value, readVInt takes exactly the bytes that writeVInt put on the
-- stream, gives the value, and leaves whatever follows.
pub read_vint-write_vint :
    (v : ℕ) (rest : List ℕ) → IsU32 v → read_vint (write_vint v ++ rest) ≡ got v rest
unfolding write_vint
read_vint-write_vint v rest h =
    read_vint-enter _
    ∙ enter-write 32 0xFFFF_FF80 (omega arith) high_bits32 4 v (lt_wf.apply v) 0 0 rest
        (omega arith) (omega arith) h (omega arith) (omega arith)
    ∙ ap (λ (t : ℕ). got t rest) (omega arith)

-- For every unsigned 64-bit value, readVLong takes exactly the bytes that writeVLong put on the
-- stream, gives the value, and leaves whatever follows.
pub read_vlong-write_vlong :
    (v : ℕ) (rest : List ℕ) → IsU64 v → read_vlong (write_vlong v ++ rest) ≡ got v rest
unfolding write_vlong
read_vlong-write_vlong v rest h =
    read_vlong-enter _
    ∙ enter-write 64 0xFFFF_FFFF_FFFF_FF80 (omega arith) high_bits64 9 v (lt_wf.apply v) 0 0 rest
        (omega arith) (omega arith) h (omega arith) (omega arith)
    ∙ ap (λ (t : ℕ). got t rest) (omega arith)

pub write_vint-small : (v : ℕ) → v < 128 → write_vint v ≡ v ∷ []
unfolding write_vint
write_vint-small v h =
    write_stops 0xFFFF_FF80 v (lt_wf.apply v) (high_bits32 v (omega arith) ∙ omega arith)
    ∙ ap (λ t. t ∷ []) (omega arith)
