-- ===== src/Wire/Shrinks.antt =====
-- A reader leaves no more than it found.
use cpp_client.Prelude.{
  ltb, ◌+◌, ◌^◌, ◌%◌, bit_or, ◌==◌, bit_and, ℕ, zero, suc, ◌≤◌, List, [], ◌∷◌, length, arith,
  if◌then◌else◌, Bool, true, false,
}
use cpp_client.Prelude.Words.{shl64}
use cpp_client.Wire.Stream.{Read, Reader, got, ended, undefined, ◌>>=◌, return}
use cpp_client.Wire.Read.{
  long_of, read_byte, read_vint, read_vlong, read_var, read_var_loop, read_bytes, read_long,
  read_array,
}

-- What is left, at most `n` bytes.
abbrev pub Leaves : {A : Type 0} → ℕ → Read A → Type 0
Leaves n (got a rest) = length rest ≤ n
Leaves n ended = Unit {0}
Leaves n undefined = Unit {0}

abbrev pub Shrinks : {A : Type 0} → Reader A → Type 0
Shrinks m = (input : List ℕ) → Leaves (length input) (m input)

pub Leaves-le : {A : Type 0} (n k : ℕ) (x : Read A) → n ≤ k → Leaves n x → Leaves k x
Leaves-le n k (got a rest) le h = omega arith
Leaves-le n k ended le h = tt
Leaves-le n k undefined le h = tt

pub bind-Leaves :
    {A B : Type 0} (n : ℕ) (x : Read A) (f : A → Reader B)
    → Leaves n x
    → ((a : A) → Shrinks (f a))
    → Leaves n (elim x [ got a rest ↦ f a rest | ended ↦ ended | undefined ↦ undefined ])
bind-Leaves n (got a rest) f h s = Leaves-le (length rest) n (f a rest) h (s a rest)
bind-Leaves n ended f h s = tt
bind-Leaves n undefined f h s = tt

pub bind-Shrinks :
    {A B : Type 0} (m : Reader A) (f : A → Reader B)
    → Shrinks m
    → ((a : A) → Shrinks (f a))
    → Shrinks (m >>= f)
bind-Shrinks m f h s input = bind-Leaves (length input) (m input) f (h input) s

pub return-Shrinks : {A : Type 0} (a : A) → Shrinks (return a)
return-Shrinks a input = omega arith

pub if-Leaves :
    {A : Type 0} (n : ℕ) (b : Bool) (x y : Read A)
    → Leaves n x
    → Leaves n y
    → Leaves n (if b then x else y)
if-Leaves n true x y hx hy = hx
if-Leaves n false x y hx hy = hy

pub if-Shrinks :
    {A : Type 0} (b : Bool) (m k : Reader A) → Shrinks m → Shrinks k → Shrinks (if b then m else k)
if-Shrinks true m k hm hk = hm
if-Shrinks false m k hm hk = hk

pub read_byte-Shrinks : Shrinks read_byte
unfolding read_byte
read_byte-Shrinks [] = tt
read_byte-Shrinks (b ∷ rest) = omega arith

pub var_loop-Leaves :
    (width : ℕ) (input : List ℕ) (b i shift : ℕ)
    → Leaves (length input) (read_var_loop width input b i shift)
unfolding read_var_loop
var_loop-Leaves width [] b i shift =
    if-Leaves 0 (bit_and b 0x80 == 0) (got i []) ended (omega arith) tt
var_loop-Leaves width (c ∷ rest) b i shift =
    let next = bit_or i (shl64 (bit_and c 0x7f) shift) % 2 ^ width in
    let more = read_var_loop width rest c next (shift + 7) in
    let later =
      Leaves-le (length rest) (suc (length rest)) more (omega arith)
        (var_loop-Leaves width rest c next (shift + 7)) in
    if-Leaves (suc (length rest)) (bit_and b 0x80 == 0) (got i (c ∷ rest))
      (if ltb 63 shift then undefined else more) (omega arith)
      (if-Leaves (suc (length rest)) (ltb 63 shift) undefined more tt later)

pub read_var-Shrinks : (width : ℕ) → Shrinks (read_var width)
unfolding read_var
read_var-Shrinks width [] = tt
read_var-Shrinks width (b ∷ rest) =
    Leaves-le (length rest) (suc (length rest)) (read_var_loop width rest b (bit_and b 0x7f) 7)
      (omega arith) (var_loop-Leaves width rest b (bit_and b 0x7f) 7)

pub read_vint-Shrinks : Shrinks read_vint
unfolding read_vint
read_vint-Shrinks = read_var-Shrinks 32

pub read_vlong-Shrinks : Shrinks read_vlong
unfolding read_vlong
read_vlong-Shrinks = read_var-Shrinks 64

pub consed-Leaves :
    (n b : ℕ) (x : Read (List ℕ))
    → Leaves n x
    → Leaves n (elim x [ got bs r ↦ got (b ∷ bs) r | ended ↦ ended | undefined ↦ undefined ])
consed-Leaves n b (got bs r) h = h
consed-Leaves n b ended h = tt
consed-Leaves n b undefined h = tt

pub read_bytes-Shrinks : (n : ℕ) → Shrinks (read_bytes n)
unfolding read_bytes
read_bytes-Shrinks zero input = omega arith
read_bytes-Shrinks (suc n) [] = tt
read_bytes-Shrinks (suc n) (b ∷ rest) = consed-Leaves (suc (length rest)) b (read_bytes n rest) (
    Leaves-le (length rest) (suc (length rest)) (read_bytes n rest) (omega arith)
      (read_bytes-Shrinks n rest))

pub read_array-Shrinks : Shrinks read_array
unfolding read_array
read_array-Shrinks = bind-Shrinks read_vint read_bytes read_vint-Shrinks read_bytes-Shrinks

pub read_long-Shrinks : Shrinks read_long
unfolding read_long
read_long-Shrinks =
    bind-Shrinks (read_bytes 8) (λ bytes. return (long_of 0 bytes)) (read_bytes-Shrinks 8)
      λ bytes. return-Shrinks (long_of 0 bytes)

pub array_then :
    {A : Type 0} (f : List ℕ → Reader A)
    → ((bytes : List ℕ) → Shrinks (f bytes))
    → Shrinks (read_array >>= f)
array_then f h = bind-Shrinks read_array f read_array-Shrinks h

pub byte_then :
    {A : Type 0} (f : ℕ → Reader A) → ((b : ℕ) → Shrinks (f b)) → Shrinks (read_byte >>= f)
byte_then f h = bind-Shrinks read_byte f read_byte-Shrinks h
