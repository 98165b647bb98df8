-- ===== src/Prelude/Bits.antt =====
-- `&`, `|` and `^` on unsigned words as arithmetic: a low mask is a remainder, and the union of
-- numbers that share no binary digit is a sum.
use Prim.Native.Nat.{ℕ, zero, suc, ◌+◌, ◌-◌, ◌*◌, ◌/◌, ◌%◌, ◌^◌, ◌≤◌, ◌<◌, min, max, differ}
use Prim.Native.Nat.{bit_and, bit_or, bit_xor, digits, bitwise}
use Prim.Native.Nat.{bit_and-bitwise, bit_or-bitwise, bit_xor-bitwise}
use mathlib.Core.Path.{◌≡◌, refl, sym, ap, ◌∙◌}
use native.Mathlib.Nat.{pow-suc, one-le-pow, div-div-eq-div-mul}
use native.Mathlib.Omega.{arith}

-- `digits` counts a fuel down; any two fuels that cover the first number agree, so that the
-- operation satisfies one equation for its lowest digit.
module _ (rest : ℕ → ℕ) (op : ℕ → ℕ → ℕ) where
  digits-zero : (n b : ℕ) → digits rest op n zero b ≡ rest b
  digits-zero zero b = refl
  digits-zero (suc n) b = refl

  same_digits : (m n a b : ℕ) → a ≤ m → a ≤ n → digits rest op m a b ≡ digits rest op n a b
  same_digits m n zero b hm hn = digits-zero m b ∙ sym (digits-zero n b)
  same_digits zero n (suc a) b hm hn = absurd (omega arith)
  same_digits (suc m) zero (suc a) b hm hn = absurd (omega arith)
  same_digits (suc m) (suc n) (suc a) b hm hn =
      ap (λ (t : ℕ). t * 2 + op (suc a % 2) (b % 2))
        (same_digits m n (suc a / 2) (b / 2) (omega arith) (omega arith))

  lowest_digit :
      (a b : ℕ)
      → bitwise rest op (suc a) b ≡ bitwise rest op (suc a / 2) (b / 2) * 2 + op (suc a % 2) (b % 2)
  lowest_digit a b =
      ap (λ (t : ℕ). t * 2 + op (suc a % 2) (b % 2))
        (same_digits a (suc a / 2) (suc a / 2) (b / 2) (omega arith) (omega arith))

pub bit_and_lowest : (a b : ℕ) → bit_and a b ≡ bit_and (a / 2) (b / 2) * 2 + min (a % 2) (b % 2)
bit_and_lowest zero b = simp bit_and-bitwise (omega arith)
bit_and_lowest (suc a) b = simp bit_and-bitwise (lowest_digit (λ _. 0) min a b)

pub bit_or_lowest : (a b : ℕ) → bit_or a b ≡ bit_or (a / 2) (b / 2) * 2 + max (a % 2) (b % 2)
bit_or_lowest zero b = simp bit_or-bitwise (omega arith)
bit_or_lowest (suc a) b = simp bit_or-bitwise (lowest_digit (λ y. y) max a b)

-- A digit differs from 0 or 1 by what exclusive or says.
differ-right : (a : ℕ) → differ a 0 ≡ a
differ-right zero = refl
differ-right (suc a) = refl

bit_xor_lowest : (a b : ℕ) → bit_xor a b ≡ bit_xor (a / 2) (b / 2) * 2 + differ (a % 2) (b % 2)
bit_xor_lowest zero b = simp bit_xor-bitwise (omega arith)
bit_xor_lowest (suc a) b = simp bit_xor-bitwise (lowest_digit (λ y. y) differ a b)

two_pow_suc : (k : ℕ) → 2 ^ suc k ≡ 2 * 2 ^ k
two_pow_suc k = omega (arith, pow-suc 2 k)

shifted_suc : (g k : ℕ) → g * 2 ^ suc k ≡ 2 * (g * 2 ^ k)
shifted_suc g k = omega (arith, ap (λ (t : ℕ). g * t) (pow-suc 2 k))

halved : (a k : ℕ) → a / 2 ^ suc k ≡ a / 2 / 2 ^ k
halved a k = rw two_pow_suc (sym (div-div-eq-div-mul a 2 (2 ^ k)))

-- Numbers with no common digit: the low `k` digits of one, the others of the other.
pub bit_or_disjoint : (k a g : ℕ) → a < 2 ^ k → bit_or a (g * 2 ^ k) ≡ a + g * 2 ^ k
bit_or_disjoint zero zero g h = simp bit_or-bitwise (omega arith)
bit_or_disjoint zero (suc a) g h = absurd (omega arith)
bit_or_disjoint (suc k) a g h = ground (
  arith,
  bit_or_lowest a (g * 2 ^ suc k),
  shifted_suc g k,
  two_pow_suc k,
  bit_or_disjoint k (a / 2) g (omega (arith, two_pow_suc k)),
)

-- Zero on the right, for numbers up to a bound.
bit_xor-zero : (n a : ℕ) → a ≤ n → bit_xor a 0 ≡ a
bit_xor-zero n zero h = simp bit_xor-bitwise refl
bit_xor-zero zero (suc a) h = absurd (omega arith)
bit_xor-zero (suc n) (suc a) h =
    grind (arith, bit_xor_lowest (suc a) 0, bit_xor-zero n (suc a / 2) (omega arith), differ-right)

bit_and-zero : (n a : ℕ) → a ≤ n → bit_and a 0 ≡ 0
bit_and-zero n zero h = simp bit_and-bitwise refl
bit_and-zero zero (suc a) h = absurd (omega arith)
bit_and-zero (suc n) (suc a) h =
    omega (arith, bit_and_lowest (suc a) 0, bit_and-zero n (suc a / 2) (omega arith))

-- A shifted number takes a low part in by exclusive or.
pub bit_xor_disjoint : (k g a : ℕ) → a < 2 ^ k → bit_xor (g * 2 ^ k) a ≡ g * 2 ^ k + a
bit_xor_disjoint zero g zero h = ground (arith, bit_xor-zero g g)
bit_xor_disjoint zero g (suc a) h = absurd (omega arith)
bit_xor_disjoint (suc k) g a h = ground (
  arith,
  bit_xor_lowest (g * 2 ^ suc k) a,
  shifted_suc g k,
  two_pow_suc k,
  bit_xor_disjoint k g (a / 2) (omega (arith, two_pow_suc k)),
)

-- The low `k` ones, as a mask, keep the low part.
keep_low : (k q r : ℕ) → r < 2 ^ k → bit_and (r + q * 2 ^ k) (2 ^ k - 1) ≡ r
keep_low zero q zero h = ground (arith, bit_and-zero q q)
keep_low zero q (suc r) h = absurd (omega arith)
keep_low (suc k) q r h = ground (
  arith,
  bit_and_lowest (r + q * 2 ^ suc k) (2 ^ suc k - 1),
  shifted_suc q k,
  two_pow_suc k,
  keep_low k q (r / 2) (omega (arith, two_pow_suc k)),
)

pub bit_and_low : (k a : ℕ) → bit_and a (2 ^ k - 1) ≡ a % 2 ^ k
bit_and_low k a = ground (arith, one-le-pow k 2, keep_low k (a / 2 ^ k) (a % 2 ^ k))

bit_and_even : (a m : ℕ) → bit_and a (m * 2) ≡ bit_and (a / 2) m * 2
bit_and_even a m = ground (arith, bit_and_lowest a (m * 2))

-- A mask of `k` zeros under `m` reads the digits from the `k`-th on.
pub bit_and_from : (k a m : ℕ) → bit_and a (m * 2 ^ k) ≡ bit_and (a / 2 ^ k) m * 2 ^ k
bit_and_from zero a m = ground arith
bit_and_from (suc k) a m = ground (
  arith,
  bit_and_even a (m * 2 ^ k),
  shifted_suc m k,
  two_pow_suc k,
  shifted_suc (bit_and (a / 2 / 2 ^ k) m) k,
  bit_and_from k (a / 2) m,
  halved a k,
)
