-- ===== src/TransportFactory/Sets.antt =====
-- std::sort and std::set_difference on vectors of addresses, as updateServers uses them.
use cpp_client.Prelude.{
  ◌≡◌, refl, Bool, true, false, not, ◌&&◌, ◌||◌, List, [], ◌∷◌, arith, if◌then◌else◌,
}
use cpp_client.Address.{Address, address_less, address_same, address_same_iff}

unfoldable pub mem : Address → List Address → Bool
mem k [] = false
mem k (x ∷ xs) = address_same x k || mem k xs

unfoldable pub insert_sorted : Address → List Address → List Address
insert_sorted k [] = k ∷ []
insert_sorted k (x ∷ xs) =
    let rest = insert_sorted k xs in if address_less x k then x ∷ rest else k ∷ x ∷ xs

unfoldable pub sort : List Address → List Address
unfolding insert_sorted
sort [] = []
sort (x ∷ xs) = insert_sorted x (sort xs)

unfoldable pub erase_first : Address → List Address → List Address
erase_first k [] = []
erase_first k (x ∷ xs) = let rest = erase_first k xs in if address_same x k then xs else x ∷ rest

-- An element of the first range goes against one of the second.
unfoldable pub set_difference : List Address → List Address → List Address
unfolding mem erase_first
set_difference [] ys = []
set_difference (x ∷ xs) ys =
    let found = set_difference xs (erase_first x ys) in
    let kept = set_difference xs ys in if mem x ys then found else x ∷ kept

unfoldable pub is_distinct : List Address → Bool
unfolding mem
is_distinct [] = true
is_distinct (x ∷ xs) = not (mem x xs) && is_distinct xs

mem-insert_sorted :
    (k x : Address) (xs : List Address)
    → mem k (insert_sorted x xs) ≡ (address_same x k || mem k xs)
unfolding mem insert_sorted
mem-insert_sorted k x [] = refl
mem-insert_sorted k x (y ∷ ys) = ground (arith, mem-insert_sorted k x ys)

pub mem-sort : (k : Address) (xs : List Address) → mem k (sort xs) ≡ mem k xs
unfolding mem sort
mem-sort k [] = refl
mem-sort k (x ∷ xs) = ground (arith, mem-insert_sorted k x (sort xs), mem-sort k xs)

distinct-insert_sorted :
    (x : Address) (xs : List Address)
    → mem x xs ≡ false
    → is_distinct xs ≡ true
    → is_distinct (insert_sorted x xs) ≡ true
unfolding mem insert_sorted is_distinct
distinct-insert_sorted x [] h d = refl
distinct-insert_sorted x (y ∷ ys) h d = ground (
  arith,
  distinct-insert_sorted x ys,
  mem-insert_sorted y x ys,
  address_same_iff x y,
  address_same_iff y x,
)

pub distinct-sort : (xs : List Address) → is_distinct xs ≡ true → is_distinct (sort xs) ≡ true
unfolding is_distinct sort
distinct-sort [] d = refl
distinct-sort (x ∷ xs) d =
    distinct-insert_sorted x (sort xs) (ground (arith, mem-sort x xs))
      (distinct-sort xs (ground arith))

mem-erase_first :
    (k x : Address) (ys : List Address)
    → address_same x k ≡ false
    → mem k (erase_first x ys) ≡ mem k ys
unfolding mem erase_first
mem-erase_first k x [] h = refl
mem-erase_first k x (y ∷ ys) h = ground (
  arith,
  mem-erase_first k x ys,
  address_same_iff y x,
  address_same_iff x k,
  address_same_iff y k,
)

erase_first-fewer :
    (k x : Address) (ys : List Address) → mem k ys ≡ false → mem k (erase_first x ys) ≡ false
unfolding mem erase_first
erase_first-fewer k x [] h = refl
erase_first-fewer k x (y ∷ ys) h = ground (arith, erase_first-fewer k x ys)

pub difference-within :
    (k : Address) (xs ys : List Address) → mem k (set_difference xs ys) ≡ true → mem k xs ≡ true
unfolding mem set_difference
difference-within k [] ys h = h
difference-within k (x ∷ xs) ys h =
    ground (arith, difference-within k xs (erase_first x ys), difference-within k xs ys)

-- Nothing is in the difference that is in the second range, if the first has no element twice.
pub difference-apart :
    (k : Address) (xs ys : List Address)
    → is_distinct xs ≡ true
    → mem k (set_difference xs ys) ≡ true
    → mem k ys ≡ false
unfolding mem set_difference is_distinct
difference-apart k [] ys d h = ground arith
difference-apart k (x ∷ xs) ys d h = ground (
  arith,
  difference-apart k xs ys,
  difference-apart k xs (erase_first x ys),
  difference-within k xs (erase_first x ys),
  mem-erase_first k x ys,
  address_same_iff x k,
)

pub mem-difference :
    (k : Address) (xs ys : List Address)
    → mem k xs ≡ true
    → mem k ys ≡ false
    → mem k (set_difference xs ys) ≡ true
unfolding mem set_difference
mem-difference k [] ys h g = h
mem-difference k (x ∷ xs) ys h g = ground (
  arith,
  mem-difference k xs ys,
  mem-difference k xs (erase_first x ys),
  erase_first-fewer k x ys,
  address_same_iff x k,
)

pub distinct-difference :
    (xs ys : List Address) → is_distinct xs ≡ true → is_distinct (set_difference xs ys) ≡ true
unfolding mem set_difference is_distinct
distinct-difference [] ys d = refl
distinct-difference (x ∷ xs) ys d = ground (
  arith,
  distinct-difference xs ys,
  distinct-difference xs (erase_first x ys),
  difference-within x xs ys,
)

-- What is in the second range is not in the difference.
pub apart :
    (k : Address) (xs ys : List Address)
    → is_distinct xs ≡ true
    → mem k ys ≡ true
    → mem k (set_difference xs ys) ≡ false
apart k xs ys d h = ground (arith, difference-apart k xs ys d)
