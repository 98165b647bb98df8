-- ===== src/Prelude/Maps.antt =====
-- `std::map` as an association list in key order, over an interface for the keys.
use Prim.Native.Nat.{ℕ, ◌+◌, ◌≤◌, ◌<◌}
use mathlib.Core.Path.{◌≡◌, refl}
use mathlib.Core.Logic.{◌↔◌}
use mathlib.Core.Bool.{Bool, true, false, not, ◌&&◌, ◌||◌}
use mathlib.Core.Option.{Option, none, some}
use mathlib.Core.List.{List, [], ◌∷◌}
use native.Mathlib.Omega.{arith}
use cpp_client.Prelude.Tests.{ltb, ◌==◌, ==_iff, if◌then◌else◌}
use cpp_client.Prelude.Lists.{length}

-- What a map asks of its keys: a test that decides equality, and the order of iteration.
pub record Key {ℓ} (K : Type ℓ) : Type ℓ where
  pub same : K → K → Bool
  pub same_iff : (a b : K) → (same a b ≡ true) ↔ (a ≡ b)
  pub less : K → K → Bool

instance abbrev pub nat_key : Key ℕ
nat_key = record { same = ◌==◌; same_iff = ==_iff; less = ltb }

-- Byte sequences, compared byte by byte.
unfoldable pub bytes_same : List ℕ → List ℕ → Bool
bytes_same [] [] = true
bytes_same [] (b ∷ bs) = false
bytes_same (a ∷ as') [] = false
bytes_same (a ∷ as') (b ∷ bs) = (a == b) && bytes_same as' bs

unfoldable pub bytes_less : List ℕ → List ℕ → Bool
bytes_less [] [] = false
bytes_less [] (b ∷ bs) = true
bytes_less (a ∷ as') [] = false
bytes_less (a ∷ as') (b ∷ bs) = ltb a b || ((a == b) && bytes_less as' bs)

bytes_same_refl : (a : List ℕ) → bytes_same a a ≡ true
unfolding bytes_same
bytes_same_refl [] = refl
bytes_same_refl (a ∷ as') = ground (arith, bytes_same_refl as')

bytes_same→eq : (a b : List ℕ) → bytes_same a b ≡ true → a ≡ b
unfolding bytes_same
bytes_same→eq [] [] h = refl
bytes_same→eq [] (b ∷ bs) h = ground arith
bytes_same→eq (a ∷ as') [] h = ground arith
bytes_same→eq (a ∷ as') (b ∷ bs) h = ground (arith, bytes_same→eq as' bs)

pub bytes_same_iff : (a b : List ℕ) → (bytes_same a b ≡ true) ↔ (a ≡ b)
bytes_same_iff a b = (bytes_same→eq a b, λ e. rw e (bytes_same_refl b))

instance abbrev pub bytes_key : Key (List ℕ)
bytes_key = record { same = bytes_same; same_iff = bytes_same_iff; less = bytes_less }

module _ {ℓ κ} {K : Type ℓ} {V : Type κ} ⦃key : Key K⦄ where
  unfoldable pub lookup : K → List (K × V) → Option V
  lookup k [] = none
  lookup k ((j, v) ∷ m) = if key.same j k then some v else lookup k m

  unfoldable pub contains : K → List (K × V) → Bool
  contains k [] = false
  contains k ((j, v) ∷ m) = key.same j k || contains k m

  -- `m[k] = v`
  unfoldable pub insert : K → V → List (K × V) → List (K × V)
  unfolding contains
  insert k v [] = (k, v) ∷ []
  insert k v ((j, w) ∷ m) =
      let later = insert k v m in
      if key.same j k
      then (k, v) ∷ m
      else if key.less k j && not (contains k m)
      then (k, v) ∷ (j, w) ∷ m
      else (j, w) ∷ later

  unfoldable pub erase : K → List (K × V) → List (K × V)
  erase k [] = []
  erase k ((j, v) ∷ m) = let rest = erase k m in if key.same j k then rest else (j, v) ∷ rest

  pub lookup-insert :
      (k j : K) (v : V) (m : List (K × V))
      → lookup j (insert k v m) ≡ (if key.same k j then some v else lookup j m)
  unfolding lookup insert
  lookup-insert k j v [] = refl
  lookup-insert k j v ((i, w) ∷ m) =
      ground (arith, key.same_iff k j, key.same_iff i k, key.same_iff i j, lookup-insert k j v m)

  pub lookup-inserted : (k : K) (v : V) (m : List (K × V)) → lookup k (insert k v m) ≡ some v
  lookup-inserted k v m = ground (arith, key.same_iff k k, lookup-insert k k v m)

  pub lookup-erase :
      (k j : K) (m : List (K × V))
      → lookup j (erase k m) ≡ (if key.same k j then none else lookup j m)
  unfolding lookup erase
  lookup-erase k j [] = ground arith
  lookup-erase k j ((i, w) ∷ m) =
      ground (arith, key.same_iff k j, key.same_iff i k, key.same_iff i j, lookup-erase k j m)

  pub contains-insert :
      (k j : K) (v : V) (m : List (K × V))
      → contains j (insert k v m) ≡ (key.same k j || contains j m)
  unfolding contains insert
  contains-insert k j v [] = refl
  contains-insert k j v ((i, w) ∷ m) =
      ground (arith, key.same_iff k j, key.same_iff i k, key.same_iff i j, contains-insert k j v m)

  pub contains-erase :
      (k j : K) (m : List (K × V))
      → contains j (erase k m) ≡ (if key.same k j then false else contains j m)
  unfolding contains erase
  contains-erase k j [] = ground arith
  contains-erase k j ((i, w) ∷ m) =
      ground (arith, key.same_iff k j, key.same_iff i k, key.same_iff i j, contains-erase k j m)

  pub length-insert : (k : K) (v : V) (m : List (K × V)) → length (insert k v m) ≤ length m + 1
  unfolding insert
  length-insert k v [] = omega arith
  length-insert k v ((j, w) ∷ m) = ground (arith, length-insert k v m)

  pub length-erase : (k : K) (m : List (K × V)) → length (erase k m) ≤ length m
  unfolding erase
  length-erase k [] = omega arith
  length-erase k ((j, w) ∷ m) = ground (arith, length-erase k m)

  pub length-erase_lt :
      (k : K) (m : List (K × V)) → contains k m ≡ true → length (erase k m) < length m
  unfolding erase contains
  length-erase_lt k [] h = ground arith
  length-erase_lt k ((j, w) ∷ m) h = ground (arith, length-erase_lt k m, length-erase k m)

  pub contains-lookup : (k : K) (m : List (K × V)) → contains k m ≡ false → lookup k m ≡ none
  unfolding contains lookup
  contains-lookup k [] h = refl
  contains-lookup k ((j, v) ∷ m) h = ground (arith, contains-lookup k m)

  pub lookup-contains :
      (k : K) (v : V) (m : List (K × V)) → lookup k m ≡ some v → contains k m ≡ true
  unfolding contains lookup
  lookup-contains k v [] h = ground arith
  lookup-contains k v ((j, w) ∷ m) h = ground (arith, lookup-contains k v m)

  pub lookup-absent : (k : K) (m : List (K × V)) → lookup k m ≡ none → contains k m ≡ false
  unfolding contains lookup
  lookup-absent k [] h = refl
  lookup-absent k ((j, w) ∷ m) h = ground (arith, lookup-absent k m)

  -- No key stands twice.
  unfoldable pub is_unique : List (K × V) → Bool
  is_unique [] = true
  is_unique ((j, v) ∷ m) = not (contains j m) && is_unique m

  pub is_unique-insert :
      (k : K) (v : V) (m : List (K × V)) → is_unique m ≡ true → is_unique (insert k v m) ≡ true
  unfolding is_unique insert contains
  is_unique-insert k v [] h = refl
  is_unique-insert k v ((j, w) ∷ m) h =
      ground
        (arith, is_unique-insert k v m, contains-insert k j v m, key.same_iff k j, key.same_iff j k)

  pub is_unique-erase :
      (k : K) (m : List (K × V)) → is_unique m ≡ true → is_unique (erase k m) ≡ true
  unfolding is_unique erase
  is_unique-erase k [] h = refl
  is_unique-erase k ((j, w) ∷ m) h = ground (arith, is_unique-erase k m, contains-erase k j m)

  -- A measure of the values, summed over the map, and that of the value of one key.
  abbrev pub total : (V → ℕ) → List (K × V) → ℕ
  total f [] = 0
  total f ((j, v) ∷ m) = f v + total f m

  abbrev pub measure_at : (V → ℕ) → K → List (K × V) → ℕ
  measure_at f k m = elim (lookup k m) [ none ↦ 0 | some v ↦ f v ]

  pub total-insert :
      (f : V → ℕ) (k : K) (v : V) (m : List (K × V))
      → total f (insert k v m) + measure_at f k m ≡ total f m + f v
  unfolding insert lookup
  total-insert f k v [] = omega arith
  total-insert f k v ((j, w) ∷ m) = ground (arith, total-insert f k v m, contains-lookup k m)

  pub erase-absent : (k : K) (m : List (K × V)) → contains k m ≡ false → erase k m ≡ m
  unfolding contains erase
  erase-absent k [] h = refl
  erase-absent k ((j, w) ∷ m) h = ground (arith, erase-absent k m)

  pub total-erase :
      (f : V → ℕ) (k : K) (m : List (K × V))
      → is_unique m ≡ true
      → total f (erase k m) + measure_at f k m ≡ total f m
  unfolding erase lookup is_unique
  total-erase f k [] h = refl
  total-erase f k ((j, w) ∷ m) h =
      ground (arith, total-erase f k m, key.same_iff j k, erase-absent k m)
