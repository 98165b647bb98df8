-- ===== src/Managers/Names.antt =====
-- The names under which caches are kept: impl/RemoteCacheManagerImpl.cpp.
use cpp_client.Prelude.{
  ◌≡◌, ◌≢◌, refl, sym, ap, ◌∙◌, ℕ, Bool, true, false, [], ◌∷◌, ◌++◌, append_assoc, arith,
}
use mathlib.Core.List.{append_cancel_right}
use cpp_client.Managers.Impl.{Name, name_and_force}

abbrev last_of : Name → ℕ
last_of [] = 0
last_of (a ∷ []) = a
last_of (a ∷ b ∷ n) = last_of (b ∷ n)

last_of-append : (n m : Name) (a : ℕ) → last_of (n ++ (a ∷ m)) ≡ last_of (a ∷ m)
last_of-append [] m a = refl
last_of-append (x ∷ []) m a = refl
last_of-append (x ∷ y ∷ n) m a = last_of-append (y ∷ n) m a

-- `u` of "/true" and `s` of "/false" stand at one place.
apart : (n m : Name) → name_and_force n true ≢ name_and_force m false
unfolding name_and_force
apart n m e =
    let tru : Name = 116 ∷ 114 ∷ 117 ∷ [] in
    let fals : Name = 102 ∷ 97 ∷ 108 ∷ 115 ∷ [] in
    let both : n ++ (47 ∷ tru) ≡ m ++ (47 ∷ fals) =
      append_cancel_right (n ++ (47 ∷ tru)) (m ++ (47 ∷ fals)) (101 ∷ [])
        (append_assoc n (47 ∷ tru) (101 ∷ []) ∙ e ∙ sym (append_assoc m (47 ∷ fals) (101 ∷ []))) in
    let ends : ◌≡◌ {A = ℕ} 117 115 =
      sym (last_of-append n tru 47) ∙ ap last_of both ∙ last_of-append m fals 47 in
    omega (arith, ends)

pub name_and_force-injective :
    (n m : Name) (f g : Bool) → name_and_force n f ≡ name_and_force m g → (n ≡ m) × (f ≡ g)
unfolding name_and_force
name_and_force-injective n m true true e = (append_cancel_right n m _ e, refl)
name_and_force-injective n m false false e = (append_cancel_right n m _ e, refl)
name_and_force-injective n m true false e = absurd (apart n m e)
name_and_force-injective n m false true e = absurd (apart m n (sym e))
