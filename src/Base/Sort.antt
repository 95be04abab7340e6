-- ===== src/Base/Sort.antt =====
-- `sort.Slice` by a strict order `less`: the result is the ordered arrangement of the elements, and
-- where no two elements are equivalent there is only one.
use mathlib.Core.List.{Perm}
use mathlib.Core.List.Perm
use mathlib.Core.Path.{◌≡◌}
use mathlib.Core.Logic.{inl, inr}
use mathlib.Core.Bool.{Bool, true, false}
use mathlib.Core.List.{List, [], ◌∷◌}
use native.Mathlib.Omega.{arith}
use xray_mesh.Base.Tests.{if◌then◌else◌, Bool-cases}

module _ {ℓ} {A : Type ℓ} (less : A → A → Bool) where
  unfoldable pub place : A → List A → List A
  place x [] = x ∷ []
  place x (y ∷ ys) = let rest = place x ys in if less x y then x ∷ y ∷ ys else y ∷ rest

  unfoldable pub sort_by : List A → List A
  unfolding place
  sort_by [] = []
  sort_by (x ∷ xs) = place x (sort_by xs)

  -- No element is less than the one before it.
  abbrev pub Starts : A → List A → Type 0
  Starts x [] = Unit
  Starts x (y ∷ ys) = less y x ≡ false

  abbrev pub IsOrdered : List A → Type 0
  IsOrdered [] = Unit
  IsOrdered (x ∷ xs) = Starts x xs × IsOrdered xs

  module _ (asym : (a b : A) → less a b ≡ true → less b a ≡ false) where
    place-Starts : (y x : A) (ys : List A) → less x y ≡ false → Starts y ys → Starts y (place x ys)
    unfolding place
    place-Starts y x [] h s = h
    place-Starts y x (z ∷ zs) h s = ground arith

    place-IsOrdered : (x : A) (ys : List A) → IsOrdered ys → IsOrdered (place x ys)
    unfolding place
    place-IsOrdered x [] o = (tt, tt)
    place-IsOrdered x (y ∷ ys) o = elim (Bool-cases (less x y)) [
      | inl e ↦ rw e (asym x y e, o)
      | inr e ↦ rw e (place-Starts y x ys e o.0, place-IsOrdered x ys o.1)
    ]

    pub sort_by-IsOrdered : (xs : List A) → IsOrdered (sort_by xs)
    unfolding sort_by
    sort_by-IsOrdered [] = tt
    sort_by-IsOrdered (x ∷ xs) = place-IsOrdered x (sort_by xs) (sort_by-IsOrdered xs)

  place-perm : (x : A) (ys : List A) → Perm (place x ys) (x ∷ ys)
  unfolding place
  place-perm x [] = Perm.refl (x ∷ [])
  place-perm x (y ∷ ys) = elim (Bool-cases (less x y)) [
    | inl e ↦ rw e (Perm.refl (x ∷ y ∷ ys))
    | inr e ↦ rw e (Perm.trans (Perm.cons y (place-perm x ys)) (Perm.swap x y ys))
  ]

  pub sort_by-perm : (xs : List A) → Perm (sort_by xs) xs
  unfolding sort_by
  sort_by-perm [] = Perm.refl []
  sort_by-perm (x ∷ xs) = Perm.trans (place-perm x (sort_by xs)) (Perm.cons x (sort_by-perm xs))
