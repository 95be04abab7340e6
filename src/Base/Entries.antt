-- ===== src/Base/Entries.antt =====
-- Maps whose entries all have a property.
use mathlib.Core.Path.{◌≡◌, subst}
use mathlib.Core.Bool.{Bool}
use mathlib.Core.List.{[], ◌∷◌}
use mathlib.Core.Option.{some}
use native.Mathlib.Omega.{arith}
use xray_mesh.Base.Lists.{All}
use xray_mesh.Base.Maps.{
  Map, lookup, insert, delete, keep_if, Unique, insert-Unique, delete-Unique, keep_if-Unique,
}

module _ {ℓ} {K V : Type ℓ} (dec : Discrete K) (P : K × V → Type ℓ) where
  -- Each key stands once, and each entry has the property.
  abbrev pub AreEntries : Map K V → Type ℓ
  AreEntries m = Unique dec m × All P m

  pub All-delete : (k : K) (m : Map K V) → All P m → All P (delete dec k m)
  unfolding delete
  All-delete k [] h = h
  All-delete k ((j, v) ∷ m) h = ground (arith, All-delete k m h.1)

  All-keep_if : (p : K → V → Bool) (m : Map K V) → All P m → All P (keep_if p m)
  unfolding keep_if
  All-keep_if p [] h = h
  All-keep_if p ((j, v) ∷ m) h = ground (arith, All-keep_if p m h.1)

  pub insert-AreEntries :
      (k : K) (v : V) (m : Map K V) → P (k, v) → AreEntries m → AreEntries (insert dec k v m)
  unfolding insert
  insert-AreEntries k v m p (u, h) = (insert-Unique dec k v m u, (p, All-delete k m h))

  pub delete-AreEntries : (k : K) (m : Map K V) → AreEntries m → AreEntries (delete dec k m)
  delete-AreEntries k m (u, h) = (delete-Unique dec k m u, All-delete k m h)

  pub keep_if-AreEntries :
      (p : K → V → Bool) (m : Map K V) → AreEntries m → AreEntries (keep_if p m)
  keep_if-AreEntries p m (u, h) = (keep_if-Unique dec p m u, All-keep_if p m h)

  -- What is found is an entry.
  pub found_entry : (k : K) (v : V) (m : Map K V) → All P m → lookup dec k m ≡ some v → P (k, v)
  unfolding lookup
  found_entry k v [] h e = absurd (ground arith)
  found_entry k v ((j, w) ∷ m) h e = elim (dec j k) [
    | yes f ↦ let g : w ≡ v = ground arith in subst (λ x. P (x, v)) f (subst (λ y. P (j, y)) g h.0)
    | no n ↦ found_entry k v m h.1 (ground arith)
  ]
