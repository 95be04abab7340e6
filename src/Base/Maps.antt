-- ===== src/Base/Maps.antt =====
-- A Go map as an association list, the latest write first. A key stands in it once (`Unique`), so
-- that a loop over the list visits what a loop over the map visits, in one of its orders.
use mathlib.Core.Path.{◌≡◌, refl}
use mathlib.Core.Logic.{ite, ◌≢◌}
use mathlib.Core.Bool.{Bool}
use mathlib.Core.Option.{Option, none, some}
use mathlib.Core.List.{List, [], ◌∷◌}
use native.Mathlib.Omega.{arith}
use xray_mesh.Base.Lists.{All, All-map, All-and}
use xray_mesh.Base.Tests.{if◌then◌else◌}

abbrev pub Map {ℓ} : Type ℓ → Type ℓ → Type ℓ
Map K V = List (K × V)

module _ {ℓ} {K V : Type ℓ} where
  -- `for k, v := range m { if p(k, v) { delete(m, k) } }`, on the entries that stay.
  unfoldable pub keep_if : (K → V → Bool) → Map K V → Map K V
  keep_if p [] = []
  keep_if p ((k, v) ∷ m) = let rest = keep_if p m in if p k v then (k, v) ∷ rest else rest

module _ {ℓ} {K V : Type ℓ} (dec : Discrete K) where
  -- `m[k]`
  unfoldable pub lookup : K → Map K V → Option V
  lookup k [] = none
  lookup k ((j, v) ∷ m) = ite (dec j k) (some v) (lookup k m)

  -- `delete(m, k)`
  unfoldable pub delete : K → Map K V → Map K V
  delete k [] = []
  delete k ((j, v) ∷ m) = ite (dec j k) (delete k m) ((j, v) ∷ delete k m)

  -- `m[k] = v`
  unfoldable pub insert : K → V → Map K V → Map K V
  insert k v m = (k, v) ∷ delete k m

  abbrev pub Unique : Map K V → Type ℓ
  Unique [] = Unit
  Unique ((k, v) ∷ m) = (lookup k m ≡ none) × Unique m

  pub lookup-delete :
      (k j : K) (m : Map K V) → lookup j (delete k m) ≡ ite (dec k j) none (lookup j m)
  unfolding lookup delete
  lookup-delete k j [] = ground arith
  lookup-delete k j ((i, v) ∷ m) = ground (arith, lookup-delete k j m)

  pub lookup-insert :
      (k j : K) (v : V) (m : Map K V)
      → lookup j (insert k v m) ≡ ite (dec k j) (some v) (lookup j m)
  unfolding lookup insert
  lookup-insert k j v m = ground (arith, lookup-delete k j m)

  pub delete-Unique : (k : K) (m : Map K V) → Unique m → Unique (delete k m)
  unfolding delete
  delete-Unique k [] u = u
  delete-Unique k ((j, v) ∷ m) u = ground (arith, delete-Unique k m u.1, lookup-delete k j m)

  pub insert-Unique : (k : K) (v : V) (m : Map K V) → Unique m → Unique (insert k v m)
  unfolding insert
  insert-Unique k v m u = ground (arith, delete-Unique k m u, lookup-delete k k m)

  lookup-keep_if-none :
      (p : K → V → Bool) (k : K) (m : Map K V) → lookup k m ≡ none → lookup k (keep_if p m) ≡ none
  unfolding lookup keep_if
  lookup-keep_if-none p k [] h = refl
  lookup-keep_if-none p k ((j, v) ∷ m) h = ground (arith, lookup-keep_if-none p k m)

  abbrev pub kept : (K → V → Bool) → K → Option V → Option V
  kept p k none = none
  kept p k (some v) = if p k v then some v else none

  -- What a lookup finds after the loop: the entry, unless it was deleted.
  pub lookup-keep_if :
      (p : K → V → Bool) (k : K) (m : Map K V)
      → Unique m
      → lookup k (keep_if p m) ≡ kept p k (lookup k m)
  unfolding lookup keep_if
  lookup-keep_if p k [] u = refl
  lookup-keep_if p k ((j, v) ∷ m) u =
      ground (arith, lookup-keep_if p k m u.1, lookup-keep_if-none p k m)

  pub keep_if-Unique : (p : K → V → Bool) (m : Map K V) → Unique m → Unique (keep_if p m)
  unfolding keep_if
  keep_if-Unique p [] u = u
  keep_if-Unique p ((j, v) ∷ m) u =
      ground (arith, keep_if-Unique p m u.1, lookup-keep_if-none p j m u.0)

  -- A loop over a map finds each entry that it visits, and the other entries at other keys.
  pub keys_ne : (k : K) (m : Map K V) → lookup k m ≡ none → All (λ e. e.0 ≢ k) m
  unfolding lookup
  keys_ne k [] h = tt
  keys_ne k ((j, v) ∷ m) h = ground (arith, keys_ne k m)

  pub entries_found : (m : Map K V) → Unique m → All (λ e. lookup e.0 m ≡ some e.1) m
  unfolding lookup
  entries_found [] u = tt
  entries_found ((j, v) ∷ m) u = (
    ground arith,
    All-map _ _ m (λ e h. ground (arith, h.0, h.1))
        (All-and _ _ m (keys_ne j m u.0) (entries_found m u.1)),
  )
