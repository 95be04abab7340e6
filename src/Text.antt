-- ===== src/Text.antt =====
-- Go strings: their bytes. What the program uses of the packages `strings` and `encoding/hex`.
pub mod Hex
pub mod Trim
use Prim.Native.Char.{code}
use Prim.Native.String.{String}
use xray_mesh.Base.{
  ℕ, ◌≡◌, refl, Bool, true, false, List, [], ◌∷◌, ◌++◌, arith, ltb, if◌then◌else◌, ◌==◌, ℕ_discrete,
}

abbrev pub Bytes : Type 0
Bytes = List ℕ

-- The bytes of a literal of ASCII characters.
abbrev pub codes : String → Bytes
codes String.[] = []
codes (String.◌∷◌ c s) = code c ∷ codes s

-- `a == b` on strings.
unfoldable pub str_dec : Discrete Bytes
str_dec = hlevel ℕ_discrete

-- `a < b` on strings: the order of their bytes.
unfoldable pub str_lt : Bytes → Bytes → Bool
str_lt s [] = false
str_lt [] (b ∷ t) = true
str_lt (a ∷ s) (b ∷ t) = let rest = str_lt s t in if a == b then rest else ltb a b

-- `strings.HasPrefix` and `bytes.HasPrefix`.
unfoldable pub has_prefix : Bytes → Bytes → Bool
has_prefix s [] = true
has_prefix [] (b ∷ p) = false
has_prefix (a ∷ s) (b ∷ p) = let rest = has_prefix s p in if a == b then rest else false

pub str_lt_asym : (s t : Bytes) → str_lt s t ≡ true → str_lt t s ≡ false
unfolding str_lt
str_lt_asym s [] h = absurd (ground arith)
str_lt_asym [] (b ∷ t) h = refl
str_lt_asym (a ∷ s) (b ∷ t) h = ground (arith, str_lt_asym s t)

pub has_prefix-append : (p s : Bytes) → has_prefix (p ++ s) p ≡ true
unfolding has_prefix
has_prefix-append [] s = refl
has_prefix-append (b ∷ p) s = ground (arith, has_prefix-append p s)
