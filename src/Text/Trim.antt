-- ===== src/Text/Trim.antt =====
-- `strings.TrimSpace`: it strips the UTF-8 encodings of the Unicode space characters from both
-- ends.
pub mod Plain
use xray_mesh.Base.{
  ℕ, zero, suc, ◌-◌, Bool, true, false, ◌&&◌, ◌||◌, List, [], ◌∷◌, reverse, leb, ◌==◌,
  if◌then◌else◌,
}

-- '\t', '\n', '\v', '\f', '\r' and ' '.
unfoldable pub ascii_space : ℕ → Bool
ascii_space a = (leb 9 a && leb a 13) || a == 32

-- U+0085 and U+00A0.
unfoldable pub space2 : ℕ → ℕ → Bool
space2 a b = a == 0xc2 && (b == 0x85 || b == 0xa0)

-- U+1680, U+2000 to U+200A, U+2028, U+2029, U+202F, U+205F and U+3000.
unfoldable pub space3 : ℕ → ℕ → ℕ → Bool
space3 a b c =
    (a == 0xe1 && b == 0x9a && c == 0x80)
    || (a == 0xe2
        && b == 0x80
        && ((leb 0x80 c && leb c 0x8a) || c == 0xa8 || c == 0xa9 || c == 0xaf))
    || (a == 0xe2 && b == 0x81 && c == 0x9f)
    || (a == 0xe3 && b == 0x80 && c == 0x80)

-- The number of bytes of the space character that stands first, 0 if none does. `rev` tells that
-- the bytes come in reverse.
unfoldable pub space_width : Bool → List ℕ → ℕ
unfolding ascii_space space2 space3
space_width rev [] = 0
space_width rev (a ∷ []) = if ascii_space a then 1 else 0
space_width rev (a ∷ b ∷ []) =
    if ascii_space a then 1 else if (if rev then space2 b a else space2 a b) then 2 else 0
space_width rev (a ∷ b ∷ c ∷ s) =
    if ascii_space a
    then 1
    else if (if rev then space2 b a else space2 a b)
    then 2
    else if (if rev then space3 c b a else space3 a b c)
    then 3
    else 0

-- Drops `k` bytes, then every space character that stands first.
unfoldable pub strip : Bool → ℕ → List ℕ → List ℕ
unfolding space_width
strip rev k [] = []
strip rev (suc k) (a ∷ s) = strip rev k s
strip rev zero (a ∷ s) =
    let w = space_width rev (a ∷ s) in
    let rest = strip rev (w - 1) s in if w == 0 then a ∷ s else rest

unfoldable pub trim_space : List ℕ → List ℕ
unfolding strip
trim_space s = reverse (strip true 0 (reverse (strip false 0 s)))
