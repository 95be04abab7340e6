-- ===== src/Text/Trim/Plain.antt =====
-- TrimSpace and texts of hex digits.
use mathlib.Core.List.{reverse-cons, reverse-reverse}
use xray_mesh.Base.{
  ℕ, ◌/◌, ◌%◌, ◌≤◌, ◌<◌, ◌≡◌, refl, Bool, true, false, List, [], ◌∷◌, reverse, arith, All,
  All-append,
}
use xray_mesh.Text.Hex.{encode_hex, hex_digit}
use xray_mesh.Text.Trim.{space_width, strip, trim_space}

-- A printing ASCII character.
abbrev pub IsPlain : ℕ → Type 0
IsPlain c = (33 ≤ c) × (c < 127)

space_width_plain : (rev : Bool) (c : ℕ) (s : List ℕ) → IsPlain c → space_width rev (c ∷ s) ≡ 0
unfolding space_width
space_width_plain rev c [] p = ground arith
space_width_plain true c (b ∷ []) p = ground arith
space_width_plain false c (b ∷ []) p = ground arith
space_width_plain true c (b ∷ d ∷ s) p = ground arith
space_width_plain false c (b ∷ d ∷ s) p = ground arith

strip_plain : (rev : Bool) (s : List ℕ) → All IsPlain s → strip rev 0 s ≡ s
unfolding strip
strip_plain rev [] p = refl
strip_plain rev (c ∷ s) p = ground (arith, space_width_plain rev c s p.0)

All-reverse : (s : List ℕ) → All IsPlain s → All IsPlain (reverse s)
All-reverse [] p = tt
All-reverse (c ∷ s) p =
    rw (reverse-cons c s) (All-append IsPlain (reverse s) (c ∷ []) (All-reverse s p.1) (p.0, tt))

pub trim_space_plain : (s : List ℕ) → All IsPlain s → trim_space s ≡ s
unfolding trim_space
trim_space_plain s p =
    rw (strip_plain false s p, strip_plain true (reverse s) (All-reverse s p)) (reverse-reverse s)

hex_digit-IsPlain : (n : ℕ) → n < 16 → IsPlain (hex_digit n)
unfolding hex_digit
hex_digit-IsPlain n h = ground arith

encode_hex-IsPlain : (bs : List ℕ) → All (λ b. b < 256) bs → All IsPlain (encode_hex bs)
unfolding encode_hex
encode_hex-IsPlain [] h = tt
encode_hex-IsPlain (b ∷ bs) h = (
  hex_digit-IsPlain (b / 16) (omega (arith, h.0)),
  (hex_digit-IsPlain (b % 16) (omega arith), encode_hex-IsPlain bs h.1),
)

pub trim_space-encode_hex :
    (bs : List ℕ) → All (λ b. b < 256) bs → trim_space (encode_hex bs) ≡ encode_hex bs
trim_space-encode_hex bs h = trim_space_plain (encode_hex bs) (encode_hex-IsPlain bs h)
