-- ===== src/Xray/Routes/Subtract.antt =====
-- How often what subtractPrefix leaves holds an address.
use xray_mesh.Base.{
  ℕ, zero, suc, ◌+◌, ◌-◌, ◌≤◌, ◌<◌, ◌≡◌, min, inl, inr, arith, if◌then◌else◌, Bool, true, false,
  not, ◌&&◌, leb, List, [], ◌∷◌, ◌++◌, Bool-cases, All, All-append,
}
use xray_mesh.Netip.{
  block, v4, prefix_bits, prefix_addr, Prefix, prefix, masked, contains, overlaps,
}
use xray_mesh.Netip.Blocks.{div-block, block_idem}
use xray_mesh.Xray.Routes.{set_bit, subtract_prefix, first_half, second_half}
use xray_mesh.Xray.Routes.Halves.{div-pow_mono, div-pow-suc, half_numbers}

-- How many of the routes hold an address.
abbrev pub hits : ℕ → Prefix → ℕ
hits x p = if contains p (v4 x) then 1 else 0

unfoldable pub cover : ℕ → List Prefix → ℕ
cover x [] = 0
cover x (p ∷ ps) = hits x p + cover x ps

pub cover-append : (x : ℕ) (ps qs : List Prefix) → cover x (ps ++ qs) ≡ cover x ps + cover x qs
unfolding cover
cover-append x [] qs = omega arith
cover-append x (p ∷ ps) qs = omega (arith, cover-append x ps qs)

module _ (x a n c m : ℕ) where
  -- Disjoint prefixes share no address.
  disjoint :
      overlaps (prefix (v4 a) n) (prefix (v4 c) m) ≡ false
      → contains (prefix (v4 c) m) (v4 x) ≡ true
      → contains (prefix (v4 a) n) (v4 x) ≡ false
  unfolding overlaps contains
  disjoint o h =
      ground
        (arith, div-pow_mono (32 - m) (32 - min n m) x c, div-pow_mono (32 - n) (32 - min n m) x a)

  -- A cut that holds the base's first address and is no longer than the base holds all of it.
  inside :
      m ≤ n
      → contains (prefix (v4 c) m) (v4 a) ≡ true
      → contains (prefix (v4 a) n) (v4 x) ≡ true
      → contains (prefix (v4 c) m) (v4 x) ≡ true
  unfolding contains
  inside le h k = ground (arith, div-pow_mono (32 - n) (32 - m) x a)

  -- At full length an overlap is such a cut.
  full_length :
      32 ≤ n
      → m ≤ 32
      → overlaps (prefix (v4 a) n) (prefix (v4 c) m) ≡ true
      → contains (prefix (v4 c) m) (v4 a) ≡ true
  unfolding overlaps contains
  full_length hn hm o = let e : min n m ≡ m = omega arith in rw (← e) o

abbrev pub IsAligned : ℕ → ℕ → Type 0
IsAligned a n = (n ≤ 32) × (block (32 - n) a ≡ a)

-- The halves share out the addresses of the base.
halves :
    (x a n : ℕ)
    → n < 32
    → IsAligned a n
    → hits x (first_half (prefix (v4 a) n)) + hits x (second_half (prefix (v4 a) n))
      ≡ hits x (prefix (v4 a) n)
unfolding contains masked
halves x a n lt al =
    let k = 31 - n in
    let e : 32 - (n + 1) ≡ k = omega arith in
    let f : 32 - n ≡ suc k = omega arith in
    let aligned : block (suc k) a ≡ a = rw f at al.1 in
    let (low, high) = half_numbers k a aligned in
    rw (e, f, div-block k a, div-block k (set_bit a k), low, high, div-pow-suc k x) (ground arith)

-- One unrolling of the recursion, with the two recursive results as arguments.
subtract_step : Prefix → Prefix → List Prefix → List Prefix → List Prefix
subtract_step base cut first second =
    if not (overlaps base cut)
    then base ∷ []
    else if leb (prefix_bits cut) (prefix_bits base) && contains cut (prefix_addr base)
    then []
    else if leb 32 (prefix_bits base)
    then []
    else first ++ second

subtract_prefix_lem :
    (fuel : ℕ) (base cut : Prefix)
    → subtract_prefix (suc fuel) base cut
      ≡ subtract_step base cut
          (subtract_prefix fuel (first_half base) cut)
          (subtract_prefix fuel (second_half base) cut)
unfolding subtract_prefix subtract_step
subtract_prefix_lem fuel base cut = ground arith

abbrev outside : ℕ → Prefix → Prefix → ℕ
outside x base cut = if contains cut (v4 x) then 0 else hits x base

step_cover :
    (x a n c m : ℕ) (first second : List Prefix)
    → IsAligned a n
    → m ≤ 32
    → (n < 32
        → cover x first + cover x second
          ≡ (if contains (prefix (v4 c) m) (v4 x) then 0 else hits x (prefix (v4 a) n)))
    → cover x (subtract_step (prefix (v4 a) n) (prefix (v4 c) m) first second)
      ≡ outside x (prefix (v4 a) n) (prefix (v4 c) m)
unfolding subtract_step cover
step_cover x a n c m first second al hm ih = ground (
  arith,
  disjoint x a n c m,
  inside x a n c m,
  full_length x a n c m,
  cover-append x first second,
  ih,
)

pub half-IsAligned : (n a : ℕ) → n < 32 → IsAligned (block (32 - (n + 1)) a) (n + 1)
half-IsAligned n a lt = (omega arith, block_idem (32 - (n + 1)) a)

pub merge :
    (x : ℕ) (held : Bool) (p q r s t : ℕ)
    → p ≡ (if held then 0 else q)
    → r ≡ (if held then 0 else s)
    → q + s ≡ t
    → p + r ≡ (if held then 0 else t)
merge x held p q r s t e f g = ground arith

-- Every address of an aligned base is covered once if the cut does not hold it, and not at all if
-- it does; addresses outside the base are not covered.
pub subtract_prefix-cover :
    (fuel x a n c m : ℕ)
    → 32 < n + fuel
    → IsAligned a n
    → m ≤ 32
    → cover x (subtract_prefix fuel (prefix (v4 a) n) (prefix (v4 c) m))
      ≡ outside x (prefix (v4 a) n) (prefix (v4 c) m)
unfolding masked
subtract_prefix-cover zero x a n c m f al hm = absurd (omega arith)
subtract_prefix-cover (suc fuel) x a n c m f al hm = rw subtract_prefix_lem (
    step_cover x a n c m _ _ al hm λ lt.
      let k = 32 - (n + 1) in
      let b = set_bit a (31 - n) in
      let one =
        subtract_prefix-cover fuel x (block k a) (n + 1) c m (omega arith) (half-IsAligned n a lt)
          hm in
      let two =
        subtract_prefix-cover fuel x (block k b) (n + 1) c m (omega arith) (half-IsAligned n b lt)
          hm in
      let both = halves x a n lt al in
      merge x (contains (prefix (v4 c) m) (v4 x)) _ _ _ _ _ one two both)

-- The routes are IPv4 prefixes of at most 32 bits whose other bits are 0.
abbrev pub IsRoute : Prefix → Type 0
IsRoute (prefix (v4 a) n) = IsAligned a n
IsRoute _ = ⊥

step_IsRoute :
    (a n : ℕ) (cut : Prefix) (first second : List Prefix)
    → IsAligned a n
    → (n < 32 → All IsRoute first × All IsRoute second)
    → All IsRoute (subtract_step (prefix (v4 a) n) cut first second)
unfolding subtract_step
step_IsRoute a n cut first second al ih = elim (Bool-cases (overlaps (prefix (v4 a) n) cut)) [
  | inr h ↦ rw h (al, tt)
  | inl h ↦ elim (Bool-cases (leb (prefix_bits cut) n && contains cut (v4 a))) [
    | inl i ↦ rw (h, i) tt
    | inr i ↦ elim (Bool-cases (leb 32 n)) [
      | inl j ↦ rw (h, i, j) tt
      | inr j ↦ let (p, q) = ih (ground arith) in rw (h, i, j) (All-append IsRoute first second p q)
    ]
  ]
]

pub subtract_prefix-IsRoute :
    (fuel a n : ℕ) (cut : Prefix)
    → IsAligned a n
    → All IsRoute (subtract_prefix fuel (prefix (v4 a) n) cut)
unfolding masked
subtract_prefix-IsRoute zero a n cut al = unfold subtract_prefix in tt
subtract_prefix-IsRoute (suc fuel) a n cut al = rw subtract_prefix_lem (
    step_IsRoute a n cut _ _ al λ lt. (
      subtract_prefix-IsRoute fuel _ (n + 1) cut (half-IsAligned n a lt),
      subtract_prefix-IsRoute fuel _ (n + 1) cut (half-IsAligned n (set_bit a (31 - n)) lt),
    ))
