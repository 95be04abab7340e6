-- ===== src/Netip/Blocks.antt =====
-- Blocks of 2 ^ h addresses.
use native.Mathlib.Nat.{
  mul-add-div_right, div-eq_of_lt, lt-div-mul-add, div-mul-le_self, one-le-pow, pow-le-pow_right,
  add-zero, add-suc, pow-zero, pow-suc, mul_assoc, div-lt_iff_lt-mul, mul-le-mul_right,
  mul-div_left,
}
use xray_mesh.Base.{ℕ, zero, suc, ap, sym, ◌+◌, ◌-◌, ◌*◌, ◌/◌, ◌≤◌, ◌<◌, ◌≡◌, ◌∙◌, ◌^◌, arith, ◌≢◌}
use xray_mesh.Netip.{block}

pub pow-pos : (h : ℕ) → 0 < 2 ^ h
pow-pos h = one-le-pow h 2 (omega arith)

pub block-le : (h a : ℕ) → block h a ≤ a
unfolding block
block-le h a = div-mul-le_self a (2 ^ h)

pub lt-block : (h a : ℕ) → a < block h a + 2 ^ h
unfolding block
lt-block h a = lt-div-mul-add {a = a} (pow-pos h)

-- The addresses of a block share its high bits.
pub div-block-add : (h a o : ℕ) → o < 2 ^ h → (block h a + o) / 2 ^ h ≡ a / 2 ^ h
unfolding block
div-block-add h a o lt =
    mul-add-div_right (pow-pos h) (a / 2 ^ h) o ∙ (rw (div-eq_of_lt lt) (add-zero _))

pub pow-add : (i k : ℕ) → 2 ^ (i + k) ≡ 2 ^ i * 2 ^ k
pow-add i zero = rw (add-zero, pow-zero) (omega arith)
pow-add i (suc k) = rw (add-suc, pow-suc, pow-add i k, pow-suc) (mul_assoc (2 ^ i) (2 ^ k) 2)

pub pow-split : (h : ℕ) → h ≤ 32 → 2 ^ h * 2 ^ (32 - h) ≡ 2 ^ 32
pow-split h le =
    sym (pow-add h (32 - h)) ∙ ap (λ k. 2 ^ k) (let e : h + (32 - h) ≡ 32 = omega arith in e)

pub pow-le : (h : ℕ) → h ≤ 32 → 2 ^ h ≤ 2 ^ 32
pow-le h le = pow-le-pow_right (omega arith) le

-- A block of an IPv4 address ends within the address space.
pub block_end-le : (h a : ℕ) → h ≤ 32 → a < 2 ^ 32 → block h a + 2 ^ h ≤ 2 ^ 32
unfolding block
block_end-le h a le lt =
    let q : a / 2 ^ h < 2 ^ (32 - h) =
      (div-lt_iff_lt-mul (pow-pos h)).1 (omega (arith, pow-split h le)) in
    let m : suc (a / 2 ^ h) * 2 ^ h ≤ 2 ^ (32 - h) * 2 ^ h = mul-le-mul_right (2 ^ h) q in
    omega (arith, m, pow-split h le)

pub pow-lt : (b : ℕ) → b ≤ 32 → b ≢ 0 → 2 ^ (32 - b) < 2 ^ 32
pow-lt b h ne =
    let e : 2 ^ (32 - b) ≤ 2 ^ 31 =
      pow-le-pow_right (omega arith) {i = 32 - b} {j = 31} (omega arith) in
    omega arith

pub div-block : (h a : ℕ) → block h a / 2 ^ h ≡ a / 2 ^ h
unfolding block
div-block h a = mul-div_left (a / 2 ^ h) (pow-pos h)

pub block_idem : (h a : ℕ) → block h (block h a) ≡ block h a
unfolding block
block_idem h a = ap (λ t. t * 2 ^ h) (mul-div_left (a / 2 ^ h) (pow-pos h))
