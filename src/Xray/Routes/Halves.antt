-- ===== src/Xray/Routes/Halves.antt =====
-- The two halves of a block of addresses.
use native.Mathlib.Nat.{div-div-eq-div-mul, pow-suc, div-eq_of_eq-mul_left}
use xray_mesh.Base.{ℕ, suc, ◌+◌, ◌-◌, ◌*◌, ◌/◌, ◌^◌, ◌≤◌, ◌≡◌, sym, ap, ◌∙◌, arith}
use xray_mesh.Netip.{block}
use xray_mesh.Netip.Blocks.{pow-add, pow-pos}
use xray_mesh.Xray.Routes.{set_bit}

-- Addresses that agree on the bits above `i` agree on the bits above `j`.
pub div-pow_mono : (i j u v : ℕ) → i ≤ j → u / 2 ^ i ≡ v / 2 ^ i → u / 2 ^ j ≡ v / 2 ^ j
div-pow_mono i j u v le e =
    let split : 2 ^ j ≡ 2 ^ i * 2 ^ (j - i) = ap (λ t. 2 ^ t) (omega arith) ∙ pow-add i (j - i) in
    rw split (
      sym (div-div-eq-div-mul u (2 ^ i) (2 ^ (j - i)))
      ∙ ap (λ t. t / 2 ^ (j - i)) e
      ∙ div-div-eq-div-mul v (2 ^ i) (2 ^ (j - i)))

pub div-pow-suc : (k x : ℕ) → x / 2 ^ (suc k) ≡ x / 2 ^ k / 2
div-pow-suc k x = rw pow-suc (sym (div-div-eq-div-mul x (2 ^ k) 2))

-- The two numbers of the halves of the aligned block of 2 ^ (k + 1) addresses at `a`.
pub half_numbers :
    (k a : ℕ)
    → block (suc k) a ≡ a
    → (a / 2 ^ k ≡ 2 * (a / 2 ^ (suc k))) × (set_bit a k / 2 ^ k ≡ 2 * (a / 2 ^ (suc k)) + 1)
unfolding block set_bit
half_numbers k a e =
    let q = a / 2 ^ (suc k) in
    let double : 2 ^ (suc k) ≡ 2 ^ k * 2 = pow-suc 2 k in
    let whole : a ≡ 2 * q * 2 ^ k = omega (arith, e, ap (λ t. q * t) double) in
    let low : a / 2 ^ k ≡ 2 * q = div-eq_of_eq-mul_left (pow-pos k) whole in
    let high : (a + 2 ^ k) / 2 ^ k ≡ 2 * q + 1 =
      div-eq_of_eq-mul_left (pow-pos k) (omega (arith, whole)) in
    (low, ground (arith, low, high))
