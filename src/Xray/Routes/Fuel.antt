-- ===== src/Xray/Routes/Fuel.antt =====
-- The fuel of subtractPrefix.
use xray_mesh.Base.{ℕ, zero, suc, ◌+◌, ◌-◌, ◌≤◌, ◌<◌, ◌≡◌, refl, inl, inr, arith, leb, Bool-cases}
use xray_mesh.Netip.{v4, block, Prefix, prefix, masked}
use xray_mesh.Xray.Routes.{subtract_prefix, set_bit}

-- Any two amounts of fuel that exceed the bits that an IPv4 prefix leaves open give the same routes:
-- the recursion of subtractPrefix ends before the fuel does.
pub subtract_prefix-fuel :
    (fuel more a n : ℕ) (cut : Prefix)
    → n ≤ 32
    → 32 < n + fuel
    → 32 < n + more
    → subtract_prefix fuel (prefix (v4 a) n) cut ≡ subtract_prefix more (prefix (v4 a) n) cut
unfolding subtract_prefix masked
subtract_prefix-fuel zero more a n cut le lt lt' = absurd (omega arith)
subtract_prefix-fuel (suc fuel) zero a n cut le lt lt' = absurd (omega arith)
subtract_prefix-fuel (suc fuel) (suc more) a n cut le lt lt' = elim (Bool-cases (leb 32 n)) [
  | inl e ↦ rw (e, subtract_prefix) refl
  | inr e ↦
      rw
        (
          subtract_prefix-fuel fuel more (block (32 - (n + 1)) a) (n + 1) cut (ground arith)
              (ground arith) (ground arith),
          subtract_prefix-fuel fuel more (block (32 - (n + 1)) (set_bit a (31 - n))) (n + 1) cut
              (ground arith) (ground arith) (ground arith),
        )
        refl
]
