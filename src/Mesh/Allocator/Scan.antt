-- ===== src/Mesh/Allocator/Scan.antt =====
-- What the loops of Allocate find.
use xray_mesh.Base.{
  ℕ, zero, suc, ◌+◌, ◌≤◌, ◌<◌, ◌≡◌, none, some, arith, inl, inr, Option-cases, ℕ_discrete,
}
use xray_mesh.Base.Maps.{Map, lookup}
use xray_mesh.Mesh.Allocator.{add_ipv4, scan}
use xray_mesh.Netip.{Addr, Bytes4, addr_dec}
use xray_mesh.Text.{Bytes}

module _ (base : Bytes4) (used : Map Addr Bytes) (limit : ℕ) where
  pub scan-some :
      (fuel offset o : ℕ)
      → scan fuel base used limit offset ≡ some o
      → (offset ≤ o) × (o < limit) × (lookup addr_dec (add_ipv4 base o) used ≡ none)
  unfolding scan
  scan-some zero offset o h = cc
  scan-some (suc fuel) offset o h = ground (arith, scan-some fuel (offset + 1) o)

  -- With a round for each offset the loop misses none.
  pub scan-none :
      (fuel offset : ℕ)
      → limit ≤ offset + fuel
      → scan fuel base used limit offset ≡ none
      → (o : ℕ) → offset ≤ o
      → o < limit
      → (n : Bytes) × (lookup addr_dec (add_ipv4 base o) used ≡ some n)
  unfolding scan
  scan-none zero offset f h o lo hi = absurd (omega arith)
  scan-none (suc fuel) offset f h o lo hi = elim (ℕ_discrete offset o) [
    | yes e ↦ elim (Option-cases (lookup addr_dec (add_ipv4 base o) used)) [
      | inl free ↦ absurd (ground arith)
      | inr found ↦ found
    ]
    | no ne ↦ scan-none fuel (offset + 1) (omega arith) (ground arith) o (omega arith) hi
  ]
