-- ===== src/Mesh/Allocator/Range.antt =====
-- The addresses of a pool.
use xray_mesh.Base.{ℕ, ◌+◌, ◌<◌, ◌≡◌, ◌^◌, ◌%◌, arith}
use xray_mesh.Mesh.Allocator.{add_ipv4}
use xray_mesh.Netip.{v4, Bytes4, word4}

pub add_ipv4_lem : (base : Bytes4) (o : ℕ) → add_ipv4 base o ≡ v4 ((word4 base + o) % 2 ^ 32)
unfolding add_ipv4
add_ipv4_lem base o = ground arith

-- Offsets of one pool that differ give addresses that differ, also where the sum wraps.
pub add_ipv4-injective :
    (base : Bytes4) (o p : ℕ) → o < 2 ^ 32 → p < 2 ^ 32 → add_ipv4 base o ≡ add_ipv4 base p → o ≡ p
unfolding add_ipv4
add_ipv4-injective base o p ho hp e = ground arith
