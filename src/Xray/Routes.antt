-- ===== src/Xray/Routes.antt =====
-- IPv4RoutesExcluding and subtractPrefix of internal/xray/tun_profile.go.
pub mod Halves
pub mod Subtract
pub mod Cover
pub mod Fuel
mod Tests
use xray_mesh.Base.{
  ℕ, zero, suc, ◌+◌, ◌-◌, ◌/◌, ◌%◌, ◌^◌, Bool, ◌&&◌, not, List, [], ◌∷◌, ◌++◌, ltb, leb, ◌==◌,
  if◌then◌else◌, Result, ok, err,
}
use xray_mesh.Base.Sort.{sort_by}
use xray_mesh.Netip.{
  Addr, v4, no_addr, is4, Prefix, no_prefix, prefix, prefix_IsValid, prefix_addr, prefix_bits,
  masked, contains, overlaps,
}

pub data RouteError : Type 0 where
  invalid_prefix : RouteError

-- `binary.BigEndian.Uint32` of the bytes of an IPv4 address.
abbrev pub addr_word : Addr → ℕ
addr_word (v4 a) = a
addr_word _ = 0

-- `value | 1 << k`
unfoldable pub set_bit : ℕ → ℕ → ℕ
set_bit v k = if v / 2 ^ k % 2 == 0 then v + 2 ^ k else v

abbrev pub first_half : Prefix → Prefix
first_half base = masked (prefix (prefix_addr base) (prefix_bits base + 1))

abbrev pub second_half : Prefix → Prefix
second_half base = masked (
    prefix (v4 (set_bit (addr_word (prefix_addr base)) (31 - prefix_bits base)))
      (prefix_bits base + 1))

-- The fuel is more than the bits that `base` leaves open.
unfoldable pub subtract_prefix : ℕ → Prefix → Prefix → List Prefix
subtract_prefix zero base cut = []
subtract_prefix (suc fuel) base cut =
    let first = subtract_prefix fuel (first_half base) cut in
    let second = subtract_prefix fuel (second_half base) cut in
    if not (overlaps base cut)
    then base ∷ []
    else if leb (prefix_bits cut) (prefix_bits base) && contains cut (prefix_addr base)
    then []
    else if leb 32 (prefix_bits base)
    then []
    else first ++ second

-- The inner loop: every route so far, less the cut.
unfoldable pub cut_routes : List Prefix → Prefix → List Prefix
unfolding subtract_prefix
cut_routes [] cut = []
cut_routes (base ∷ routes) cut = subtract_prefix 33 base cut ++ cut_routes routes cut

-- The outer loop.
unfoldable pub exclude : List Prefix → List Prefix → Result RouteError (List Prefix)
unfolding cut_routes
exclude routes [] = ok routes
exclude routes (cut ∷ rest) =
    let go =
      exclude (if is4 (prefix_addr cut) then cut_routes routes (masked cut) else routes) rest in
    if not (prefix_IsValid cut) then err invalid_prefix else go

-- By address, then by length.
abbrev pub route_less : Prefix → Prefix → Bool
route_less p q =
    let a = addr_word (prefix_addr p) in
    let b = addr_word (prefix_addr q) in
    if not (a == b) then ltb a b else ltb (prefix_bits p) (prefix_bits q)

abbrev pub sorted : Result RouteError (List Prefix) → Result RouteError (List Prefix)
sorted (ok routes) = ok (sort_by route_less routes)
sorted (err e) = err e

unfoldable pub ipv4_routes_excluding : List Prefix → Result RouteError (List Prefix)
unfolding exclude
ipv4_routes_excluding protected = sorted (exclude (prefix (v4 0) 0 ∷ []) protected)
