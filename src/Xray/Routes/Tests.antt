-- ===== src/Xray/Routes/Tests.antt =====
-- The routes around one protected half of the address space, and the theorems at them.
use xray_mesh.Base.{◌^◌, ◌≡◌, refl, arith, List, [], ◌∷◌, ok, All, if◌then◌else◌}
use xray_mesh.Base.Sort.{sort_by}
use xray_mesh.Netip.{Prefix, v4, prefix, masked, block, contains, overlaps}
use xray_mesh.Xray.Routes.{set_bit, subtract_prefix, cut_routes, exclude, ipv4_routes_excluding}
use xray_mesh.Xray.Routes.Fuel.{subtract_prefix-fuel}
use xray_mesh.Xray.Routes.Subtract.{cover}
use xray_mesh.Xray.Routes.Cover.{IsPrefix, protects, ipv4_routes_excluding-cover}

-- 128.0.0.0/1 is left around 0.0.0.0/1.
abbrev low_half : List Prefix
low_half = prefix (v4 0) 1 ∷ []

abbrev high_half : List Prefix
high_half = prefix (v4 (2 ^ 31)) 1 ∷ []

routes_around : ipv4_routes_excluding low_half ≡ ok high_half
unfolding ipv4_routes_excluding exclude cut_routes subtract_prefix set_bit masked block contains
    overlaps sort_by
routes_around = refl

low_half-IsPrefix : All IsPrefix low_half
low_half-IsPrefix = (omega arith, tt)

ipv4_routes_excluding-cover_example : cover 5 high_half ≡ (if protects 5 low_half then 0 else 1)
ipv4_routes_excluding-cover_example =
    ipv4_routes_excluding-cover 5 low_half high_half (omega arith) low_half-IsPrefix routes_around

subtract_prefix-fuel_example :
    subtract_prefix 33 (prefix (v4 0) 0) (prefix (v4 0) 1)
    ≡ subtract_prefix 40 (prefix (v4 0) 0) (prefix (v4 0) 1)
subtract_prefix-fuel_example =
    subtract_prefix-fuel 33 40 0 0 (prefix (v4 0) 1) (omega arith) (omega arith) (omega arith)
