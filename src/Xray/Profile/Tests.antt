-- ===== src/Xray/Profile/Tests.antt =====
-- A config with one proxy inbound and a gateway in the upper half of the addresses.
use xray_mesh.Base.{◌⊎◌, map, ◌^◌, ◌≡◌, refl, pos, some, List, [], ◌∷◌, ok, ℕ_discrete, All}
use xray_mesh.Base.Maps.{Map, lookup, insert, delete}
use xray_mesh.Base.Sort.{sort_by}
use xray_mesh.Netip.{Prefix, v4, prefix, masked, block, contains, overlaps}
use xray_mesh.Text.{Bytes, codes, str_dec}
use xray_mesh.Text.Trim.{trim_space}
use xray_mesh.Xray.Profile.{
  TunnelProfileOptions, Json, inbounds_text, check_inbounds, normalize_tunnel_options, with_inbound,
  build_full_tunnel_config,
}
use xray_mesh.Xray.Profile.Lines.{lines, string, strings, split, flat, unflat}
use xray_mesh.Xray.Profile.Appends.{IsOther, build_full_tunnel_config_appends}
use xray_mesh.Xray.Profile.Readback.{LastInbound, IsTun, SameValue}
use xray_mesh.Xray.Routes.{ipv4_routes_excluding, exclude, cut_routes, subtract_prefix, set_bit}

program : Unit {0}
unfolding string strings split flat unflat ℕ_discrete str_dec lookup insert delete sort_by
    trim_space masked block contains overlaps check_inbounds normalize_tunnel_options
    build_full_tunnel_config ipv4_routes_excluding exclude cut_routes subtract_prefix set_bit
program = tt

abbrev json : Json
json = lines (λ p. codes "r")

-- A log level and one proxy.
abbrev old_root : Map Bytes Bytes
unfolding program
old_root =
    (codes "log", codes "none") ∷ (codes "inbounds", json.write_list (codes "socks" ∷ [])) ∷ []

abbrev source : Bytes
unfolding program
source = json.write_root old_root

abbrev options : TunnelProfileOptions
options = record {
  tag = [];
  name = codes "tun0";
  mtu = pos 0;
  gateway = prefix (v4 (2 ^ 31)) 1;
  protected = [];
}

abbrev text : Bytes
unfolding program
text = with_inbound json old_root (codes "socks" ∷ []) (record {
  tag = codes "xray-mesh-tun";
  protocol = codes "tun";
  name = codes "tun0";
  mtu = pos 1500;
  gateway = codes "r";
  routes = codes "r" ∷ [];
})

generated : build_full_tunnel_config json source options ≡ ok text
unfolding program
generated = refl

build_full_tunnel_config_appends_example :
    (root : Map Bytes Bytes) × (inbounds : List Bytes) × (routes : List Prefix) × (root' : Map Bytes
      Bytes)
    × (kept : List Bytes) × (added : Bytes) × (json.read_root source ≡ some root)
    × (inbounds_text json (lookup str_dec (codes "inbounds") root) ≡ ok inbounds)
    × All (IsOther json) inbounds
    × (ipv4_routes_excluding (masked (normalize_tunnel_options options).gateway ∷ []) ≡ ok routes)
    × LastInbound json text root' kept added
    × (map json.norm kept ≡ map json.norm inbounds)
    × IsTun json added routes
    × ((k : Bytes) → (k ≡ codes "inbounds") ⊎ SameValue json k root' root)
build_full_tunnel_config_appends_example =
    build_full_tunnel_config_appends json source text options generated
