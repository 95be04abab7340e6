-- ===== src/Client/Protected/Tests.antt =====
-- A mesh in the first quarter of the addresses and a gateway in the upper half; the coordinator is in
-- the second quarter, where the routes are.
use xray_mesh.Base.{
  pos, ◌⊎◌, ◌↔◌, ◌+◌, ◌^◌, ◌≡◌, refl, arith, some, none, List, [], ◌∷◌, ok, err, ℕ_discrete,
  if◌then◌else◌,
}
use xray_mesh.Base.Maps.{Map, lookup, insert, delete}
use xray_mesh.Base.Sort.{sort_by}
use xray_mesh.Client.Protected.{
  Resolver, drop_brackets, trim_brackets, host_prefixes, resolve_host_ipv4, unique_prefixes,
  resolve_protected_prefixes,
}
use xray_mesh.Client.Protected.Unrouted.{IsProtected, unrouted}
use xray_mesh.Netip.{no_addr, v4, v6, Prefix, no_prefix, prefix, masked, block, contains, overlaps}
use xray_mesh.P2p.Tickets.{str_eq}
use xray_mesh.Text.{Bytes, codes, str_dec}
use xray_mesh.Text.Trim.{trim_space}
use xray_mesh.Xray.Profile.{
  TunnelProfileOptions, Json, check_inbounds, normalize_tunnel_options, build_full_tunnel_config,
}
use xray_mesh.Xray.Profile.Readback.{LastInbound, IsTun}
use xray_mesh.Xray.Profile.Lines.{lines, string, strings, split, flat, unflat}
use xray_mesh.Xray.Routes.{ipv4_routes_excluding, exclude, cut_routes, subtract_prefix, set_bit}
use xray_mesh.Xray.Routes.Cover.{protects}
use xray_mesh.Xray.Routes.Subtract.{cover}

program : Unit {0}
unfolding ℕ_discrete str_dec lookup insert delete sort_by trim_space masked block contains overlaps
    drop_brackets trim_brackets host_prefixes resolve_host_ipv4 unique_prefixes
    resolve_protected_prefixes ipv4_routes_excluding exclude cut_routes subtract_prefix set_bit
    protects cover string strings split flat unflat check_inbounds normalize_tunnel_options
    build_full_tunnel_config
program = tt

abbrev text : Prefix → Bytes
text no_prefix = []
text (prefix no_addr n) = 0 ∷ n ∷ []
text (prefix (v4 a) n) = 4 ∷ n ∷ a ∷ []
text (prefix (v6 a) n) = 6 ∷ n ∷ a ∷ []

text_one : (p q : Prefix) → text p ≡ text q → p ≡ q
text_one no_prefix no_prefix e = refl
text_one no_prefix (prefix no_addr n) e = cc
text_one no_prefix (prefix (v4 a) n) e = cc
text_one no_prefix (prefix (v6 a) n) e = cc
text_one (prefix no_addr n) no_prefix e = cc
text_one (prefix no_addr n) (prefix no_addr m) e = cc
text_one (prefix no_addr n) (prefix (v4 b) m) e = absurd (ground arith)
text_one (prefix no_addr n) (prefix (v6 b) m) e = absurd (ground arith)
text_one (prefix (v4 a) n) no_prefix e = cc
text_one (prefix (v4 a) n) (prefix no_addr m) e = absurd (ground arith)
text_one (prefix (v4 a) n) (prefix (v4 b) m) e = cc
text_one (prefix (v4 a) n) (prefix (v6 b) m) e = absurd (ground arith)
text_one (prefix (v6 a) n) no_prefix e = cc
text_one (prefix (v6 a) n) (prefix no_addr m) e = absurd (ground arith)
text_one (prefix (v6 a) n) (prefix (v4 b) m) e = absurd (ground arith)
text_one (prefix (v6 a) n) (prefix (v6 b) m) e = cc

-- The coordinator is a literal address, the relay is looked up and is in the mesh.
abbrev net : Resolver
net = record {
  url_hostname = λ s. some (codes "h");
  split_host = λ s. some (codes "[r]");
  parse_addr = λ s. if str_eq s (codes "h") then some (v4 (2 ^ 30 + 8)) else none;
  lookup_ip4 = λ s. some (v4 7 ∷ v6 7 ∷ []);
  prefix_text = text;
  text_one = text_one;
}

abbrev mesh : Prefix
mesh = prefix (v4 9) 2

abbrev gateway : Prefix
gateway = prefix (v4 (2 ^ 31 + 5)) 1

abbrev protected : List Prefix
protected = prefix (v4 0) 2 ∷ prefix (v4 (2 ^ 30 + 8)) 32 ∷ prefix (v4 7) 32 ∷ []

found : resolve_protected_prefixes net [] [] mesh ≡ ok protected
unfolding program
found = refl

abbrev json : Json
json = lines text

abbrev source : Bytes
unfolding program
source = json.write_root []

abbrev options : TunnelProfileOptions
options = record {
  tag = codes "t";
  name = codes "n";
  mtu = pos 1500;
  gateway = gateway;
  protected = protected;
}

abbrev text_out : Bytes
unfolding program
text_out = elim (build_full_tunnel_config json source options) [ ok t ↦ t | err e ↦ [] ]

generated : build_full_tunnel_config json source options ≡ ok text_out
unfolding program
generated = refl

unrouted_example :
    (root : Map Bytes Bytes) × (kept : List Bytes) × (added : Bytes) × (routes : List Prefix)
    × LastInbound json text_out root kept added
    × IsTun json added routes
    × ((cover (2 ^ 30 + 8) routes ≡ 0) ⊎ (cover (2 ^ 30 + 8) routes ≡ 1))
    × ((cover (2 ^ 30 + 8) routes ≡ 0)
        ↔ IsProtected net [] [] mesh (normalize_tunnel_options options).gateway (2 ^ 30 + 8))
unrouted_example =
    unrouted net json [] [] source text_out mesh options (2 ^ 30 + 8) (omega arith) (omega arith)
      (omega arith) found generated
