-- ===== src/Xray/Profile.antt =====
-- internal/xray/tun_profile.go: BuildFullTunnelConfig and normalizeTunnelOptions. JSON enters as
-- readers and writers of the texts that the code takes apart: an object as a map of raw texts, an
-- array as a list of them. (A config that is `null` is outside the model: the code panics there.)
pub mod Appends
pub mod Lines
pub mod Readback
mod Tests
use xray_mesh.Base.{
  ℕ, suc, zero, ◌<◌, ◌≡◌, All, ℤ, pos, negsuc, Bool, true, false, not, ◌&&◌, Option, none, some,
  List, [], ◌∷◌, ◌++◌, map, ◌==◌, length, if◌then◌else◌, Result, ok, err, ◌>>=◌, ◌>>◌,
}
use xray_mesh.Base.Maps.{Map, lookup, insert}
use xray_mesh.Netip.{Prefix, prefix, from4, prefix_IsValid, masked}
use xray_mesh.P2p.Tickets.{str_eq}
use xray_mesh.Text.{Bytes, codes, str_dec}
use xray_mesh.Text.Trim.{trim_space}
use xray_mesh.Xray.Routes.{RouteError, ipv4_routes_excluding}

pub record TunnelProfileOptions : Type 0 where
  pub tag : Bytes
  pub name : Bytes
  pub mtu : ℤ
  pub gateway : Prefix
  pub protected : List Prefix

-- 172.30.255.1/30
abbrev pub default_tun_gateway : Prefix
default_tun_gateway = prefix (from4 (172, 30, 255, 1)) 30

abbrev pub or_default : Bytes → Bytes → Bytes
or_default s default = if str_eq (trim_space s) [] then default else s

abbrev pub mtu_or_default : ℤ → ℤ
mtu_or_default (pos (suc n)) = pos (suc n)
mtu_or_default (pos zero) = pos 1500
mtu_or_default (negsuc n) = pos 1500

unfoldable pub normalize_tunnel_options : TunnelProfileOptions → TunnelProfileOptions
normalize_tunnel_options o = record {
  tag = or_default o.tag (codes "xray-mesh-tun");
  name = or_default o.name (codes "xraymesh0");
  mtu = mtu_or_default o.mtu;
  gateway = if not (prefix_IsValid o.gateway) then default_tun_gateway else o.gateway;
  protected = o.protected;
}

-- The fields of the new inbound that are not fixed texts.
pub record TunInbound : Type 0 where
  pub tag : Bytes
  pub protocol : Bytes
  pub name : Bytes
  pub mtu : ℤ
  pub gateway : Bytes
  pub routes : List Bytes

abbrev pub normed : (Bytes → Bytes) → Option Bytes → Option Bytes
normed norm none = none
normed norm (some raw) = some (norm raw)

-- encoding/json, strings.EqualFold and the text of a prefix. `read_meta` gives the protocol and the
-- tag of an inbound, `read_routes` its autoSystemRoutingTable. What Marshal writes, Unmarshal reads
-- back: values that are JSON and strings that are texts (valid UTF-8), raw values up to `norm`,
-- which forgets the white space and the escapes that Marshal rewrites.
pub record Json : Type 0 where
  pub read_root : Bytes → Option (Map Bytes Bytes)
  pub read_list : Bytes → Option (List Bytes)
  pub read_meta : Bytes → Option (Bytes × Bytes)
  pub read_routes : Bytes → Option (List Bytes)
  pub write_inbound : TunInbound → Bytes
  pub write_list : List Bytes → Bytes
  pub write_root : Map Bytes Bytes → Bytes
  pub equal_fold : Bytes → Bytes → Bool
  pub prefix_text : Prefix → Bytes
  pub norm : Bytes → Bytes
  pub is_json : Bytes → Bool
  pub is_text : Bytes → Bool
  pub ascii_text : (s : Bytes) → All (λ c. c < 128) s → is_text s ≡ true
  pub prefix-is_text : (p : Prefix) → is_text (prefix_text p) ≡ true
  pub root_json :
      (s : Bytes) (m : Map Bytes Bytes)
      → read_root s ≡ some m
      → All (λ e. (is_text e.0 ≡ true) × (is_json e.1 ≡ true)) m
  pub list_json :
      (s : Bytes) (l : List Bytes) → read_list s ≡ some l → All (λ r. is_json r ≡ true) l
  pub inbound_json : (i : TunInbound) → is_json (write_inbound i) ≡ true
  pub written_json :
      (l : List Bytes) → All (λ r. is_json r ≡ true) l → is_json (write_list l) ≡ true
  -- White space may follow.
  pub root_back :
      (m : Map Bytes Bytes)
      → All (λ e. (is_text e.0 ≡ true) × (is_json e.1 ≡ true)) m
      → (n : Map Bytes Bytes) × (read_root (write_root m ++ (10 ∷ [])) ≡ some n)
        × ((k : Bytes) → normed norm (lookup str_dec k n) ≡ normed norm (lookup str_dec k m))
  -- An array is not empty text and not `null`.
  pub list_back :
      (l : List Bytes) (raw : Bytes)
      → All (λ r. is_json r ≡ true) l
      → norm raw ≡ norm (write_list l)
      → ((length raw == 0) ≡ false)
        × (str_eq raw (codes "null") ≡ false)
        × (back : List Bytes) × (read_list raw ≡ some back)
        × (map norm back ≡ map norm l)
  pub inbound_back :
      (i : TunInbound) (raw : Bytes)
      → is_text i.protocol ≡ true
      → All (λ r. is_text r ≡ true) i.routes
      → norm raw ≡ norm (write_inbound i)
      → (tag : Bytes) × (read_meta raw ≡ some (i.protocol, tag)) × (read_routes raw ≡ some i.routes)

pub data ProfileError : Type 0 where
  config_invalid inbounds_invalid inbound_invalid : ProfileError
  has_tun_inbound : Bytes → ProfileError
  route_error : RouteError → ProfileError

module _ (json : Json) where
  open json use {
    read_root, read_list, read_meta, write_inbound, write_list, write_root, equal_fold, prefix_text,
  }

  abbrev pub or_invalid {ℓ} : {A : Type ℓ} → Option A → ProfileError → Result ProfileError A
  or_invalid none e = err e
  or_invalid (some a) e = ok a

  -- No inbounds, empty ones and `null` are an empty list.
  abbrev pub inbounds_text : Option Bytes → Result ProfileError (List Bytes)
  inbounds_text none = ok []
  inbounds_text (some raw) =
      if not (length raw == 0) && not (str_eq raw (codes "null"))
      then or_invalid (read_list raw) inbounds_invalid
      else ok []

  abbrev pub not_tun : Option (Bytes × Bytes) → Result ProfileError (Unit {0})
  not_tun none = err inbound_invalid
  not_tun (some (protocol, tag)) =
      if equal_fold (trim_space protocol) (codes "tun") then err (has_tun_inbound tag) else ok tt

  -- The loop over the inbounds.
  unfoldable pub check_inbounds : List Bytes → Result ProfileError (Unit {0})
  check_inbounds [] = ok tt
  check_inbounds (raw ∷ rest) = let go = check_inbounds rest in not_tun (read_meta raw) >> go

  abbrev pub routed : Result RouteError (List Prefix) → Result ProfileError (List Prefix)
  routed (err e) = err (route_error e)
  routed (ok routes) = ok routes

  abbrev pub inbound_of : TunnelProfileOptions → List Prefix → TunInbound
  inbound_of o routes = record {
    tag = o.tag;
    protocol = codes "tun";
    name = o.name;
    mtu = o.mtu;
    gateway = prefix_text o.gateway;
    routes = map prefix_text routes;
  }

  abbrev pub with_inbound : Map Bytes Bytes → List Bytes → TunInbound → Bytes
  with_inbound root inbounds added =
      write_root (
        insert str_dec (codes "inbounds") (write_list (inbounds ++ (write_inbound added ∷ [])))
          root)
      ++ (10 ∷ [])

  unfoldable pub build_full_tunnel_config : Bytes → TunnelProfileOptions → Result ProfileError Bytes
  unfolding check_inbounds normalize_tunnel_options
  build_full_tunnel_config source opts = do
    root ← or_invalid (read_root source) config_invalid
    inbounds ← inbounds_text (lookup str_dec (codes "inbounds") root)
    check_inbounds inbounds
    let o = normalize_tunnel_options opts
    routes ← routed (ipv4_routes_excluding (o.protected ++ (masked o.gateway ∷ [])))
    ok (with_inbound root inbounds (inbound_of o routes))
