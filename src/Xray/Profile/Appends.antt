-- ===== src/Xray/Profile/Appends.antt =====
-- What a generated profile has kept and what it has added.
use xray_mesh.Base.{
  ◌≡◌, ◌⊎◌, refl, subst, inl, inr, arith, false, map, Option, none, some, List, [], ◌∷◌, ◌++◌,
  Result, ok, err, then_ok, bind_ok, All, Bool-cases,
}
use xray_mesh.Base.Maps.{Map, lookup}
use xray_mesh.Netip.{Prefix, masked}
use xray_mesh.Text.{Bytes, codes, str_dec}
use xray_mesh.Text.Trim.{trim_space}
use xray_mesh.Xray.Profile.{
  TunnelProfileOptions, Json, config_invalid, inbounds_text, or_invalid, not_tun, check_inbounds,
  normalize_tunnel_options, routed, inbound_of, with_inbound, build_full_tunnel_config,
}
use xray_mesh.Xray.Routes.{RouteError, ipv4_routes_excluding}
use xray_mesh.Xray.Profile.Readback.{
  LastInbound, IsTun, SameValue, inbounds_text-json, with_inbound_back,
}

module _ (json : Json) where
  -- An inbound that can be read, and is no TUN.
  abbrev pub IsOther : Bytes → Type 0
  IsOther raw =
      (protocol : Bytes) × (tag : Bytes) × (json.read_meta raw ≡ some (protocol, tag))
      × (json.equal_fold (trim_space protocol) (codes "tun") ≡ false)

  not_tun-IsOther :
      (raw : Bytes) (m : Option (Bytes × Bytes))
      → json.read_meta raw ≡ m
      → not_tun json m ≡ ok tt
      → IsOther raw
  not_tun-IsOther raw none e h = absurd (ground arith)
  not_tun-IsOther raw (some (protocol, tag)) e h =
      elim (Bool-cases (json.equal_fold (trim_space protocol) (codes "tun"))) [
        | inl f ↦ absurd (ground arith)
        | inr f ↦ (protocol, tag, e, f)
      ]

  check_inbounds-IsOther : (raws : List Bytes) → check_inbounds json raws ≡ ok tt → All IsOther raws
  unfolding check_inbounds
  check_inbounds-IsOther [] h = tt
  check_inbounds-IsOther (raw ∷ rest) h =
      let (a, b) = then_ok (not_tun json (json.read_meta raw)) _ _ h in
      (not_tun-IsOther raw (json.read_meta raw) refl a, check_inbounds-IsOther rest b)

  routed_ok :
      (m : Result RouteError (List Prefix)) (routes : List Prefix)
      → routed json m ≡ ok routes
      → m ≡ ok routes
  routed_ok (ok x) routes h = ground arith
  routed_ok (err e) routes h = absurd (ground arith)

  root_some :
      (m : Option (Map Bytes Bytes)) (root : Map Bytes Bytes)
      → or_invalid json m config_invalid ≡ ok root
      → m ≡ some root
  root_some none root h = absurd (ground arith)
  root_some (some r) root h = ground arith

  -- A profile is generated only from a config without TUN inbounds. Read back, the profile has the
  -- inbounds of the config in their order and after them one TUN inbound, whose routes are those that
  -- leave out the protected prefixes and the network of the gateway; every other value of the config
  -- is kept. (White space and escapes aside.)
  pub build_full_tunnel_config_appends :
      (source text : Bytes) (opts : TunnelProfileOptions)
      → build_full_tunnel_config json source opts ≡ ok text
      → (root : Map Bytes Bytes) × (inbounds : List Bytes) × (routes : List Prefix) × (root' : Map
          Bytes Bytes)
        × (kept : List Bytes) × (added : Bytes) × (json.read_root source ≡ some root)
        × (inbounds_text json (lookup str_dec (codes "inbounds") root) ≡ ok inbounds)
        × All IsOther inbounds
        × (ipv4_routes_excluding
              (opts.protected ++ (masked (normalize_tunnel_options opts).gateway ∷ []))
            ≡ ok routes)
        × LastInbound json text root' kept added
        × (map json.norm kept ≡ map json.norm inbounds)
        × IsTun json added routes
        × ((k : Bytes) → (k ≡ codes "inbounds") ⊎ SameValue json k root' root)
  unfolding build_full_tunnel_config normalize_tunnel_options
  build_full_tunnel_config_appends source text opts h =
      let (root, a, h1) = bind_ok (or_invalid json (json.read_root source) config_invalid) _ _ h in
      let (inbounds, b, h2) =
        bind_ok (inbounds_text json (lookup str_dec (codes "inbounds") root)) _ _ h1 in
      let (c, h3) = then_ok (check_inbounds json inbounds) _ _ h2 in
      let o = normalize_tunnel_options opts in
      let (routes, d, h4) =
        bind_ok (routed json (ipv4_routes_excluding (o.protected ++ (masked o.gateway ∷ [])))) _ _
          h3 in
      let read = root_some _ _ a in
      let (root', kept, added, last, same, tun, rest) =
        with_inbound_back json root inbounds o routes (json.root_json source root read)
          (inbounds_text-json json (lookup str_dec (codes "inbounds") root) inbounds b) in
      let written : with_inbound json root inbounds (inbound_of json o routes) ≡ text =
        ground arith in
      (
        root,
        inbounds,
        routes,
        root',
        kept,
        added,
        read,
        b,
        check_inbounds-IsOther inbounds c,
        routed_ok _ _ d,
        subst (λ t. LastInbound json t root' kept added) written last,
        same,
        tun,
        rest,
      )
