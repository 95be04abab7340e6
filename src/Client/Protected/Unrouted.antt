-- ===== src/Client/Protected/Unrouted.antt =====
-- The full tunnel against the hosts that the client talks to.
use xray_mesh.Base.{
  ℕ, ◌^◌, ◌<◌, ◌≡◌, ◌⊎◌, ◌↔◌, refl, sym, ap, ◌∙◌, subst, inl, inr, arith, Bool, true, false, ◌||◌,
  none, some, List, [], ◌∷◌, ◌++◌, ok, err, if◌then◌else◌, Bool-cases, Option-cases,
}
use xray_mesh.Base.Maps.{Map}
use xray_mesh.Client.Protected.{
  Resolver, ResolveError, host_prefixes, looked_up, parsed_or_looked_up, trim_brackets,
  resolve_host_ipv4, resolve_protected_prefixes,
}
use xray_mesh.Client.Protected.Covers.{IsResolved, protects-append, unrouted-cover}
use xray_mesh.Netip.{Addr, no_addr, v4, v6, Prefix, prefix, prefix_IsValid, contains}
use xray_mesh.P2p.Tickets.{str_eq}
use xray_mesh.Text.{Bytes}
use xray_mesh.Text.Trim.{trim_space}
use xray_mesh.Xray.Profile.{
  TunnelProfileOptions, Json, normalize_tunnel_options, build_full_tunnel_config,
}
use xray_mesh.Xray.Profile.Appends.{build_full_tunnel_config_appends}
use xray_mesh.Xray.Profile.Readback.{LastInbound, IsTun}
use xray_mesh.Xray.Routes.Cover.{IsPrefix, protects}
use xray_mesh.Xray.Routes.Subtract.{cover}

-- The IPv4 address is among those found.
abbrev pub Holds : ℕ → List Addr → Type 0
Holds x [] = ⊥
Holds x (a ∷ found) = (a ≡ v4 x) ⊎ Holds x found

contains-host : (a x : ℕ) → (contains (prefix (v4 a) 32) (v4 x) ≡ true) ↔ (v4 a ≡ v4 x)
unfolding contains
contains-host a x = (λ h. ground arith, λ h. ground arith)

host_prefixes-protects :
    (x : ℕ) (found : List Addr) → (protects x (host_prefixes found) ≡ true) ↔ Holds x found
unfolding host_prefixes protects
host_prefixes-protects x [] = (λ h. absurd (ground arith), λ h. absurd h)
host_prefixes-protects x (no_addr ∷ found) =
    let (f, g) = host_prefixes-protects x found in
    (λ h. inr (f h), λ h. elim h [ inl e ↦ absurd (ground arith) | inr k ↦ g k ])
host_prefixes-protects x (v4 a ∷ found) =
    let (f, g) = host_prefixes-protects x found in
    let (c, d) = contains-host a x in
    (
      λ h. elim (Bool-cases (contains (prefix (v4 a) 32) (v4 x))) [
        | inl e ↦ inl (c e)
        | inr e ↦ inr (f (sym (ap (λ b. b || protects x (host_prefixes found)) e) ∙ h))
      ],
      λ h. elim h [ inl e ↦ rw (d e) refl | inr k ↦ rw (g k) (ground arith) ],
    )
host_prefixes-protects x (v6 a ∷ found) =
    let (f, g) = host_prefixes-protects x found in
    (λ h. inr (f h), λ h. elim h [ inl e ↦ absurd (ground arith) | inr k ↦ g k ])

normalized-IsPrefix :
    (opts : TunnelProfileOptions)
    → IsPrefix opts.gateway
    → IsPrefix (normalize_tunnel_options opts).gateway
unfolding normalize_tunnel_options
normalized-IsPrefix opts v = elim (Bool-cases (prefix_IsValid opts.gateway)) [
  | inl e ↦ rw e v
  | inr e ↦ rw e (omega arith)
]

module _ (net : Resolver) where
  -- An IPv4 address that a host stands for: the address that it is, or one that the lookup of the
  -- name finds if it is none.
  abbrev pub IsAddressOf : Bytes → ℕ → Type 0
  IsAddressOf host x =
      let name = trim_brackets (trim_space host) in
      (net.parse_addr name ≡ some (v4 x))
      ⊎ ((net.parse_addr name ≡ none)
          × (found : List Addr) × (net.lookup_ip4 name ≡ some found)
          × Holds x found)

  -- An IPv4 address that the tunnel must leave alone.
  abbrev pub IsProtected : Bytes → Bytes → Prefix → Prefix → ℕ → Type 0
  IsProtected server_url relay_addr mesh gateway x =
      (contains mesh (v4 x) ≡ true)
      ⊎ (((host : Bytes) × (net.url_hostname server_url ≡ some host) × IsAddressOf host x)
          ⊎ (((host : Bytes) × (net.split_host relay_addr ≡ some host) × IsAddressOf host x)
              ⊎ (contains gateway (v4 x) ≡ true)))

  module _ (x : ℕ) (ps : List Prefix) where
    parsed-protects :
        (name : Bytes) (a : Addr)
        → parsed_or_looked_up net name (some a) ≡ ok ps
        → (protects x ps ≡ true) ↔ (a ≡ v4 x)
    unfolding protects contains
    parsed-protects name no_addr e = (λ h. absurd (ground arith), λ h. absurd (ground arith))
    parsed-protects name (v4 a) e =
        let same : prefix (v4 a) 32 ∷ [] ≡ ps = ground arith in
        let (c, d) = contains-host a x in
        (λ h. c (ground arith), λ h. sym (ap (protects x) same) ∙ ap (λ b. b || false) (d h))
    parsed-protects name (v6 a) e = (λ h. absurd (ground arith), λ h. absurd (ground arith))

    found-protects :
        (found : List Addr)
        → looked_up net (some found) ≡ ok ps
        → (protects x ps ≡ true) ↔ Holds x found
    found-protects found e =
        let same : host_prefixes found ≡ ps = ground arith in
        subst (λ q. (protects x q ≡ true) ↔ Holds x found) same (host_prefixes-protects x found)

    resolved_name :
        (name : Bytes)
        → parsed_or_looked_up net name (net.parse_addr name) ≡ ok ps
        → (protects x ps ≡ true) ↔ (
            (net.parse_addr name ≡ some (v4 x))
            ⊎ ((net.parse_addr name ≡ none)
                × (found : List Addr) × (net.lookup_ip4 name ≡ some found)
                × Holds x found))
    resolved_name name e = elim (Option-cases (net.parse_addr name)) [
      | inl f ↦ elim (Option-cases (net.lookup_ip4 name)) [
        | inl g ↦ absurd (ground arith)
        | inr (found, g) ↦
            let (c, d) =
              found-protects found
                (sym (ap (looked_up net) g) ∙ sym (ap (parsed_or_looked_up net name) f) ∙ e) in
            (
              λ h. inr (f, found, g, c h),
              λ h. elim h [
                | inl p ↦ absurd (ground arith)
                | inr (p, found', g', k) ↦
                    let same : found' ≡ found = ground arith in d (subst (Holds x) same k)
              ],
            )
      ]
      | inr (a, f) ↦
          let (c, d) = parsed-protects name a (sym (ap (parsed_or_looked_up net name) f) ∙ e) in
          (
            λ h. inl (f ∙ ap some (c h)),
            λ h. elim h [ inl p ↦ d (ground arith) | inr (p, found, g, k) ↦ absurd (ground arith) ],
          )
    ]

    resolve_host_ipv4-protects :
        (host : Bytes)
        → resolve_host_ipv4 net host ≡ ok ps
        → (protects x ps ≡ true) ↔ IsAddressOf host x
    unfolding resolve_host_ipv4
    resolve_host_ipv4-protects host e =
        let name = trim_brackets (trim_space host) in
        resolved_name name (elim (Bool-cases (str_eq name [])) [
          | inl f ↦ absurd (ground arith)
          | inr f ↦
              subst
                (λ b.
                  (if b
                    then err ResolveError.empty_host
                    else parsed_or_looked_up net name (net.parse_addr name))
                  ≡ ok ps)
                f e
        ])

  -- The test of `unrouted-cover` in words.
  IsProtected-iff :
      (x : ℕ) (server_url relay_addr : Bytes) (mesh gateway : Prefix) (ps : List Prefix)
      (v : IsResolved net server_url relay_addr mesh ps)
      → ((contains mesh (v4 x) || protects x (v.coordinator ++ v.relay) || contains gateway (v4 x))
          ≡ true)
        ↔ IsProtected server_url relay_addr mesh gateway x
  IsProtected-iff x server_url relay_addr mesh gateway ps v =
      let (c, d) =
        resolve_host_ipv4-protects x v.coordinator v.coordinator_host v.coordinator_found in
      let (f, g) = resolve_host_ipv4-protects x v.relay v.relay_host v.relay_found in
      let both = protects-append x v.coordinator v.relay in
      (
        λ h. elim (Bool-cases (contains mesh (v4 x))) [
          | inl e ↦ inl e
          | inr e ↦ elim (Bool-cases (protects x v.coordinator)) [
            | inl k ↦ inr (inl (v.coordinator_host, v.coordinator_named, c k))
            | inr k ↦ elim (Bool-cases (protects x v.relay)) [
              | inl l ↦ inr (inr (inl (v.relay_host, v.relay_named, f l)))
              | inr l ↦ inr (inr (inr (ground arith)))
            ]
          ]
        ],
        λ h. elim h [
          | inl e ↦ rw e refl
          | inr (inl (host, n, k)) ↦
              let same : host ≡ v.coordinator_host = ground (arith, v.coordinator_named) in
              let own = d (subst (λ t. IsAddressOf t x) same k) in ground arith
          | inr (inr (inl (host, n, k))) ↦
              let same : host ≡ v.relay_host = ground (arith, v.relay_named) in
              let own = g (subst (λ t. IsAddressOf t x) same k) in ground arith
          | inr (inr (inr e)) ↦ ground arith
        ],
      )

  counted :
      (b : Bool) (n : ℕ) → n ≡ (if b then 0 else 1) → ((n ≡ 0) ⊎ (n ≡ 1)) × ((n ≡ 0) ↔ (b ≡ true))
  counted true n e = (inl e, (λ h. refl, λ h. e))
  counted false n e = (inr e, (λ h. absurd (ground arith), λ h. absurd (ground arith)))

  module _ (json : Json) where
    -- A profile that is generated with the resolved protected prefixes of the client has, as its last
    -- inbound, a TUN with routes of which none holds an IPv4 address that the mesh's or the gateway's
    -- network holds or that the coordinator's or the relay's host stands for, and exactly one every
    -- other IPv4 address. The mesh and gateway prefixes have at most 32 bits.
    pub unrouted :
        (server_url relay_addr source text : Bytes) (mesh : Prefix) (opts : TunnelProfileOptions)
        (x : ℕ)
        → x < 2 ^ 32
        → IsPrefix mesh
        → IsPrefix opts.gateway
        → resolve_protected_prefixes net server_url relay_addr mesh ≡ ok opts.protected
        → build_full_tunnel_config json source opts ≡ ok text
        → let gateway = (normalize_tunnel_options opts).gateway in
          (root : Map Bytes Bytes) × (kept : List Bytes) × (added : Bytes) × (routes : List Prefix)
          × LastInbound json text root kept added
          × IsTun json added routes
          × ((cover x routes ≡ 0) ⊎ (cover x routes ≡ 1))
          × ((cover x routes ≡ 0) ↔ IsProtected server_url relay_addr mesh gateway x)
    unrouted server_url relay_addr source text mesh opts x lt vm vg e b =
        let gateway = (normalize_tunnel_options opts).gateway in
        let (old, inbounds, routes, root, kept, added, r, i, o, computed, last, same, tun, rest) =
          build_full_tunnel_config_appends json source text opts b in
        let (v, covered) =
          unrouted-cover net server_url relay_addr mesh gateway opts.protected routes x lt vm
            (normalized-IsPrefix opts vg) e computed in
        let (once, (c, d)) = counted _ (cover x routes) covered in
        let (f, g) = IsProtected-iff x server_url relay_addr mesh gateway opts.protected v in
        (root, kept, added, routes, last, tun, once, (λ h. f (c h), λ h. d (g h)))
