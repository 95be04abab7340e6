-- ===== src/Client/Protected/Covers.antt =====
-- The routes of the full tunnel against the resolved prefixes of the client.
use xray_mesh.Base.{
  ℕ, ◌^◌, ◌<◌, ◌≡◌, refl, sym, ap, ◌∙◌, subst, inl, inr, arith, true, not, ◌||◌, Option, none, some,
  List, [], ◌∷◌, ◌++◌, ok, err, if◌then◌else◌, Bool-cases, Option-cases, All, All-append, then_ok,
  bind_ok, fail_if,
}
use xray_mesh.Base.Maps.{Map, lookup, insert, lookup-insert}
use xray_mesh.Client.Protected.{
  Resolver, ResolveError, host_prefixes, looked_up, parsed_or_looked_up, trim_brackets,
  resolve_host_ipv4, unique_prefixes, hostname_of, relay_host_of, resolve_protected_prefixes,
}
use xray_mesh.Netip.{
  Addr, no_addr, v4, v6, is4, Prefix, no_prefix, prefix, prefix_IsValid, prefix_addr, masked,
  contains,
}
use xray_mesh.P2p.Tickets.{str_eq}
use xray_mesh.Text.{Bytes, str_dec}
use xray_mesh.Text.Trim.{trim_space}
use xray_mesh.Xray.Routes.{ipv4_routes_excluding}
use xray_mesh.Xray.Routes.Cover.{IsPrefix, protects, contains-masked, ipv4_routes_excluding-cover}
use xray_mesh.Xray.Routes.Subtract.{cover}

-- Masking changes neither the addresses of a prefix nor its length.
masked-contains : (x : ℕ) (p : Prefix) → contains (masked p) (v4 x) ≡ contains p (v4 x)
unfolding masked contains
masked-contains x no_prefix = refl
masked-contains x (prefix no_addr n) = refl
masked-contains x (prefix (v4 a) n) = contains-masked x a n
masked-contains x (prefix (v6 a) n) = refl

masked-IsPrefix : (p : Prefix) → IsPrefix p → IsPrefix (masked p)
unfolding masked
masked-IsPrefix no_prefix v = tt
masked-IsPrefix (prefix no_addr n) v = tt
masked-IsPrefix (prefix (v4 a) n) v = v
masked-IsPrefix (prefix (v6 a) n) v = tt

host-IsPrefix : (a : Addr) → IsPrefix (prefix a 32)
host-IsPrefix no_addr = tt
host-IsPrefix (v4 a) = omega arith
host-IsPrefix (v6 a) = tt

host_prefixes-IsPrefix : (found : List Addr) → All IsPrefix (host_prefixes found)
unfolding host_prefixes
host_prefixes-IsPrefix [] = tt
host_prefixes-IsPrefix (a ∷ rest) = ground (arith, host-IsPrefix a, host_prefixes-IsPrefix rest)

pub protects-append :
    (x : ℕ) (ps qs : List Prefix) → protects x (ps ++ qs) ≡ (protects x ps || protects x qs)
unfolding protects
protects-append x [] qs = refl
protects-append x (p ∷ ps) qs = ground (arith, protects-append x ps qs)

module _ (net : Resolver) where
  resolved-IsPrefix :
      (host : Bytes) (ps : List Prefix) → resolve_host_ipv4 net host ≡ ok ps → All IsPrefix ps
  unfolding resolve_host_ipv4
  resolved-IsPrefix host ps e =
      let name = trim_brackets (trim_space host) in
      elim (Bool-cases (str_eq name [])) [
        | inl f ↦ absurd (ground arith)
        | inr f ↦ by_name name (net.parse_addr name) (
            subst
              (λ b.
                (if b
                  then err ResolveError.empty_host
                  else parsed_or_looked_up net name (net.parse_addr name))
                ≡ ok ps)
              f e)
      ]
    where
      by_lookup : (m : Option (List Addr)) → looked_up net m ≡ ok ps → All IsPrefix ps
      by_lookup none h = absurd (ground arith)
      by_lookup (some found) h =
          let same : host_prefixes found ≡ ps = ground arith in
          subst (All IsPrefix) same (host_prefixes-IsPrefix found)

      by_name :
          (name : Bytes) (m : Option Addr)
          → parsed_or_looked_up net name m ≡ ok ps
          → All IsPrefix ps
      by_name name none h = by_lookup (net.lookup_ip4 name) h
      by_name name (some a) h = elim (Bool-cases (is4 a)) [
        | inl g ↦
            let same : prefix a 32 ∷ [] ≡ ps = ground arith in
            subst (All IsPrefix) same (host-IsPrefix a, tt)
        | inr g ↦ let same : [] ≡ ps = ground arith in subst (All IsPrefix) same tt
      ]

  -- Each key that was seen is the text of a prefix that was kept.
  abbrev AreKept : Map Bytes (Unit {0}) → List Prefix → ℕ → Type 0
  AreKept seen unique x =
      (q : Prefix)
      → lookup str_dec (net.prefix_text q) seen ≡ some tt
      → contains q (v4 x) ≡ true
      → protects x unique ≡ true

  module _ (x : ℕ) where
    one_more :
        (unique : List Prefix) (p : Prefix)
        → protects x (unique ++ (masked p ∷ [])) ≡ (protects x unique || contains p (v4 x))
    one_more unique p =
        protects-append x unique (masked p ∷ [])
        ∙ (unfold protects in rw (masked-contains x p) (ground arith))

    kept_more :
        (seen : Map Bytes (Unit {0})) (unique : List Prefix) (p : Prefix)
        → AreKept seen unique x
        → AreKept
            (insert str_dec (net.prefix_text (masked p)) tt seen)
            (unique ++ (masked p ∷ []))
            x
    kept_more seen unique p k q h c =
        one_more unique p ∙ elim (str_dec (net.prefix_text (masked p)) (net.prefix_text q)) [
          | yes e ↦
              let same : masked p ≡ q = net.text_one (masked p) q e in
              let d : contains p (v4 x) ≡ true =
                sym (masked-contains x p) ∙ ap (λ r. contains r (v4 x)) same ∙ c in
              rw d (ground arith)
          | no n ↦
              let old : lookup str_dec (net.prefix_text q) seen ≡ some tt = ground (
                arith,
                lookup-insert str_dec (net.prefix_text (masked p)) (net.prefix_text q) tt seen,
              ) in
              rw (k q old c) refl
        ]

    unique-protects :
        (ps : List Prefix) (seen : Map Bytes (Unit {0})) (unique : List Prefix)
        → AreKept seen unique x
        → protects x (unique_prefixes net ps seen unique) ≡ (protects x unique || protects x ps)
    unfolding unique_prefixes protects
    unique-protects [] seen unique k = ground arith
    unique-protects (p ∷ ps) seen unique k =
        elim (Option-cases (lookup str_dec (net.prefix_text (masked p)) seen)) [
          | inl e ↦ rw e (
              unique-protects ps _ _ (kept_more seen unique p k)
              ∙ ap (λ b. b || protects x ps) (one_more unique p)
              ∙ ground arith)
          | inr (u, e) ↦
              let c : contains p (v4 x) ≡ true → protects x unique ≡ true =
                λ h. k (masked p) e (masked-contains x p ∙ h) in
              rw e (unique-protects ps seen unique k ∙ ground (arith, c))
        ]

  unique-IsPrefix :
      (ps : List Prefix) (seen : Map Bytes (Unit {0})) (unique : List Prefix)
      → All IsPrefix ps
      → All IsPrefix unique
      → All IsPrefix (unique_prefixes net ps seen unique)
  unfolding unique_prefixes
  unique-IsPrefix [] seen unique h k = k
  unique-IsPrefix (p ∷ ps) seen unique h k =
      unique-IsPrefix ps _ _ h.1
        (ground (arith, All-append IsPrefix unique (masked p ∷ []) k (masked-IsPrefix p h.0, tt)))

  -- The parts of a result.
  pub record IsResolved (server_url relay_addr : Bytes) (mesh : Prefix) (protected : List Prefix)
      : Type 0 where
    pub coordinator_host : Bytes
    pub relay_host : Bytes
    pub coordinator : List Prefix
    pub relay : List Prefix
    pub coordinator_named : net.url_hostname server_url ≡ some coordinator_host
    pub relay_named : net.split_host relay_addr ≡ some relay_host
    pub coordinator_found : resolve_host_ipv4 net coordinator_host ≡ ok coordinator
    pub relay_found : resolve_host_ipv4 net relay_host ≡ ok relay
    pub unique : protected ≡ unique_prefixes net (masked mesh ∷ (coordinator ++ relay)) [] []

  hostname_some : (m : Option Bytes) (name : Bytes) → hostname_of net m ≡ ok name → m ≡ some name
  hostname_some none name h = absurd (ground arith)
  hostname_some (some s) name h = ground arith

  relay_host_some :
      (m : Option Bytes) (host : Bytes) → relay_host_of net m ≡ ok host → m ≡ some host
  relay_host_some none host h = absurd (ground arith)
  relay_host_some (some s) host h = ground arith

  resolve_protected_prefixes-IsResolved :
      (server_url relay_addr : Bytes) (mesh : Prefix) (protected : List Prefix)
      → resolve_protected_prefixes net server_url relay_addr mesh ≡ ok protected
      → IsResolved server_url relay_addr mesh protected
  unfolding resolve_protected_prefixes
  resolve_protected_prefixes-IsResolved server_url relay_addr mesh protected e =
      let (guard, h1) =
        then_ok
          (fail_if (not (prefix_IsValid mesh) || not (is4 (prefix_addr mesh)))
            ResolveError.mesh_invalid)
          _ _ e in
      let (coordinator_host, a, h2) =
        bind_ok (hostname_of net (net.url_hostname server_url)) _ _ h1 in
      let (relay_host, b, h3) = bind_ok (relay_host_of net (net.split_host relay_addr)) _ _ h2 in
      let (coordinator, c, h4) = bind_ok (resolve_host_ipv4 net coordinator_host) _ _ h3 in
      let (relay, d, h5) = bind_ok (resolve_host_ipv4 net relay_host) _ _ h4 in
      record {
        coordinator_host = coordinator_host;
        relay_host = relay_host;
        coordinator = coordinator;
        relay = relay;
        coordinator_named = hostname_some _ _ a;
        relay_named = relay_host_some _ _ b;
        coordinator_found = c;
        relay_found = d;
        unique = ground arith;
      }

  none_kept : (x : ℕ) → AreKept [] [] x
  unfolding lookup
  none_kept x q h c = absurd (ground arith)

  -- An address under the mesh, the resolved prefixes and the gateway's network.
  pub unrouted-cover :
      (server_url relay_addr : Bytes) (mesh gateway : Prefix) (protected routes : List Prefix)
      (x : ℕ)
      → x < 2 ^ 32
      → IsPrefix mesh
      → IsPrefix gateway
      → resolve_protected_prefixes net server_url relay_addr mesh ≡ ok protected
      → ipv4_routes_excluding (protected ++ (masked gateway ∷ [])) ≡ ok routes
      → (v : IsResolved server_url relay_addr mesh protected) × (cover x routes ≡ (
          if contains mesh (v4 x)
            || protects x (v.coordinator ++ v.relay)
            || contains gateway (v4 x)
          then 0
          else 1))
  unrouted-cover server_url relay_addr mesh gateway protected routes x lt vm vg e f =
      let v = resolve_protected_prefixes-IsResolved server_url relay_addr mesh protected e in
      let hosts = v.coordinator ++ v.relay in
      let all : All IsPrefix (masked mesh ∷ hosts) = (
        masked-IsPrefix mesh vm,
        All-append IsPrefix v.coordinator v.relay
            (resolved-IsPrefix v.coordinator_host v.coordinator v.coordinator_found)
            (resolved-IsPrefix v.relay_host v.relay v.relay_found),
      ) in
      let ps = unique_prefixes net (masked mesh ∷ hosts) [] [] in
      let all_protected : All IsPrefix protected =
        subst (All IsPrefix) (sym v.unique) (unique-IsPrefix (masked mesh ∷ hosts) [] [] all tt) in
      let whole =
        ipv4_routes_excluding-cover x (protected ++ (masked gateway ∷ [])) routes lt
          (All-append IsPrefix protected (masked gateway ∷ []) all_protected
            (masked-IsPrefix gateway vg, tt))
          f in
      let same : protects x protected ≡ (contains mesh (v4 x) || protects x hosts) =
        ap (protects x) v.unique
        ∙ unique-protects x (masked mesh ∷ hosts) [] [] (none_kept x)
        ∙ (unfold protects in ap (λ b. b || protects x hosts) (masked-contains x mesh)) in
      (
        v,
        whole
            ∙ ap (λ b. if b then 0 else 1)
                (one_more x protected gateway
                  ∙ ap (λ b. b || contains gateway (v4 x)) same
                  ∙ ground arith),
      )
