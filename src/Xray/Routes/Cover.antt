-- ===== src/Xray/Routes/Cover.antt =====
-- How often the routes of the full tunnel hold an address.
use xray_mesh.Base.{
  ℕ, ◌+◌, ◌-◌, ◌^◌, ◌≤◌, ◌<◌, ◌≡◌, ◌⊎◌, refl, sym, ap, ◌∙◌, inl, inr, arith, if◌then◌else◌, Bool,
  true, false, ◌||◌, ◌&&◌, List, [], ◌∷◌, ◌++◌, All, All-append, Result-cases, ok, err,
}
use xray_mesh.Base.Sort.{place, sort_by, sort_by-IsOrdered, IsOrdered}
use xray_mesh.Netip.{
  block, v4, v6, no_addr, Prefix, no_prefix, prefix, prefix_IsValid, masked, contains,
}
use xray_mesh.Netip.Blocks.{div-block}
use xray_mesh.Xray.Routes.{
  invalid_prefix, cut_routes, exclude, route_less, sorted, ipv4_routes_excluding, subtract_prefix,
}
use xray_mesh.Xray.Routes.Subtract.{
  hits, cover, cover-append, merge, subtract_prefix-cover, subtract_prefix-IsRoute, IsRoute,
}

cut_routes_lem :
    (base : Prefix) (routes : List Prefix) (cut : Prefix)
    → cut_routes (base ∷ routes) cut ≡ subtract_prefix 33 base cut ++ cut_routes routes cut
unfolding cut_routes
cut_routes_lem base routes cut = refl

module _ (x : ℕ) where
  cut_routes-cover :
      (routes : List Prefix) (c m : ℕ)
      → All IsRoute routes
      → m ≤ 32
      → cover x (cut_routes routes (prefix (v4 c) m))
        ≡ (if contains (prefix (v4 c) m) (v4 x) then 0 else cover x routes)
  unfolding cover
  cut_routes-cover [] c m r hm = unfold cut_routes in ground arith
  cut_routes-cover (prefix (v4 a) n ∷ routes) c m r hm =
      let base = prefix (v4 a) n in
      let cut = prefix (v4 c) m in
      ap (cover x) (cut_routes_lem base routes cut)
      ∙ cover-append x (subtract_prefix 33 base cut) (cut_routes routes cut)
      ∙ merge x (contains cut (v4 x)) _ (hits x base) _ (cover x routes)
          (hits x base + cover x routes) (subtract_prefix-cover 33 x a n c m (omega arith) r.0 hm)
          (cut_routes-cover routes c m r.1 hm) refl
  cut_routes-cover (no_prefix ∷ routes) c m r hm = absurd r.0
  cut_routes-cover (prefix no_addr n ∷ routes) c m r hm = absurd r.0
  cut_routes-cover (prefix (v6 a) n ∷ routes) c m r hm = absurd r.0

  pub contains-masked :
      (c m : ℕ) → contains (masked (prefix (v4 c) m)) (v4 x) ≡ contains (prefix (v4 c) m) (v4 x)
  unfolding contains masked
  contains-masked c m = rw (div-block (32 - m) c)

  place-cover :
      (p : Prefix) (ps : List Prefix) → cover x (place route_less p ps) ≡ hits x p + cover x ps
  unfolding place cover
  place-cover p [] = refl
  place-cover p (q ∷ qs) = ground (arith, place-cover p qs)

  sort_by-cover : (ps : List Prefix) → cover x (sort_by route_less ps) ≡ cover x ps
  unfolding sort_by cover
  sort_by-cover [] = refl
  sort_by-cover (p ∷ ps) =
      place-cover p (sort_by route_less ps) ∙ ap (λ t. hits x p + t) (sort_by-cover ps)

pub cut_routes-IsRoute :
    (routes : List Prefix) (cut : Prefix) → All IsRoute routes → All IsRoute (cut_routes routes cut)
unfolding cut_routes
cut_routes-IsRoute [] cut r = tt
cut_routes-IsRoute (prefix (v4 a) n ∷ routes) cut r =
    All-append IsRoute _ _ (subtract_prefix-IsRoute 33 a n cut r.0)
      (cut_routes-IsRoute routes cut r.1)
cut_routes-IsRoute (no_prefix ∷ routes) cut r = absurd r.0
cut_routes-IsRoute (prefix no_addr n ∷ routes) cut r = absurd r.0
cut_routes-IsRoute (prefix (v6 a) n ∷ routes) cut r = absurd r.0

-- A value of `netip.Prefix`: an IPv4 prefix has at most 32 bits.
abbrev pub IsPrefix : Prefix → Type 0
IsPrefix (prefix (v4 a) n) = n ≤ 32
IsPrefix _ = Unit

-- Some protected prefix holds the address.
unfoldable pub protects : ℕ → List Prefix → Bool
protects x [] = false
protects x (p ∷ ps) = contains p (v4 x) || protects x ps

cut_masked-cover :
    (x : ℕ) (routes : List Prefix) (c m : ℕ)
    → All IsRoute routes
    → m ≤ 32
    → cover x (cut_routes routes (masked (prefix (v4 c) m)))
      ≡ (if contains (prefix (v4 c) m) (v4 x) then 0 else cover x routes)
unfolding masked
cut_masked-cover x routes c m r hm =
    cut_routes-cover x routes (block (32 - m) c) m r hm
    ∙ ap (λ b. if b then 0 else cover x routes) (contains-masked x c m)

cut_twice :
    (later now : Bool) (p q : ℕ)
    → p ≡ (if now then 0 else q)
    → (if later then 0 else p) ≡ (if now || later then 0 else q)
cut_twice later now p q e = ground arith

exclude-cover :
    (x : ℕ) (routes protected out : List Prefix)
    → All IsRoute routes
    → All IsPrefix protected
    → exclude routes protected ≡ ok out
    → cover x out ≡ (if protects x protected then 0 else cover x routes)
unfolding exclude protects contains
exclude-cover x routes [] out r v e = ground arith
exclude-cover x routes (no_prefix ∷ ps) out r v e = absurd (ground arith)
exclude-cover x routes (prefix no_addr n ∷ ps) out r v e = exclude-cover x routes ps out r v.1 e
exclude-cover x routes (prefix (v6 a) n ∷ ps) out r v e = exclude-cover x routes ps out r v.1 e
exclude-cover x routes (prefix (v4 c) m ∷ ps) out r v e =
    let next = cut_routes routes (masked (prefix (v4 c) m)) in
    exclude-cover x next ps out (cut_routes-IsRoute routes (masked (prefix (v4 c) m)) r) v.1 e
    ∙ cut_twice (protects x ps) (contains (prefix (v4 c) m) (v4 x)) (cover x next) (cover x routes)
        (cut_masked-cover x routes c m r v.0)

abbrev whole : List Prefix
whole = prefix (v4 0) 0 ∷ []

zero_aligned : block 32 0 ≡ 0
unfolding block
zero_aligned = refl

whole_cover : (x : ℕ) → x < 2 ^ 32 → cover x whole ≡ 1
unfolding cover contains
whole_cover x lt = ground arith

-- When IPv4RoutesExcluding returns routes for prefixes of at most 32 bits, an IPv4 address that a
-- protected prefix holds is in none of them, and any other IPv4 address is in exactly one. IPv6
-- prefixes protect nothing.
pub ipv4_routes_excluding-cover :
    (x : ℕ) (protected routes : List Prefix)
    → x < 2 ^ 32
    → All IsPrefix protected
    → ipv4_routes_excluding protected ≡ ok routes
    → cover x routes ≡ (if protects x protected then 0 else 1)
unfolding ipv4_routes_excluding
ipv4_routes_excluding-cover x protected routes lt v e =
    elim (Result-cases (exclude whole protected)) [
      | inr (y, f) ↦ absurd (ground arith)
      | inl (out, f) ↦
          let s : sort_by route_less out ≡ routes = ground (arith, ap sorted f) in
          ap (cover x) (sym s)
          ∙ sort_by-cover x out
          ∙ exclude-cover x whole protected out ((omega arith, zero_aligned), tt) v f
          ∙ ap (λ t. if protects x protected then 0 else t) (whole_cover x lt)
    ]

-- No protected prefix is the zero Prefix.
unfoldable pub all_valid : List Prefix → Bool
all_valid [] = true
all_valid (p ∷ ps) = prefix_IsValid p && all_valid ps

abbrev Outcome : List Prefix → List Prefix → Type 0
Outcome routes protected =
    ((all_valid protected ≡ true) × (out : List Prefix) × (exclude routes protected ≡ ok out))
    ⊎ ((all_valid protected ≡ false) × (exclude routes protected ≡ err invalid_prefix))

exclude-Outcome : (routes protected : List Prefix) → Outcome routes protected
unfolding exclude all_valid
exclude-Outcome routes [] = inl (refl, routes, refl)
exclude-Outcome routes (no_prefix ∷ ps) = inr (refl, refl)
exclude-Outcome routes (prefix no_addr n ∷ ps) = exclude-Outcome routes ps
exclude-Outcome routes (prefix (v6 a) n ∷ ps) = exclude-Outcome routes ps
exclude-Outcome routes (prefix (v4 a) n ∷ ps) =
    exclude-Outcome (cut_routes routes (masked (prefix (v4 a) n))) ps

route_less_asym : (p q : Prefix) → route_less p q ≡ true → route_less q p ≡ false
route_less_asym p q h = ground arith

-- IPv4RoutesExcluding fails exactly if a protected prefix is invalid; otherwise it returns its
-- routes in the order of their addresses and, for one address, of their lengths.
pub ipv4_routes_excluding_ok :
    (protected : List Prefix)
    → ((all_valid protected ≡ true)
        × (routes : List Prefix) × (ipv4_routes_excluding protected ≡ ok routes)
        × IsOrdered route_less routes)
      ⊎ ((all_valid protected ≡ false) × (ipv4_routes_excluding protected ≡ err invalid_prefix))
unfolding ipv4_routes_excluding
ipv4_routes_excluding_ok protected = elim (exclude-Outcome whole protected) [
  | inl (h, out, e) ↦
      inl (h, sort_by route_less out, ap sorted e, sort_by-IsOrdered route_less route_less_asym out)
  | inr (h, e) ↦ inr (h, ap sorted e)
]
