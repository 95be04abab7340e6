-- ===== src/Xray/Profile/Readback.antt =====
-- What is read back of a config that an inbound was added to.
use xray_mesh.Base.{
  ◌≡◌, ◌⊎◌, refl, sym, ite, ap, ◌∙◌, subst, inl, inr, arith, true, false, not, ◌&&◌, ◌==◌, length,
  map, Option-cases, All-append, Option, none, some, List, [], ◌∷◌, ◌++◌, ok, All, Bool-cases,
}
use xray_mesh.Base.Entries.{All-delete}
use xray_mesh.Base.Maps.{Map, lookup, insert, lookup-insert}
use xray_mesh.Netip.{Prefix}
use xray_mesh.P2p.Tickets.{str_eq}
use xray_mesh.Text.{Bytes, codes, str_dec}
use xray_mesh.Xray.Profile.{
  TunnelProfileOptions, Json, normed, inbounds_text, inbound_of, with_inbound,
}

ite_yes : {A : Type 0} (d : Dec A) (m n : Option Bytes) → A → ite d m n ≡ m
ite_yes (yes a) m n p = refl
ite_yes (no q) m n p = absurd (q p)

ite_no : {A : Type 0} (d : Dec A) (m n : Option Bytes) → ¬ A → ite d m n ≡ n
ite_no (yes a) m n q = absurd (q a)
ite_no (no q) m n p = refl

module _ (json : Json) where
  -- The last inbound of a config.
  abbrev pub LastInbound : Bytes → Map Bytes Bytes → List Bytes → Bytes → Type 0
  LastInbound text root kept added =
      (json.read_root text ≡ some root)
      × (inbounds_text json (lookup str_dec (codes "inbounds") root) ≡ ok (kept ++ (added ∷ [])))

  -- A TUN inbound with these routes.
  abbrev pub IsTun : Bytes → List Prefix → Type 0
  IsTun raw routes =
      (tag : Bytes) × (json.read_meta raw ≡ some (codes "tun", tag))
      × (json.read_routes raw ≡ some (map json.prefix_text routes))

  abbrev pub SameValue : Bytes → Map Bytes Bytes → Map Bytes Bytes → Type 0
  SameValue k m n = normed json.norm (lookup str_dec k m) ≡ normed json.norm (lookup str_dec k n)

  abbrev IsEntry : Bytes × Bytes → Type 0
  IsEntry e = (json.is_text e.0 ≡ true) × (json.is_json e.1 ≡ true)

  -- A list with the normal forms of `l` and one more.
  map_last :
      (back l : List Bytes) (x : Bytes)
      → map json.norm back ≡ map json.norm (l ++ (x ∷ []))
      → (kept : List Bytes) × (added : Bytes) × (back ≡ kept ++ (added ∷ []))
        × (map json.norm kept ≡ map json.norm l)
        × (json.norm added ≡ json.norm x)
  map_last [] [] x h = absurd (ground arith)
  map_last [] (y ∷ l) x h = absurd (ground arith)
  map_last (a ∷ []) [] x h = ([], a, refl, refl, ground arith)
  map_last (a ∷ b ∷ back) [] x h = absurd (ground arith)
  map_last (a ∷ back) (y ∷ l) x h =
      let (kept, added, e, f, g) = map_last back l x (ground arith) in
      (a ∷ kept, added, ap (λ r. a ∷ r) e, ground arith, g)

  pub inbounds_text-json :
      (m : Option Bytes) (l : List Bytes)
      → inbounds_text json m ≡ ok l
      → All (λ r. json.is_json r ≡ true) l
  inbounds_text-json none l h =
      let none_there : [] ≡ l = ground arith in
      subst (All (λ r. json.is_json r ≡ true)) none_there tt
  inbounds_text-json (some raw) l h =
      elim (Bool-cases (not (length raw == 0) && not (str_eq raw (codes "null")))) [
        | inr e ↦
            let none_there : [] ≡ l = ground arith in
            subst (All (λ r. json.is_json r ≡ true)) none_there tt
        | inl e ↦ elim (Option-cases (json.read_list raw)) [
          | inl f ↦ absurd (ground arith)
          | inr (l', f) ↦
              let same : l' ≡ l = ground arith in json.list_json raw l (f ∙ ap some same)
        ]
      ]

  prefix_texts : (ps : List Prefix) → All (λ r. json.is_text r ≡ true) (map json.prefix_text ps)
  prefix_texts [] = tt
  prefix_texts (p ∷ ps) = (json.prefix-is_text p, prefix_texts ps)

  tun_text : json.is_text (codes "tun") ≡ true
  tun_text = json.ascii_text (codes "tun") (omega arith)

  inbounds_key : json.is_text (codes "inbounds") ≡ true
  inbounds_key = json.ascii_text (codes "inbounds") (omega arith)

  entries :
      (root : Map Bytes Bytes) (l : List Bytes)
      → All IsEntry root
      → All (λ r. json.is_json r ≡ true) l
      → All IsEntry (insert str_dec (codes "inbounds") (json.write_list l) root)
  unfolding insert
  entries root l jr jl =
      ((inbounds_key, json.written_json l jl), All-delete str_dec IsEntry _ root jr)

  -- What is read back of a config with an inbound added.
  pub with_inbound_back :
      (root : Map Bytes Bytes) (inbounds : List Bytes) (o : TunnelProfileOptions)
      (routes : List Prefix)
      → All IsEntry root
      → All (λ r. json.is_json r ≡ true) inbounds
      → (root' : Map Bytes Bytes) × (kept : List Bytes) × (added : Bytes) × LastInbound
          (with_inbound json root inbounds (inbound_of json o routes))
          root'
          kept
          added
        × (map json.norm kept ≡ map json.norm inbounds)
        × IsTun added routes
        × ((k : Bytes) → (k ≡ codes "inbounds") ⊎ SameValue k root' root)
  with_inbound_back root inbounds o routes jr ji =
      let key = codes "inbounds" in
      let i = inbound_of json o routes in
      let l = inbounds ++ (json.write_inbound i ∷ []) in
      let jl =
        All-append (λ r. json.is_json r ≡ true) inbounds (json.write_inbound i ∷ []) ji
          (json.inbound_json i, tt) in
      let m = insert str_dec key (json.write_list l) root in
      let (root', a, same) = json.root_back m (entries root l jr jl) in
      let (raw, b, c) = listed root' (json.write_list l) (
        same key
        ∙ ap (normed json.norm)
            (lookup-insert str_dec key key _ root ∙ ite_yes (str_dec key key) _ _ refl)) in
      let (full, not_null, back, d, e) = json.list_back l raw jl c in
      let (kept, added, f, g, h) = map_last back inbounds (json.write_inbound i) e in
      (
        root',
        kept,
        added,
        (a, ap (inbounds_text json) b ∙ read raw back full not_null d ∙ ap ok f),
        g,
        json.inbound_back i added tun_text (prefix_texts routes) h,
        λ k. elim (str_dec key k) [
          | yes q ↦ inl (sym q)
          | no q ↦ inr (
              same k
              ∙ ap (normed json.norm)
                  (lookup-insert str_dec key k _ root ∙ ite_no (str_dec key k) _ _ q))
        ],
      )
    where
      listed :
          (root' : Map Bytes Bytes) (written : Bytes)
          → normed json.norm (lookup str_dec (codes "inbounds") root') ≡ some (json.norm written)
          → (raw : Bytes) × (lookup str_dec (codes "inbounds") root' ≡ some raw)
            × (json.norm raw ≡ json.norm written)
      listed root' written h = elim (Option-cases (lookup str_dec (codes "inbounds") root')) [
        | inl e ↦ absurd (ground arith)
        | inr (raw, e) ↦ (raw, e, ground arith)
      ]

      read :
          (raw : Bytes) (back : List Bytes)
          → (length raw == 0) ≡ false
          → str_eq raw (codes "null") ≡ false
          → json.read_list raw ≡ some back
          → inbounds_text json (some raw) ≡ ok back
      read raw back full not_null d = rw (full, not_null, d) refl
