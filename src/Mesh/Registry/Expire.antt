-- ===== src/Mesh/Registry/Expire.antt =====
-- ExpireBefore.
use mathlib.Core.List.{Perm}
use xray_mesh.Base.{
  ℕ, ◌≡◌, refl, sym, ap, subst, ◌∙◌, inl, inr, Option, none, some, List, [], ◌∷◌, ◌++◌, map, arith,
  ite, Bool-cases, All, All-map, All-and, ltb, if◌then◌else◌,
}
use mathlib.Core.List.{append-nil, append_assoc}
use xray_mesh.Base.Maps.{Map, lookup, Unique, keys_ne, entries_found}
use xray_mesh.Base.Sort.{sort_by, sort_by-perm, sort_by-IsOrdered, IsOrdered}
use xray_mesh.Mesh.Registry.{
  Peer, Registry, expire, expire_loop, expire_before, get, by_node_id, list,
}
use xray_mesh.Mesh.Registry.Invariant.{IsValid, expire_law, expire-IsValid}
use xray_mesh.Text.{Bytes, str_dec, str_lt_asym}

-- The peers whose time is not after the cutoff.
unfoldable pub stale : ℕ → List Peer → List Peer
stale cutoff [] = []
stale cutoff (p ∷ ps) =
    let rest = stale cutoff ps in if ltb cutoff p.last_seen then rest else p ∷ rest

abbrev pub values : Map Bytes Peer → List Peer
values = map (λ e. e.1)

-- What is left of an entry.
abbrev pub survivor : ℕ → Option Peer → Option Peer
survivor cutoff none = none
survivor cutoff (some p) = if ltb cutoff p.last_seen then some p else none

-- What a lookup finds after the loop over `entries`.
abbrev after_loop : ℕ → Option Peer → Option Peer → Option Peer
after_loop cutoff none old = old
after_loop cutoff (some p) old = if ltb cutoff p.last_seen then old else none

abbrev FoundIn : Registry → Map Bytes Peer → Type 0
FoundIn r m = All (λ e. lookup str_dec e.0 r.peers ≡ some e.1) m

module _ (cutoff : ℕ) where
  abbrev next : Registry → Bytes → Peer → Registry
  next r k p = if ltb cutoff p.last_seen then r else expire r k p

  next_law :
      (r : Registry) (k : Bytes) (p : Peer) (j : Bytes)
      → lookup str_dec j (next r k p).peers
        ≡ ite
            (str_dec k j)
            (if ltb cutoff p.last_seen then lookup str_dec j r.peers else none)
            (lookup str_dec j r.peers)
  next_law r k p j = ground (arith, expire_law r k p j)

  next-Found_in :
      (r : Registry) (k : Bytes) (p : Peer) (m : Map Bytes Peer)
      → lookup str_dec k m ≡ none
      → FoundIn r m
      → FoundIn (next r k p) m
  next-Found_in r k p m new f =
      All-map _ _ m (λ e h. ground (arith, h.0, h.1, next_law r k p e.0))
        (All-and _ _ m (keys_ne str_dec k m new) f)

  next-IsValid :
      (r : Registry) (k : Bytes) (p : Peer)
      → IsValid r
      → lookup str_dec k r.peers ≡ some p
      → IsValid (next r k p)
  next-IsValid r k p v e = elim (Bool-cases (ltb cutoff p.last_seen)) [
    | inl h ↦ rw h v
    | inr h ↦ rw h (expire-IsValid r k p v e)
  ]

  loop-IsValid :
      (m : Map Bytes Peer) (r : Registry) (out : List Peer)
      → IsValid r
      → Unique str_dec m
      → FoundIn r m
      → IsValid (expire_loop cutoff m r out).0
  unfolding expire_loop
  loop-IsValid [] r out v u f = v
  loop-IsValid ((k, p) ∷ m) r out v u f =
      loop-IsValid m (next r k p) _ (next-IsValid r k p v f.0) u.1 (next-Found_in r k p m u.0 f.1)

  loop-lookup :
      (m : Map Bytes Peer) (r : Registry) (out : List Peer) (j : Bytes)
      → Unique str_dec m
      → FoundIn r m
      → lookup str_dec j (expire_loop cutoff m r out).0.peers
        ≡ after_loop cutoff (lookup str_dec j m) (lookup str_dec j r.peers)
  unfolding expire_loop lookup
  loop-lookup [] r out j u f = refl
  loop-lookup ((k, p) ∷ m) r out j u f =
      loop-lookup m (next r k p) _ j u.1 (next-Found_in r k p m u.0 f.1)
      ∙ ground (arith, next_law r k p j)

  loop-stale :
      (m : Map Bytes Peer) (r : Registry) (out : List Peer)
      → (expire_loop cutoff m r out).1 ≡ out ++ stale cutoff (values m)
  unfolding expire_loop stale
  loop-stale [] r out = sym (append-nil out)
  loop-stale ((k, p) ∷ m) r out = elim (Bool-cases (ltb cutoff p.last_seen)) [
    | inl h ↦ ground (arith, loop-stale m r out)
    | inr h ↦ ground (
      arith,
      loop-stale m (expire r k p) (out ++ p ∷ []),
      append_assoc out (p ∷ []) (stale cutoff (values m)),
    )
  ]

module _ (r : Registry) (cutoff : ℕ) where
  -- ExpireBefore keeps a consistent registry consistent.
  pub expire_before-IsValid : IsValid r → IsValid (expire_before r cutoff).0
  unfolding expire_before
  expire_before-IsValid v =
      loop-IsValid cutoff r.peers r [] v v.unique (entries_found str_dec r.peers v.unique)

  -- After ExpireBefore on a consistent registry a peer is found exactly if it was found before,
  -- with a time after the cutoff.
  pub get-expire_before :
      (node_id : Bytes)
      → IsValid r
      → get (expire_before r cutoff).0 node_id ≡ survivor cutoff (get r node_id)
  unfolding expire_before get
  get-expire_before j v =
      loop-lookup cutoff r.peers r [] j v.unique (entries_found str_dec r.peers v.unique)
      ∙ ground arith

  -- ExpireBefore returns the peers whose time is not after the cutoff, each as often as the
  -- registry holds it, in the order of their names.
  pub expire_before-stale :
      Perm (expire_before r cutoff).1 (stale cutoff (values r.peers))
      × IsOrdered by_node_id (expire_before r cutoff).1
  unfolding expire_before
  expire_before-stale = (
    subst (λ l. Perm (sort_by by_node_id l) (stale cutoff (values r.peers)))
        (sym (loop-stale cutoff r.peers r [])) (sort_by-perm by_node_id _),
    sort_by-IsOrdered by_node_id (λ p q. str_lt_asym p.node_id q.node_id) _,
  )

  pub expire_before_out :
      (expire_before r cutoff).1 ≡ sort_by by_node_id (stale cutoff (values r.peers))
  unfolding expire_before
  expire_before_out = ap (sort_by by_node_id) (loop-stale cutoff r.peers r [])

  -- List returns every peer, in the order of their names.
  pub list-perm : Perm (list r) (values r.peers) × IsOrdered by_node_id (list r)
  unfolding list
  list-perm = (
    sort_by-perm by_node_id _,
    sort_by-IsOrdered by_node_id (λ p q. str_lt_asym p.node_id q.node_id) _,
  )
