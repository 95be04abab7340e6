-- ===== src/Server/Sweep.antt =====
-- What a sweep leaves of the expired peers.
use xray_mesh.Base.{
  ℕ, ◌-◌, ◌≡◌, refl, ap, ◌∙◌, arith, Bool, true, false, ◌||◌, Option, none, some, List, [], ◌∷◌,
  ltb, if◌then◌else◌, is_yes, All, All-map,
}
use xray_mesh.Base.Maps.{Map, lookup, lookup-delete, Unique, entries_found}
use xray_mesh.Base.Sort.{place, sort_by}
use xray_mesh.Mesh.Registry.{Peer, Registry, by_node_id, get, expire_before}
use xray_mesh.Mesh.Registry.Expire.{stale, values, survivor, get-expire_before, expire_before_out}
use xray_mesh.Mesh.Registry.Invariant.{IsValid}
use xray_mesh.Server.{Api, forget_expired, forget_node_of, sweep}
use xray_mesh.Text.{Bytes, str_dec}
use xray_mesh.Transport.Relay.{Platform, forget_peer}

unfoldable named : Bytes → List Peer → Bool
named k [] = false
named k (p ∷ ps) = is_yes (str_dec p.node_id k) || named k ps

named-place :
    (k : Bytes) (p : Peer) (ps : List Peer)
    → named k (place by_node_id p ps) ≡ (is_yes (str_dec p.node_id k) || named k ps)
unfolding named place
named-place k p [] = refl
named-place k p (q ∷ qs) = ground (arith, named-place k p qs)

named-sort_by : (k : Bytes) (ps : List Peer) → named k (sort_by by_node_id ps) ≡ named k ps
unfolding named sort_by
named-sort_by k [] = refl
named-sort_by k (p ∷ ps) =
    ground (arith, named-place k p (sort_by by_node_id ps), named-sort_by k ps)

abbrev is_stale : ℕ → Option Peer → Bool
is_stale cutoff none = false
is_stale cutoff (some p) = if ltb cutoff p.last_seen then false else true

-- A stale entry is the one of its name.
named-stale :
    (cutoff : ℕ) (k : Bytes) (m : Map Bytes Peer)
    → Unique str_dec m
    → All (λ e. e.1.node_id ≡ e.0) m
    → named k (stale cutoff (values m)) ≡ is_stale cutoff (lookup str_dec k m)
unfolding named stale lookup
named-stale cutoff k [] u ids = refl
named-stale cutoff k ((j, p) ∷ m) u ids =
    ground (arith, u.0, ids.0, named-stale cutoff k m u.1 ids.1)

expired-named :
    (r : Registry) (cutoff : ℕ) (k : Bytes)
    → IsValid r
    → named k (expire_before r cutoff).1 ≡ is_stale cutoff (lookup str_dec k r.peers)
expired-named r cutoff k v =
    ap (named k) (expire_before_out r cutoff)
    ∙ named-sort_by k (stale cutoff (values r.peers))
    ∙ named-stale cutoff k r.peers v.unique
        (All-map _ _ r.peers (λ e h. v.id e.0 e.1 h) (entries_found str_dec r.peers v.unique))

module _ (pf : Platform) where
  forget_expired-endpoints :
      (ps : List Peer) (a : Api pf) (k : Bytes)
      → lookup str_dec k (forget_expired pf ps a).relay.endpoints
        ≡ (if named k ps then none else lookup str_dec k a.relay.endpoints)
  unfolding forget_expired named forget_peer
  forget_expired-endpoints [] a k = refl
  forget_expired-endpoints (p ∷ ps) a k =
      let b : Api pf = record a {
        relay = forget_peer pf a.relay p.node_id;
        tickets = forget_node_of a.tickets p.node_id;
      } in
      ground (
        arith,
        forget_expired-endpoints ps b k,
        lookup-delete str_dec p.node_id k a.relay.endpoints,
      )

  forget_expired-discovery :
      (ps : List Peer) (a : Api pf) (k : Bytes)
      → lookup str_dec k (forget_expired pf ps a).relay.discovery
        ≡ (if named k ps then none else lookup str_dec k a.relay.discovery)
  unfolding forget_expired named forget_peer
  forget_expired-discovery [] a k = refl
  forget_expired-discovery (p ∷ ps) a k =
      let b : Api pf = record a {
        relay = forget_peer pf a.relay p.node_id;
        tickets = forget_node_of a.tickets p.node_id;
      } in
      ground (
        arith,
        forget_expired-discovery ps b k,
        lookup-delete str_dec p.node_id k a.relay.discovery,
      )

  forget_expired-registry :
      (ps : List Peer) (a : Api pf) → (forget_expired pf ps a).registry ≡ a.registry
  unfolding forget_expired
  forget_expired-registry [] a = refl
  forget_expired-registry (p ∷ ps) a = forget_expired-registry ps _

  -- A tick of the sweeper removes a registered peer that was not seen after the cutoff from the
  -- registry, its endpoint and its rate limit from the relay; for a peer that was seen since, all
  -- three stay as they are. The registry has to be consistent.
  pub sweep_lem :
      (a : Api pf) (now pruned_at : ℕ) (k : Bytes) (p : Peer)
      → IsValid a.registry
      → get a.registry k ≡ some p
      → let b = sweep pf a now pruned_at in
        let alive = ltb (now - a.lease_ttl) p.last_seen in
        (get b.registry k ≡ (if alive then some p else none))
        × (lookup str_dec k b.relay.endpoints
            ≡ (if alive then lookup str_dec k a.relay.endpoints else none))
        × (lookup str_dec k b.relay.discovery
            ≡ (if alive then lookup str_dec k a.relay.discovery else none))
  unfolding sweep
  sweep_lem a now pruned_at k p v e =
      let cutoff = now - a.lease_ttl in
      let r = (expire_before a.registry cutoff).0 in
      let ps = (expire_before a.registry cutoff).1 in
      let x : Api pf = record a { registry = r } in
      let found : lookup str_dec k a.registry.peers ≡ some p = unfold get in e in
      let stale_k : named k ps ≡ is_stale cutoff (some p) =
        expired-named a.registry cutoff k v ∙ ap (is_stale cutoff) found in
      (
        ap (λ s. get s k) (forget_expired-registry ps x)
            ∙ get-expire_before a.registry cutoff k v
            ∙ ap (survivor cutoff) e,
        forget_expired-endpoints ps x k ∙ ground (arith, stale_k),
        forget_expired-discovery ps x k ∙ ground (arith, stale_k),
      )
