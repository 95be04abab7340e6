-- ===== src/Mesh/Registry/Invariant.antt =====
-- What a consistent registry is.
use xray_mesh.Base.{ℕ, ◌≡◌, refl, sym, ◌∙◌, none, some, arith, ite}
use xray_mesh.Base.Maps.{lookup, lookup-insert, lookup-delete, Unique, insert-Unique, delete-Unique}
use xray_mesh.Mesh.Allocator.{Allocator}
use xray_mesh.Mesh.Allocator.Invariant
use xray_mesh.Mesh.Allocator.Invariant.{allocate-IsValid, release-IsValid, new_allocator-IsValid}
use xray_mesh.Mesh.Allocator.Laws.{Grant, release_held}
use xray_mesh.Mesh.Registry.{Peer, Registry, seen, enter, expire}
use xray_mesh.Netip.{Addr, addr_dec}
use xray_mesh.Text.{Bytes, str_dec}

pub record IsValid (r : Registry) : Type 0 where
  pub alloc : Invariant.IsValid r.allocator
  pub unique : Unique str_dec r.peers
  pub id : (k : Bytes) (p : Peer) → lookup str_dec k r.peers ≡ some p → p.node_id ≡ k
  pub leased :
      (k : Bytes) (p : Peer)
      → lookup str_dec k r.peers ≡ some p
      → lookup str_dec k r.allocator.by_node ≡ some p.virtual_ip
  pub ip_known :
      (k : Bytes) (p : Peer)
      → lookup str_dec k r.peers ≡ some p
      → lookup addr_dec p.virtual_ip r.by_ip ≡ some k
  pub token_known :
      (k : Bytes) (p : Peer)
      → lookup str_dec k r.peers ≡ some p
      → lookup str_dec p.session_token r.by_token ≡ some k
  pub of_lease :
      (k : Bytes) (ip : Addr)
      → lookup str_dec k r.allocator.by_node ≡ some ip
      → (p : Peer) × (lookup str_dec k r.peers ≡ some p) × (p.virtual_ip ≡ ip)
  pub of_ip :
      (ip : Addr) (k : Bytes)
      → lookup addr_dec ip r.by_ip ≡ some k
      → (p : Peer) × (lookup str_dec k r.peers ≡ some p) × (p.virtual_ip ≡ ip)
  pub of_token :
      (t k : Bytes)
      → lookup str_dec t r.by_token ≡ some k
      → (p : Peer) × (lookup str_dec k r.peers ≡ some p) × (p.session_token ≡ t)

module _ (r : Registry) (n : Bytes) (q : Peer) (now : ℕ) where
  seen_law :
      (k : Bytes)
      → lookup str_dec k (seen r n q now).peers
        ≡ ite (str_dec n k) (some (record q { last_seen = now })) (lookup str_dec k r.peers)
  seen_law k = lookup-insert str_dec n k (record q { last_seen = now }) r.peers

  module _ (e : lookup str_dec n r.peers ≡ some q) where
    -- A peer is found again, with its address and its token.
    pub seen_find :
        (k : Bytes) (p : Peer)
        → lookup str_dec k r.peers ≡ some p
        → (p' : Peer) × (lookup str_dec k (seen r n q now).peers ≡ some p')
          × (p'.virtual_ip ≡ p.virtual_ip)
          × (p'.session_token ≡ p.session_token)
    seen_find k p f = elim (str_dec n k) [
      | yes h ↦
          (record q { last_seen = now }, ground (arith, seen_law k), ground arith, ground arith)
      | no h ↦ (p, ground (arith, seen_law k), refl, refl)
    ]

    pub seen-IsValid : IsValid r → IsValid (seen r n q now)
    seen-IsValid v = record {
      alloc = v.alloc;
      unique = insert-Unique str_dec n _ r.peers v.unique;
      id = λ k p f. ground (arith, seen_law k, v.id k p, v.id n q e);
      leased = λ k p f. ground (arith, seen_law k, v.leased k p, v.leased n q e);
      ip_known = λ k p f. ground (arith, seen_law k, v.ip_known k p, v.ip_known n q e);
      token_known = λ k p f. ground (arith, seen_law k, v.token_known k p, v.token_known n q e);
      of_lease = λ k ip f.
          let (p, g, h) = v.of_lease k ip f in
          let (p', g', h', _) = seen_find k p g in (p', g', h' ∙ h);
      of_ip = λ ip k f.
          let (p, g, h) = v.of_ip ip k f in
          let (p', g', h', _) = seen_find k p g in (p', g', h' ∙ h);
      of_token = λ t k f.
          let (p, g, h) = v.of_token t k f in
          let (p', g', _, h') = seen_find k p g in (p', g', h' ∙ h);
    }

-- A new peer, with the address that Allocate granted it and a token that no peer has.
module _ (r : Registry) (a : Allocator) (p : Peer) (v : IsValid r) where
  pub enter-IsValid :
      Invariant.IsValid a
      → Grant r.allocator p.node_id p.virtual_ip a
      → lookup str_dec p.node_id r.peers ≡ none
      → lookup str_dec p.session_token r.by_token ≡ none
      → IsValid (enter r a p)
  enter-IsValid va g new fresh = record {
    alloc = va;
    unique = insert-Unique str_dec p.node_id p r.peers v.unique;
    id = λ k q f. ground (arith, peers_law k, v.id k q);
    leased = λ k q f. ground (arith, peers_law k, v.leased k q, g.others k, g.held);
    ip_known = λ k q f. ground (
      arith,
      peers_law k,
      ip_law q.virtual_ip,
      v.ip_known k q,
      v.leased k q,
      g.others k,
      g.owner,
      va.node_of_lease k q.virtual_ip,
    );
    token_known =
        λ k q f. ground (arith, peers_law k, v.token_known k q, token_law q.session_token);
    of_lease = λ k ip f. elim (str_dec p.node_id k) [
      | yes h ↦ (p, ground (arith, peers_law k), ground (arith, g.held))
      | no h ↦
          let (q, e, i) = v.of_lease k ip (ground (arith, g.others k)) in
          (q, ground (arith, peers_law k), i)
    ];
    of_ip = λ ip k f. elim (str_dec p.node_id k) [
      | yes h ↦ (p, ground (arith, peers_law k), own_ip ip (ground arith))
      | no h ↦
          let (q, e, i) = v.of_ip ip k (ground (arith, ip_law ip)) in
          (q, ground (arith, peers_law k), i)
    ];
    of_token = λ t k f. elim (str_dec p.node_id k) [
      | yes h ↦ (p, ground (arith, peers_law k), own_token t (ground arith))
      | no h ↦
          let (q, e, i) = v.of_token t k (ground (arith, token_law t)) in
          (q, ground (arith, peers_law k), i)
    ];
  }
    where
      peers_law :
          (k : Bytes)
          → lookup str_dec k (enter r a p).peers
            ≡ ite (str_dec p.node_id k) (some p) (lookup str_dec k r.peers)
      peers_law k = lookup-insert str_dec p.node_id k p r.peers

      ip_law :
          (i : Addr)
          → lookup addr_dec i (enter r a p).by_ip
            ≡ ite (addr_dec p.virtual_ip i) (some p.node_id) (lookup addr_dec i r.by_ip)
      ip_law i = lookup-insert addr_dec p.virtual_ip i p.node_id r.by_ip

      token_law :
          (t : Bytes)
          → lookup str_dec t (enter r a p).by_token
            ≡ ite (str_dec p.session_token t) (some p.node_id) (lookup str_dec t r.by_token)
      token_law t = lookup-insert str_dec p.session_token t p.node_id r.by_token

      own_ip :
          (i : Addr) → lookup addr_dec i (enter r a p).by_ip ≡ some p.node_id → p.virtual_ip ≡ i
      own_ip i f = elim (addr_dec p.virtual_ip i) [
        | yes h ↦ h
        | no h ↦
            let (q, e, _) = v.of_ip i p.node_id (ground (arith, ip_law i)) in absurd (ground arith)
      ]

      own_token :
          (t : Bytes)
          → lookup str_dec t (enter r a p).by_token ≡ some p.node_id
          → p.session_token ≡ t
      own_token t f = elim (str_dec p.session_token t) [
        | yes h ↦ h
        | no h ↦
            let (q, e, _) = v.of_token t p.node_id (ground (arith, token_law t)) in
            absurd (ground arith)
      ]

-- A peer is struck.
module _ (r : Registry) (n : Bytes) (p : Peer) where
  pub expire_law :
      (k : Bytes)
      → lookup str_dec k (expire r n p).peers ≡ ite (str_dec n k) none (lookup str_dec k r.peers)
  unfolding expire
  expire_law k = lookup-delete str_dec n k r.peers

  module _ (v : IsValid r) (e : lookup str_dec n r.peers ≡ some p) where
    lease_law :
        (k : Bytes)
        → lookup str_dec k (expire r n p).allocator.by_node
          ≡ ite (str_dec n k) none (lookup str_dec k r.allocator.by_node)
    unfolding expire
    lease_law k =
        let (_, none_here, _, others, _) =
          release_held r.allocator n p.virtual_ip (v.leased n p e) in
        elim (str_dec n k) [
          | yes h ↦ ground (arith, none_here)
          | no h ↦ ground (arith, others k (λ x. h (sym x)))
        ]

    pub expire-IsValid : IsValid (expire r n p)
    expire-IsValid = record {
      alloc = unfold expire in release-IsValid r.allocator n v.alloc;
      unique = unfold expire in delete-Unique str_dec n r.peers v.unique;
      id = λ k q f. ground (arith, expire_law k, v.id k q);
      leased = λ k q f. ground (arith, expire_law k, lease_law k, v.leased k q);
      ip_known = λ k q f. ground (
        arith,
        expire_law k,
        v.leased k q,
        v.leased n p,
        v.ip_known k q,
        v.ip_known n p,
        ip_law q.virtual_ip,
      );
      token_known = λ k q f.
          ground
            (arith, expire_law k, v.token_known k q, v.token_known n p, token_law q.session_token);
      of_lease = λ k ip f.
          let (q, g, h) = v.of_lease k ip (ground (arith, lease_law k)) in
          (q, ground (arith, expire_law k, lease_law k), h);
      of_ip = λ ip k f.
          let (q, g, h) = v.of_ip ip k (ground (arith, ip_law ip)) in
          (q, ground (arith, expire_law k, ip_law ip), h);
      of_token = λ t k f.
          let (q, g, h) = v.of_token t k (ground (arith, token_law t)) in
          (q, ground (arith, expire_law k, token_law t), h);
    }
      where
        ip_law :
            (i : Addr)
            → lookup addr_dec i (expire r n p).by_ip
              ≡ ite (addr_dec p.virtual_ip i) none (lookup addr_dec i r.by_ip)
        ip_law i = unfold expire in lookup-delete addr_dec p.virtual_ip i r.by_ip

        token_law :
            (t : Bytes)
            → lookup str_dec t (expire r n p).by_token
              ≡ ite (str_dec p.session_token t) none (lookup str_dec t r.by_token)
        token_law t = unfold expire in lookup-delete str_dec p.session_token t r.by_token
