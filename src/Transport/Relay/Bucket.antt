-- ===== src/Transport/Relay/Bucket.antt =====
-- The token bucket of discovery packets.
use xray_mesh.Base.{
  ℕ, ◌≡◌, refl, sym, subst, List, [], ◌∷◌, inl, inr, Bool, true, false, Option, none, some,
  Option-cases, Result-cases, Bool-cases, if◌then◌else◌, is_yes, length, Result, ok, err, ltb,
}
use xray_mesh.Base.Entries.{AreEntries, insert-AreEntries, delete-AreEntries, found_entry}
use xray_mesh.Base.Maps.{lookup}
use xray_mesh.Mesh.Registry.{Peer, Registry, get_by_token, get_by_virtual_ip}
use xray_mesh.Netip.{Addr, addr_dec}
use xray_mesh.Packet.{PacketError, ipv4_endpoints}
use xray_mesh.Text.{Bytes, str_dec}
use xray_mesh.Transport.Frame.{Frame, is_deliver, parse_frame}
use xray_mesh.Transport.Relay.{
  Platform, Relay, RelayError, UdpAddr, Limits, DiscoveryPeerState, state_or_new, forget_seen,
  recently_seen, refill, take_token, guard_state, guard_discovery, guarded, route, from_peer,
  RelayOptions, normalize_relay_options, listen_relay, handle_bound, handle_frame, handle_datagram,
  bind, is_discovery_packet, is_hello, forget_peer,
}

module _ (pf : Platform) where
  open pf use {floats.{Float, of_int, less, irrefl, sub_one}}

  -- The bucket of a peer is not above the burst.
  abbrev IsBounded : Limits pf → DiscoveryPeerState pf → Type 0
  IsBounded o s = less (of_int o.burst) s.tokens ≡ false

  -- The relay has these limits, each peer has one bucket, and none is above the burst.
  abbrev AreBounded : Limits pf → Relay pf → Type 0
  AreBounded o r = (r.options ≡ o) × AreEntries str_dec (λ e. IsBounded o e.1) r.discovery

  forget_seen-IsBounded :
      (o : Limits pf) (now : ℕ) (s : DiscoveryPeerState pf)
      → IsBounded o s
      → IsBounded o (forget_seen pf o now s)
  unfolding forget_seen
  forget_seen-IsBounded o now s h = elim (Bool-cases (ltb 0 o.window)) [
    | inl e ↦ rw e h
    | inr e ↦ rw e h
  ]

  refill-IsBounded :
      (o : Limits pf) (now : ℕ) (s : DiscoveryPeerState pf)
      → IsBounded o s
      → IsBounded o (refill pf o now s)
  unfolding refill
  refill-IsBounded o now s h = elim (Bool-cases (ltb s.last_refill now)) [
    | inr e ↦ rw e h
    | inl e ↦ rw e (capped (of_int o.burst) _)
  ]
    where
      capped : (full filled : Float) → less full (if less full filled then full else filled) ≡ false
      capped full filled = elim (Bool-cases (less full filled)) [
        | inl e ↦ rw e (irrefl full)
        | inr e ↦ rw e e
      ]

  take_token-IsBounded :
      (o : Limits pf) (now : ℕ) (fingerprint : Bytes) (s : DiscoveryPeerState pf)
      → IsBounded o s
      → IsBounded o (take_token pf o now fingerprint s).0
  unfolding take_token
  take_token-IsBounded o now fingerprint s h = elim (Bool-cases (less s.tokens (of_int 1))) [
    | inl e ↦ rw e h
    | inr e ↦ rw e (sub_one s.tokens (of_int o.burst) h)
  ]

  guard_state-IsBounded :
      (o : Limits pf) (now : ℕ) (fingerprint : Bytes) (s : DiscoveryPeerState pf)
      → IsBounded o s
      → IsBounded o (guard_state pf o now fingerprint s).0
  unfolding guard_state
  guard_state-IsBounded o now fingerprint s h =
      let s' = forget_seen pf o now s in
      let h' = forget_seen-IsBounded o now s h in
      elim (Bool-cases (recently_seen pf o now (lookup str_dec fingerprint s'.seen))) [
        | inl e ↦ rw e h'
        | inr e ↦ rw e (
            take_token-IsBounded o now fingerprint (refill pf o now s')
              (refill-IsBounded o now s' h'))
      ]

  guard_discovery-AreBounded :
      (o : Limits pf) (r : Relay pf) (node_id payload : Bytes) (now : ℕ)
      → AreBounded o r
      → AreBounded o (guard_discovery pf r node_id payload now).0
  unfolding guard_discovery
  guard_discovery-AreBounded o r node_id payload now (same, h) = (
    same,
    insert-AreEntries str_dec (λ e. IsBounded o e.1) node_id _ r.discovery
        (subst
          (λ l.
            IsBounded o
              (guard_state pf l now (pf.sha256 payload)
                (state_or_new pf r now (lookup str_dec node_id r.discovery))).0)
          (sym same)
          (guard_state-IsBounded o now (pf.sha256 payload) _
            (state (lookup str_dec node_id r.discovery) refl)))
        h,
  )
    where
      state :
          (m : Option (DiscoveryPeerState pf))
          → lookup str_dec node_id r.discovery ≡ m
          → IsBounded o (state_or_new pf r now m)
      state none e =
          subst (λ l. less (of_int o.burst) (of_int l.burst) ≡ false) (sym same)
            (irrefl (of_int o.burst))
      state (some s) e = found_entry str_dec (λ e. IsBounded o e.1) node_id s r.discovery h.1 e

  -- The rest of the handler leaves the buckets alone.
  guarded-AreBounded :
      (o : Limits pf) (registry : Registry) (node_id payload : Bytes)
      (m : Relay pf × Result RelayError Bool)
      → AreBounded o m.0
      → AreBounded o (guarded pf registry node_id payload m).0
  guarded-AreBounded o registry node_id payload (r, err e) h = h
  guarded-AreBounded o registry node_id payload (r, ok true) h = h
  guarded-AreBounded o registry node_id payload (r, ok false) h = h

  module _ (o : Limits pf) (r : Relay pf) (registry : Registry) (h : AreBounded o r) where
    route-AreBounded :
        (peer : Peer) (payload : Bytes) (destination : Addr) (now : ℕ)
        → AreBounded o (route pf r registry peer payload destination now).0
    unfolding route
    route-AreBounded peer payload destination now =
        elim (Bool-cases (is_discovery_packet payload destination)) [
          | inl e ↦ rw e (
              guarded-AreBounded o registry peer.node_id payload _
                (guard_discovery-AreBounded o r peer.node_id payload now h))
          | inr e ↦ elim (Option-cases (get_by_virtual_ip registry destination)) [
            | inl f ↦ rw (e, f, route) h
            | inr (q, f) ↦ rw (e, f, route) h
          ]
        ]

    from_peer-AreBounded :
        (peer : Peer) (payload : Bytes) (now : ℕ) (m : Result PacketError (Addr × Addr))
        → AreBounded o (from_peer pf r registry peer payload now m).0
    from_peer-AreBounded peer payload now (err e) = h
    from_peer-AreBounded peer payload now (ok (source, destination)) =
        elim (Bool-cases (is_yes (addr_dec source peer.virtual_ip))) [
          | inl e ↦ rw e (route-AreBounded peer payload destination now)
          | inr e ↦ rw e h
        ]

    handle_bound-AreBounded :
        (peer : Peer) (frame : Frame) (now : ℕ)
        → AreBounded o (handle_bound pf r registry peer frame now).0
    unfolding handle_bound
    handle_bound-AreBounded peer frame now = elim (Bool-cases (is_hello frame.type)) [
      | inl e ↦ rw e h
      | inr e ↦ elim (Bool-cases (ltb 65535 (length frame.payload))) [
        | inl f ↦ rw (e, f) h
        | inr f ↦
            rw (e, f) (from_peer-AreBounded peer frame.payload now (ipv4_endpoints frame.payload))
      ]
    ]

  handle_frame-AreBounded :
      (o : Limits pf) (r : Relay pf) (registry : Registry) (frame : Frame) (src : UdpAddr)
      (bound_at now : ℕ)
      → AreBounded o r
      → AreBounded o (handle_frame pf r registry frame src bound_at now).0
  unfolding handle_frame bind
  handle_frame-AreBounded o r registry frame src bound_at now h =
      elim (Bool-cases (is_deliver frame.type)) [
        | inl e ↦ rw e h
        | inr e ↦ elim (Option-cases (get_by_token registry frame.token)) [
          | inl f ↦ rw (e, f, handle_frame) h
          | inr (peer, f) ↦
              rw (e, f, handle_frame)
                (handle_bound-AreBounded o (bind pf r peer.node_id src bound_at) registry h peer
                  frame now)
        ]
      ]

  handle_datagram-AreBounded :
      (o : Limits pf) (r : Relay pf) (registry : Registry) (b : Bytes) (src : UdpAddr)
      (bound_at now : ℕ)
      → AreBounded o r
      → AreBounded o (handle_datagram pf r registry b src bound_at now).0
  unfolding handle_datagram
  handle_datagram-AreBounded o r registry b src bound_at now h =
      elim (Result-cases (parse_frame b)) [
        | inr (e, f) ↦ rw (f, handle_datagram) h
        | inl (frame, f) ↦
            rw (f, handle_datagram) (handle_frame-AreBounded o r registry frame src bound_at now h)
      ]

  -- What happens to a relay: a datagram arrives, with the registry as it is then, or a peer is
  -- removed.
  pub data RelayEvent : Type 0 where
    datagram : Registry → Bytes → UdpAddr → ℕ → ℕ → RelayEvent
    forget : Bytes → RelayEvent

  unfoldable pub run_relay : Relay pf → List RelayEvent → Relay pf
  run_relay r [] = r
  run_relay r (datagram registry b src bound_at now ∷ es) =
      run_relay (handle_datagram pf r registry b src bound_at now).0 es
  run_relay r (forget node_id ∷ es) = run_relay (forget_peer pf r node_id) es

  run_relay-AreBounded :
      (o : Limits pf) (r : Relay pf) (es : List RelayEvent)
      → AreBounded o r
      → AreBounded o (run_relay r es)
  unfolding run_relay forget_peer
  run_relay-AreBounded o r [] h = h
  run_relay-AreBounded o r (datagram registry b src bound_at now ∷ es) h =
      run_relay-AreBounded o (handle_datagram pf r registry b src bound_at now).0 es
        (handle_datagram-AreBounded o r registry b src bound_at now h)
  run_relay-AreBounded o r (forget node_id ∷ es) (same, h) =
      run_relay-AreBounded o (forget_peer pf r node_id) es
        (same, delete-AreEntries str_dec (λ e. IsBounded o e.1) node_id r.discovery h)

  -- Whatever datagrams a new relay takes in, whichever peers are removed in between, and however
  -- long it is idle, the tokens in a peer's bucket are not above the burst of the options, after
  -- normalisation. (NaN is not above a number.)
  pub bucket_bounded :
      (options : RelayOptions pf) (es : List RelayEvent) (node_id : Bytes)
      (s : DiscoveryPeerState pf)
      → lookup str_dec node_id (run_relay (listen_relay pf options) es).discovery ≡ some s
      → less (of_int (normalize_relay_options pf options).burst) s.tokens ≡ false
  unfolding listen_relay
  bucket_bounded options es node_id s e =
      let o = normalize_relay_options pf options in
      found_entry str_dec (λ e. IsBounded o e.1) node_id s _
        (run_relay-AreBounded o (listen_relay pf options) es (refl, (tt, tt))).1.1 e
