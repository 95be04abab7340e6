-- ===== src/Transport/Relay/Authority.antt =====
-- Who may make the relay send, and what it sends.
use xray_mesh.Base.{
  ℕ, ◌≡◌, ◌≢◌, ◌⊎◌, refl, ap, ◌∙◌, inl, inr, arith, Bool, true, false, not, ◌||◌, some, List, [],
  ◌∷◌, Option-cases, Result-cases, Bool-cases, if◌then◌else◌, is_yes, length, Result, ok, err, All,
  All-append, All-map, ltb,
}
use xray_mesh.Mesh.Registry.{Peer, Registry, get_by_token, get_by_virtual_ip, list}
use xray_mesh.Netip.{Addr, addr_dec}
use xray_mesh.Packet.{PacketError, ipv4_endpoints}
use xray_mesh.Text.{Bytes, str_dec}
use xray_mesh.Transport.Frame.{
  Frame, FrameError, FrameType, frame_hello, frame_packet, frame_deliver, is_deliver, parse_frame,
  marshal_deliver,
}
use xray_mesh.Transport.Relay.{
  Platform, Relay, RelayError, source_mismatch, UdpAddr, Datagram, Sent, write_to, deliver,
  broadcast_to, broadcast, then_send, guard_discovery, guarded, route, from_peer, handle_bound,
  handle_frame, handle_datagram, endpoint, bind, is_discovery_packet, has_endpoint, is_hello,
}

module _ (pf : Platform) where
  -- A datagram is the deliver frame of the payload, to where a node's traffic last came from.
  abbrev pub Delivers : Relay pf → Bytes → Bytes → Datagram → Type 0
  Delivers r node_id payload d =
      (endpoint pf r node_id ≡ some d.to) × (marshal_deliver payload ≡ ok d.bytes)

  deliver-Delivers :
      (r : Relay pf) (node_id payload : Bytes)
      → All (Delivers r node_id payload) (deliver pf r node_id payload).0
  unfolding deliver
  deliver-Delivers r node_id payload = elim (Option-cases (endpoint pf r node_id)) [
    | inl e ↦ rw (e, deliver) tt
    | inr (to, e) ↦ rw (e, deliver) (written r node_id payload to e (marshal_deliver payload) refl)
  ]
    where
      written :
          (r : Relay pf) (node_id payload : Bytes) (to : UdpAddr)
          → endpoint pf r node_id ≡ some to
          → (m : Result FrameError Bytes) → marshal_deliver payload ≡ m
          → All (Delivers r node_id payload) (write_to pf to m).0
      written r node_id payload to e (err x) f = tt
      written r node_id payload to e (ok frame) f = elim (Bool-cases (pf.write_ok to frame)) [
        | inr g ↦ rw g tt
        | inl g ↦ rw g ((e, f), tt)
      ]

  -- The peer that a packet of `peer` to `destination` may reach: the one that holds the address, or,
  -- for a discovery packet, any other peer.
  abbrev pub MayReach : Registry → Peer → Bytes → Addr → Peer → Type 0
  MayReach registry peer payload destination q =
      (get_by_virtual_ip registry destination ≡ some q)
      ⊎ ((is_discovery_packet payload destination ≡ true) × (q.node_id ≢ peer.node_id))

  abbrev pub Delivered : Relay pf → Registry → Peer → Bytes → Addr → Datagram → Type 0
  Delivered r registry peer payload destination d =
      (q : Peer) × MayReach registry peer payload destination q × Delivers r q.node_id payload d

  then_send-All :
      (P : Datagram → Type 0) (x y : Sent pf) → All P x.0 → All P y.0 → All P (then_send pf x y).0
  then_send-All P (sent, err e) y h k = h
  then_send-All P (sent, ok u) (more, result) h k = All-append P sent more h k

  module _ (registry : Registry) (peer : Peer) (payload : Bytes) (destination : Addr) where
    to_peer :
        (r : Relay pf) (q : Peer)
        → MayReach registry peer payload destination q
        → All (Delivered r registry peer payload destination) (deliver pf r q.node_id payload).0
    to_peer r q m =
        All-map _ _ (deliver pf r q.node_id payload).0 (λ d h. (q, m, h))
          (deliver-Delivers r q.node_id payload)

    to_others :
        (r : Relay pf) (ps : List Peer)
        → is_discovery_packet payload destination ≡ true
        → All
            (Delivered r registry peer payload destination)
            (broadcast_to pf r peer.node_id payload ps).0
    unfolding broadcast_to
    to_others r [] disc = tt
    to_others r (p ∷ ps) disc =
        elim (Bool-cases (
          is_yes (str_dec p.node_id peer.node_id)
          || not (has_endpoint pf (endpoint pf r p.node_id)))) [
            | inl e ↦ rw e (to_others r ps disc)
            | inr e ↦ rw e (
                then_send-All _ (deliver pf r p.node_id payload)
                  (broadcast_to pf r peer.node_id payload ps)
                  (to_peer r p (inr (disc, ground arith))) (to_others r ps disc))
          ]

    abbrev AllDelivered : Relay pf × Sent pf → Type 0
    AllDelivered x = All (Delivered x.0 registry peer payload destination) x.1.0

    guarded_delivers :
        (x : Relay pf × Result RelayError Bool)
        → is_discovery_packet payload destination ≡ true
        → AllDelivered (guarded pf registry peer.node_id payload x)
    guarded_delivers (r, err e) disc = tt
    guarded_delivers (r, ok true) disc = tt
    guarded_delivers (r, ok false) disc = unfold broadcast in to_others r (list registry) disc

    route_delivers :
        (r : Relay pf) (now : ℕ) → AllDelivered (route pf r registry peer payload destination now)
    unfolding route
    route_delivers r now = elim (Bool-cases (is_discovery_packet payload destination)) [
      | inl e ↦ rw (e, route) (guarded_delivers (guard_discovery pf r peer.node_id payload now) e)
      | inr e ↦ elim (Option-cases (get_by_virtual_ip registry destination)) [
        | inl f ↦ rw (e, route, f) tt
        | inr (q, f) ↦ rw (e, route, f) (to_peer r q (inl f))
      ]
    ]

  -- What the handling of a packet of `peer` does: nothing is sent, or the packet's source is the
  -- peer's own address and all that is sent was allowed.
  abbrev pub FromPeer : Registry → Peer → Bytes → Relay pf × Sent pf → Type 0
  FromPeer registry peer payload x =
      (x.1.0 ≡ [])
      ⊎ ((destination : Addr) × (ipv4_endpoints payload ≡ ok (peer.virtual_ip, destination))
          × All (Delivered x.0 registry peer payload destination) x.1.0)

  from_peer-FromPeer :
      (r : Relay pf) (registry : Registry) (peer : Peer) (payload : Bytes) (now : ℕ)
      (m : Result PacketError (Addr × Addr))
      → ipv4_endpoints payload ≡ m
      → FromPeer registry peer payload (from_peer pf r registry peer payload now m)
  from_peer-FromPeer r registry peer payload now (err e) f = inl refl
  from_peer-FromPeer r registry peer payload now (ok (source, destination)) f =
      checked (addr_dec source peer.virtual_ip)
    where
      checked :
          (d : Dec (source ≡ peer.virtual_ip))
          → FromPeer registry peer payload (
              if not (is_yes d)
              then (r, ([], err source_mismatch))
              else route pf r registry peer payload destination now)
      checked (no n) = inl refl
      checked (yes e) = inr (
        destination,
        f ∙ ap (λ a. ok (a, destination)) e,
        route_delivers registry peer payload destination r now,
      )

  only_packet : (t : FrameType) → is_deliver t ≡ false → is_hello t ≡ false → t ≡ frame_packet
  only_packet frame_hello d h = cc
  only_packet frame_packet d h = refl
  only_packet frame_deliver d h = cc

  -- What is sent for a frame: nothing, or the frame is a packet frame.
  abbrev pub OfPacket : Registry → Peer → Frame → Relay pf × Sent pf → Type 0
  OfPacket registry peer frame x =
      (x.1.0 ≡ []) ⊎ ((frame.type ≡ frame_packet) × FromPeer registry peer frame.payload x)

  handle_bound-OfPacket :
      (r : Relay pf) (registry : Registry) (peer : Peer) (frame : Frame) (now : ℕ)
      → is_deliver frame.type ≡ false
      → OfPacket registry peer frame (handle_bound pf r registry peer frame now)
  unfolding handle_bound
  handle_bound-OfPacket r registry peer frame now d = elim (Bool-cases (is_hello frame.type)) [
    | inl e ↦ rw (e, handle_bound) (inl refl)
    | inr e ↦ elim (Bool-cases (ltb 65535 (length frame.payload))) [
      | inl g ↦ rw (e, handle_bound, g) (inl refl)
      | inr g ↦
          rw (e, handle_bound, g)
            (inr (
              only_packet frame.type d e,
              from_peer-FromPeer r registry peer frame.payload now (ipv4_endpoints frame.payload)
                  refl,
            ))
    ]
  ]

  abbrev pub FromToken : Registry → Frame → Relay pf × Sent pf → Type 0
  FromToken registry frame x =
      (x.1.0 ≡ [])
      ⊎ ((peer : Peer) × (get_by_token registry frame.token ≡ some peer)
          × OfPacket registry peer frame x)

  handle_frame-FromToken :
      (r : Relay pf) (registry : Registry) (frame : Frame) (src : UdpAddr) (bound_at now : ℕ)
      → FromToken registry frame (handle_frame pf r registry frame src bound_at now)
  unfolding handle_frame
  handle_frame-FromToken r registry frame src bound_at now =
      elim (Bool-cases (is_deliver frame.type)) [
        | inl e ↦ rw (e, handle_frame) (inl refl)
        | inr e ↦ elim (Option-cases (get_by_token registry frame.token)) [
          | inl g ↦ rw (e, handle_frame, g) (inl refl)
          | inr (peer, g) ↦
              rw (e, handle_frame, g)
                (inr (
                  peer,
                  refl,
                  handle_bound-OfPacket (bind pf r peer.node_id src bound_at) registry peer frame
                      now e,
                ))
        ]
      ]

  -- Whatever datagram arrives, and whatever the state of the relay: either nothing is sent, or it
  -- parses to a packet frame whose token belongs to a registered peer, its payload is an IPv4 packet
  -- whose source is that peer's virtual address, and each datagram sent is the deliver frame of this
  -- payload, to the bound endpoint of a peer that holds the destination address or, for an mDNS or
  -- SSDP packet, of a peer other than the sender.
  pub handle_datagram_authority :
      (r : Relay pf) (registry : Registry) (b : Bytes) (src : UdpAddr) (bound_at now : ℕ)
      → let x = handle_datagram pf r registry b src bound_at now in
        (x.1.0 ≡ [])
        ⊎ ((frame : Frame) × (parse_frame b ≡ ok frame)
            × (frame.type ≡ frame_packet)
            × (peer : Peer) × (get_by_token registry frame.token ≡ some peer)
            × (destination : Addr) × (ipv4_endpoints frame.payload
                ≡ ok (peer.virtual_ip, destination))
            × All (Delivered x.0 registry peer frame.payload destination) x.1.0)
  unfolding handle_datagram
  handle_datagram_authority r registry b src bound_at now = elim (Result-cases (parse_frame b)) [
    | inr (e, f) ↦ rw (f, handle_datagram) (inl refl)
    | inl (frame, f) ↦
        rw (f, handle_datagram)
          (elim (handle_frame-FromToken r registry frame src bound_at now) [
            | inl n ↦ inl n
            | inr (peer, t, inl n) ↦ inl n
            | inr (peer, t, inr (k, inl n)) ↦ inl n
            | inr (peer, t, inr (k, inr (destination, a, d))) ↦
                inr (frame, refl, k, peer, t, destination, a, d)
          ])
  ]
