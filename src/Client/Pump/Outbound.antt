-- ===== src/Client/Pump/Outbound.antt =====
-- What leaves the node for a packet of the device.
use xray_mesh.Base.{
  ℕ, ◌≤◌, ◌≡◌, refl, ◌⊎◌, inl, inr, arith, Option, none, some, [], Result, ok, err, Bool-cases, All,
  length,
}
use xray_mesh.Client.Direct.{
  Sending, sent_direct, use_relay, relay_error, send_to, send_sealed, send_with_ticket, send_over,
  send_to_candidate, send_direct_payload, candidate_for_virtual_ip, live_ticket_for_peer,
}
use xray_mesh.Client.Pump.{
  Link, Pumped, write_relay, to_relay, after_direct, to_peer, outbound_class, outbound_read,
  outbound,
}
use xray_mesh.Client.Runtime.{P2pRuntime, Candidate, Host}
use xray_mesh.Netip.{Addr}
use xray_mesh.P2p.Data.{seal_direct_payload}
use xray_mesh.P2p.Secret.{P2pError}
use xray_mesh.P2p.Selector.{Selection, path_relay, path_direct, select}
use xray_mesh.P2p.Tickets.{ProbeTicket, str_eq}
use xray_mesh.Packet.{PacketError, ipv4_endpoints}
use xray_mesh.Router.{Class, class_unknown, class_peer, class_internet, class_discovery, classify}
use xray_mesh.Text.{Bytes}
use xray_mesh.Text.Trim.{trim_space}
use xray_mesh.Transport.Frame.{FrameError, marshal_packet}
use xray_mesh.Transport.Relay.{UdpAddr, Datagram}

module _ (host : Host) where
  -- The direct form of the packet, sealed for a candidate under a ticket of the node's.
  abbrev pub IsSealed : P2pRuntime → Bytes → ℕ → Option Bytes → Datagram → Type 0
  IsSealed r packet now random d =
      (node_id : Bytes) × (t : ProbeTicket) × (live_ticket_for_peer r.node_id r.tickets node_id now
        ≡ some t)
      × (seal_direct_payload host.crypto t r.node_id node_id packet now random ≡ ok d.bytes)

  module _ (packet : Bytes) (now : ℕ) (random : Option Bytes) (P : Datagram → Type 0) where
    abbrev Sends : Sending host → Type 0
    Sends (r, datagrams, result) = (length datagrams ≤ 1) × All P datagrams

    send_to-Sends :
        (r : P2pRuntime) (node_id wire : Bytes) (to : Option UdpAddr)
        → ((u : UdpAddr) → P (record { to = u; bytes = wire }))
        → Sends (send_to host r node_id wire to)
    send_to-Sends r node_id wire none p = (omega arith, tt)
    send_to-Sends r node_id wire (some to) p = elim (Bool-cases (host.write_ok to wire)) [
      | inl e ↦ rw e (omega arith, (p to, tt))
      | inr e ↦ rw e (omega arith, tt)
    ]

    send_sealed-Sends :
        (r : P2pRuntime) (node_id endpoint : Bytes) (m : Result P2pError Bytes)
        → ((u : UdpAddr) (wire : Bytes) → m ≡ ok wire → P (record { to = u; bytes = wire }))
        → Sends (send_sealed host r node_id endpoint m)
    send_sealed-Sends r node_id endpoint (err e) p = (omega arith, tt)
    send_sealed-Sends r node_id endpoint (ok wire) p =
        send_to-Sends r node_id wire (host.resolve endpoint) (λ u. p u wire refl)

    send_with_ticket-Sends :
        (r : P2pRuntime) (node_id endpoint : Bytes) (m : Option ProbeTicket)
        → ((u : UdpAddr) (wire : Bytes) (t : ProbeTicket)
            → m ≡ some t
            → seal_direct_payload host.crypto t r.node_id node_id packet now random ≡ ok wire
            → P (record { to = u; bytes = wire }))
        → Sends (send_with_ticket host r node_id endpoint packet now random m)
    send_with_ticket-Sends r node_id endpoint none p = (omega arith, tt)
    send_with_ticket-Sends r node_id endpoint (some t) p =
        send_sealed-Sends r node_id endpoint _ (λ u wire e. p u wire t refl e)

    send_over-Sends :
        (r : P2pRuntime) (node_id : Bytes) (m : Selection)
        → ((u : UdpAddr) (wire : Bytes)
            → IsSealed r packet now random (record { to = u; bytes = wire })
            → P (record { to = u; bytes = wire }))
        → Sends (send_over host r node_id packet now random m)
    send_over-Sends r node_id path_relay p = (omega arith, tt)
    send_over-Sends r node_id (path_direct e) p = elim (Bool-cases (str_eq (trim_space e) [])) [
      | inl g ↦ rw g (omega arith, tt)
      | inr g ↦ rw g (
          send_with_ticket-Sends r node_id e (live_ticket_for_peer r.node_id r.tickets node_id now)
            (λ u wire t f h. p u wire (node_id, t, f, h)))
    ]

    send_to_candidate-Sends :
        (r : P2pRuntime) (select_at : ℕ) (m : Option Candidate)
        → ((u : UdpAddr) (wire : Bytes)
            → IsSealed r packet now random (record { to = u; bytes = wire })
            → P (record { to = u; bytes = wire }))
        → Sends (send_to_candidate host r packet now select_at random m)
    send_to_candidate-Sends r select_at none p = (omega arith, tt)
    send_to_candidate-Sends r select_at (some c) p =
        let (s, choice) = select r.selector c.node_id select_at in
        send_over-Sends (record r { selector = s }) c.node_id choice p

  module _ (link : Link) (packet : Bytes) where
    -- The relay's form of the packet.
    abbrev pub IsForRelay : Datagram → Type 0
    IsForRelay d = (d.to ≡ link.relay) × (marshal_packet link.token packet ≡ ok d.bytes)

    abbrev pub SendsAtMost : (Datagram → Type 0) → Pumped host → Type 0
    SendsAtMost P (rt, datagrams, result) = (length datagrams ≤ 1) × All P datagrams

    relay_sends :
        (P : Datagram → Type 0) (rt : Option P2pRuntime)
        → ((d : Datagram) → IsForRelay d → P d)
        → SendsAtMost P (to_relay host link rt packet)
    unfolding to_relay
    relay_sends P rt p = written (marshal_packet link.token packet) refl
      where
        written :
            (m : Result FrameError Bytes)
            → marshal_packet link.token packet ≡ m
            → SendsAtMost P (write_relay host link rt m)
        written (err e) f = (omega arith, tt)
        written (ok frame) f = elim (Bool-cases (host.write_ok link.relay frame)) [
          | inl g ↦ rw g (omega arith, (p _ (refl, f), tt))
          | inr g ↦ rw g (omega arith, tt)
        ]

    -- How a datagram may carry the packet: as the relay's form, for a destination in the mesh or a
    -- discovery group, or sealed for a peer, for a destination in the mesh.
    abbrev pub Carries : Option P2pRuntime → ℕ → Option Bytes → Datagram → Type 0
    Carries rt now random d =
        (src : Addr) × (dst : Addr) × (ipv4_endpoints packet ≡ ok (src, dst))
        × (let class =
              classify link.mesh_prefix
                (record { source = src; destination = dst; payload = packet }) in
            (((class ≡ class_peer) ⊎ (class ≡ class_discovery)) × IsForRelay d)
            ⊎ ((class ≡ class_peer)
                × ((r : P2pRuntime) × (rt ≡ some r) × IsSealed r packet now random d)))

    module _ (now select_at : ℕ) (random : Option Bytes) (src dst : Addr)
        (read : ipv4_endpoints packet ≡ ok (src, dst)) where
      abbrev class_of : Class
      class_of =
          classify link.mesh_prefix (record { source = src; destination = dst; payload = packet })

      peer_sends :
          (rt : Option P2pRuntime)
          → class_of ≡ class_peer
          → SendsAtMost
              (Carries rt now random)
              (to_peer host link rt packet dst now select_at random)
      unfolding send_direct_payload
      peer_sends none c =
          relay_sends (Carries none now random) none (λ d h. (src, dst, read, inl (inl c, h)))
      peer_sends (some r) c =
          followed (send_direct_payload host r dst packet now select_at random) (
            send_to_candidate-Sends packet now random (Carries (some r) now random) r select_at
              (candidate_for_virtual_ip r.candidates (host.addr_text dst))
              (λ u wire h. (src, dst, read, inr (c, (r, refl, h)))))
        where
          followed :
              (m : Sending host)
              → Sends packet now random (Carries (some r) now random) m
              → SendsAtMost (Carries (some r) now random) (after_direct host link packet m)
          followed (r', datagrams, sent_direct) h = h
          followed (r', datagrams, use_relay) h =
              relay_sends (Carries (some r) now random) (some r')
                (λ d g. (src, dst, read, inl (inl c, g)))
          followed (r', datagrams, relay_error e) h =
              relay_sends (Carries (some r) now random) (some r')
                (λ d g. (src, dst, read, inl (inl c, g)))

      class_sends :
          (rt : Option P2pRuntime) (class : Class)
          → class_of ≡ class
          → SendsAtMost
              (Carries rt now random)
              (outbound_class host link rt packet dst now select_at random class)
      class_sends rt class_unknown e = (omega arith, tt)
      class_sends rt class_peer e = peer_sends rt e
      class_sends rt class_internet e = (omega arith, tt)
      class_sends rt class_discovery e =
          relay_sends (Carries rt now random) rt (λ d h. (src, dst, read, inl (inr e, h)))

    -- For a packet of the device at most one datagram leaves the node: the packet's frame for the
    -- relay, or the packet sealed for a peer under a live ticket. It leaves only if its destination is
    -- in the mesh, or, to the relay, a discovery group: other traffic is not sent.
    pub outbound-Carries :
        (rt : Option P2pRuntime) (now select_at : ℕ) (random : Option Bytes)
        → (length (outbound host link rt packet now select_at random).1 ≤ 1)
          × All (Carries rt now random) (outbound host link rt packet now select_at random).1
    unfolding outbound
    outbound-Carries rt now select_at random = of_read (ipv4_endpoints packet) refl
      where
        of_read :
            (m : Result PacketError (Addr × Addr))
            → ipv4_endpoints packet ≡ m
            → SendsAtMost
                (Carries rt now random)
                (outbound_read host link rt packet now select_at random m)
        of_read (err e) f = (omega arith, tt)
        of_read (ok (src, dst)) f = class_sends now select_at random src dst f rt _ refl
