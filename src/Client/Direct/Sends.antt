-- ===== src/Client/Direct/Sends.antt =====
-- A direct send and its arrival at the peer.
use xray_mesh.Base.{
  ℕ, ◌≡◌, refl, ap, subst, ◌∙◌, inl, inr, arith, false, Option, none, some, List, [], ◌∷◌, length,
  Result, ok, err, Bool-cases,
}
use xray_mesh.Base.Maps.{lookup, Unique}
use xray_mesh.Client.Direct.{
  SendResult, sent_direct, delivered, send_to, send_sealed, send_with_ticket, send_over,
  send_to_candidate, send_direct_payload, candidate_for_virtual_ip, live_ticket_for_peer,
  handle_direct_payload,
}
use xray_mesh.Client.Direct.Delivers.{handle_direct_payload_iff}
use xray_mesh.Client.Replay.Once.{unexpired, new_key_accepted}
use xray_mesh.Client.Runtime.{P2pRuntime, Candidate, Host}
use xray_mesh.Netip.{Addr}
use xray_mesh.P2p.Data.{seal_direct_payload, direct_payload_replay_key}
use xray_mesh.P2p.Data.Keys.{seal-keys}
use xray_mesh.P2p.Data.Opens.{open-seal_direct_payload}
use xray_mesh.P2p.Secret.{P2pError, is_expired, ticket_identifier}
use xray_mesh.P2p.Selector.{Selection, path_relay, path_direct, select, mark_direct_healthy}
use xray_mesh.P2p.Tickets.{ProbeTicket, str_eq}
use xray_mesh.Packet.{ipv4_endpoints}
use xray_mesh.Text.{Bytes, str_dec}
use xray_mesh.Text.Trim.{trim_space}
use xray_mesh.Transport.Relay.{UdpAddr, Datagram}

module _ (host : Host) (d : Datagram) where
  -- The send was direct, and sent this datagram only.
  abbrev pub SentAs : P2pRuntime × List Datagram × SendResult → Type 0
  SentAs m = (m.1 ≡ d ∷ []) × (m.2 ≡ sent_direct)

  module _ (node_id payload : Bytes) (now : ℕ) (random : Option Bytes) (t : ProbeTicket) where
    sent_wire :
        (r : P2pRuntime) (wire : Bytes) (to : Option UdpAddr)
        → SentAs (send_to host r node_id wire to)
        → wire ≡ d.bytes
    sent_wire r wire none h = absurd (ground arith)
    sent_wire r wire (some to) h = elim (Bool-cases (host.write_ok to wire)) [
      | inl e ↦ ground arith
      | inr e ↦ absurd (ground arith)
    ]

    sent_sealed :
        (r : P2pRuntime) (e : Bytes) (m : Result P2pError Bytes)
        → SentAs (send_sealed host r node_id e m)
        → m ≡ ok d.bytes
    sent_sealed r e (err x) h = absurd (ground arith)
    sent_sealed r e (ok wire) h = ap ok (sent_wire r wire (host.resolve e) h)

    sent_over :
        (r : P2pRuntime) (m : Selection)
        → live_ticket_for_peer r.node_id r.tickets node_id now ≡ some t
        → SentAs (send_over host r node_id payload now random m)
        → seal_direct_payload host.crypto t r.node_id node_id payload now random ≡ ok d.bytes
    sent_over r path_relay f h = absurd (ground arith)
    sent_over r (path_direct e) f h = elim (Bool-cases (str_eq (trim_space e) [])) [
      | inl g ↦ absurd (ground arith)
      | inr g ↦
          let sent : SentAs (send_with_ticket host r node_id e payload now random (some t)) =
            subst (λ m. SentAs (send_with_ticket host r node_id e payload now random m)) f
              (ground arith) in
          sent_sealed r e _ sent
    ]

  -- What a direct send to a candidate has sealed.
  pub sent_payload :
      (r : P2pRuntime) (to : Addr) (payload : Bytes) (now select_at : ℕ) (random : Option Bytes)
      (c : Candidate) (t : ProbeTicket)
      → candidate_for_virtual_ip r.candidates (host.addr_text to) ≡ some c
      → live_ticket_for_peer r.node_id r.tickets c.node_id now ≡ some t
      → SentAs (send_direct_payload host r to payload now select_at random)
      → seal_direct_payload host.crypto t r.node_id c.node_id payload now random ≡ ok d.bytes
  unfolding send_direct_payload
  sent_payload r to payload now select_at random c t f g h =
      let (s, choice) = select r.selector c.node_id select_at in
      sent_over c.node_id payload now random t (record r { selector = s }) choice g
        (subst (λ m. SentAs (send_to_candidate host r payload now select_at random m)) f h)

  -- The peer is ready for the payload: it holds the ticket under its identifier, still valid, it
  -- knows the sender as a candidate with the packet's source, the packet is for its own address, its
  -- replay cache has no unexpired entry for the datagram, and it can mark the sender's address.
  pub record IsReady (s : P2pRuntime) (sender payload : Bytes) (t : ProbeTicket) (source : UdpAddr)
      (local : Addr) (later : ℕ) : Type 0 where
    pub id : Bytes
    pub c : Candidate
    pub ip : Addr
    pub identified : ticket_identifier host.crypto t ≡ ok id
    pub held : lookup str_dec id s.tickets ≡ some t
    pub live : is_expired t later ≡ false
    pub known : lookup str_dec (trim_space sender) s.candidates ≡ some c
    pub parsed : host.parse_addr c.virtual_ip ≡ some ip
    pub ips : ipv4_endpoints payload ≡ ok (ip, local)
    pub once : Unique str_dec s.replays
    pub fresh :
        (key : Bytes)
        → direct_payload_replay_key d.bytes ≡ ok key
        → unexpired later (lookup str_dec key s.replays) ≡ none
    pub marks :
        (mark_direct_healthy host.is_addr_port s.selector s.counters
          (trim_space sender)
          (host.udp_text source)
          later
          later).1
        ≡ ok tt

  -- What SendDirectPayload sends to a candidate under a nonce of 12 bytes, HandleDirectPayload
  -- delivers at the node of that candidate, if that node is ready for it.
  pub handle-send_direct_payload :
      (r s : P2pRuntime) (local : Addr) (payload nonce : Bytes) (now select_at later : ℕ)
      (source : UdpAddr) (c : Candidate) (t : ProbeTicket)
      → candidate_for_virtual_ip r.candidates (host.addr_text local) ≡ some c
      → live_ticket_for_peer r.node_id r.tickets c.node_id now ≡ some t
      → length nonce ≡ 12
      → s.node_id ≡ c.node_id
      → IsReady s r.node_id payload t source local later
      → SentAs (send_direct_payload host r local payload now select_at (some nonce))
      → (handle_direct_payload host s d.bytes source local later).1 ≡ delivered payload
  handle-send_direct_payload r s local payload nonce now select_at later source c t f g n12 at h
        sent =
      let sealed = sent_payload r local payload now select_at (some nonce) c t f g sent in
      let (names, some_key) =
        seal-keys host.crypto t r.node_id c.node_id payload nonce d.bytes now n12 sealed in
      let (key, k) = some_key in
      (handle_direct_payload_iff host s d.bytes source local later payload).1 (record {
        id = h.id;
        t = t;
        o = record {
          source_node = trim_space r.node_id;
          target_node = trim_space c.node_id;
          payload = payload;
        };
        c = h.c;
        ip = h.ip;
        key = key;
        named = names ∙ h.identified;
        held = h.held;
        opens =
            open-seal_direct_payload host.crypto t r.node_id c.node_id payload nonce s.node_id
              d.bytes now later n12 (ap trim_space at) h.live sealed;
        text = refl;
        known = h.known;
        parsed = h.parsed;
        ips = h.ips;
        keyed = k;
        fresh =
            new_key_accepted s.replays
              (record { key = key; expires_at = t.expires_at; now = later }) h.once (h.fresh key k);
        marks = h.marks;
      })
