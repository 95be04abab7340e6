-- ===== src/Client/Direct/Delivers.antt =====
-- Which datagrams HandleDirectPayload hands to the TUN.
use xray_mesh.Base.{
  ℕ, ◌≡◌, ◌≢◌, ◌↔◌, refl, ap, ◌∙◌, subst, arith, Bool, true, false, not, ◌||◌, Option, none, some,
  Result, ok, err, is_yes, if◌then◌else◌,
}
use xray_mesh.Base.Maps.{lookup}
use xray_mesh.Client.Direct.{
  DirectError, dropped, delivered, marked_source, after_replay, keyed, checked_ips, parsed_ip,
  from_candidate, handle_opened, handle_with_ticket, handle_identified, id_error,
  handle_direct_payload,
}
use xray_mesh.Client.Replay.{ReplayCache, accept_direct_replay_key}
use xray_mesh.Client.Runtime.{P2pRuntime, Candidate, Host}
use xray_mesh.Netip.{Addr, addr_dec}
use xray_mesh.P2p.Data.{
  Opened, open_direct_payload, direct_payload_ticket_id, direct_payload_replay_key,
}
use xray_mesh.P2p.Secret.{P2pError}
use xray_mesh.P2p.Selector.{Selector, SelectorError, mark_direct_healthy}
use xray_mesh.P2p.Tickets.{ProbeTicket}
use xray_mesh.Packet.{PacketError, ipv4_endpoints}
use xray_mesh.Telemetry.{P2pCounters}
use xray_mesh.Text.{Bytes, str_dec}
use xray_mesh.Transport.Relay.{UdpAddr}

module _ (host : Host) where
  -- The datagram is a direct payload that the node may take in: sealed under a ticket that it holds,
  -- from a node that it knows as a candidate, with that node's address as its source and the node's
  -- own as its destination, and with a key that its replay cache accepts. The sender's address can be
  -- marked as a path to that node.
  pub record IsAccepted (r : P2pRuntime) (b : Bytes) (source : UdpAddr) (local : Addr) (now : ℕ)
      (payload : Bytes) : Type 0 where
    pub id : Bytes
    pub t : ProbeTicket
    pub o : Opened
    pub c : Candidate
    pub ip : Addr
    pub key : Bytes
    pub named : direct_payload_ticket_id b ≡ ok id
    pub held : lookup str_dec id r.tickets ≡ some t
    pub opens : open_direct_payload host.crypto b t r.node_id now ≡ ok o
    pub text : o.payload ≡ payload
    pub known : lookup str_dec o.source_node r.candidates ≡ some c
    pub parsed : host.parse_addr c.virtual_ip ≡ some ip
    pub ips : ipv4_endpoints payload ≡ ok (ip, local)
    pub keyed : direct_payload_replay_key b ≡ ok key
    pub fresh : (accept_direct_replay_key r.replays key t.expires_at now).1 ≡ true
    pub marks :
        (mark_direct_healthy host.is_addr_port r.selector r.counters o.source_node
          (host.udp_text source)
          now
          now).1
        ≡ ok tt

  marked_text :
      (r : P2pRuntime) (text payload : Bytes)
      (m : (Selector × P2pCounters) × Result SelectorError (Unit {0}))
      → (marked_source host r text m).1 ≡ delivered payload
      → (text ≡ payload) × (m.1 ≡ ok tt)
  marked_text r text payload ((s, c), err e) h = cc
  marked_text r text payload ((s, c), ok tt) h = (cc, refl)

  after_replay_text :
      (r : P2pRuntime) (o : Opened) (source : UdpAddr) (now : ℕ) (payload : Bytes)
      (m : ReplayCache × Bool)
      → (after_replay host r o source now m).1 ≡ delivered payload
      → (o.payload ≡ payload)
        × (m.1 ≡ true)
        × ((mark_direct_healthy host.is_addr_port r.selector r.counters o.source_node
              (host.udp_text source)
              now
              now).1
            ≡ ok tt)
  after_replay_text r o source now payload (replays, false) h = cc
  after_replay_text r o source now payload (replays, true) h =
      let (text, marks) = marked_text (record r { replays = replays }) o.payload payload _ h in
      (text, refl, marks)

  module _ (r : P2pRuntime) (b : Bytes) (source : UdpAddr) (local : Addr) (now : ℕ)
      (payload : Bytes) where
    abbrev Keyed : ProbeTicket → Opened → Type 0
    Keyed t o =
        (o.payload ≡ payload)
        × (key : Bytes) × (direct_payload_replay_key b ≡ ok key)
        × ((accept_direct_replay_key r.replays key t.expires_at now).1 ≡ true)
        × ((mark_direct_healthy host.is_addr_port r.selector r.counters o.source_node
              (host.udp_text source) now now).1
            ≡ ok tt)

    of_keyed :
        (t : ProbeTicket) (o : Opened) (m : Result P2pError Bytes)
        → direct_payload_replay_key b ≡ m
        → (keyed host r t o source now m).1 ≡ delivered payload
        → Keyed t o
    of_keyed t o (err e) f h = cc
    of_keyed t o (ok key) f h =
        let (text, fresh, marks) = after_replay_text r o source now payload _ h in
        (text, key, f, fresh, marks)

    of_checked :
        (t : ProbeTicket) (o : Opened) (expected : Addr) (m : Result PacketError (Addr × Addr))
        → (checked_ips host r b t o source now expected local m).1 ≡ delivered payload
        → (m ≡ ok (expected, local)) × Keyed t o
    of_checked t o expected (err e) h = cc
    of_checked t o expected (ok (src, dst)) h =
        decided (addr_dec src expected) (addr_dec dst local) h
      where
        decided :
            (d : Dec (src ≡ expected)) (e : Dec (dst ≡ local))
            → (if not (is_yes d) || not (is_yes e)
                then (r, dropped DirectError.ip_mismatch)
                else keyed host r t o source now (direct_payload_replay_key b)).1
              ≡ delivered payload
            → (◌≡◌ {A = Result PacketError (Addr × Addr)} (ok (src, dst)) (ok (expected, local)))
              × Keyed t o
        decided (no n) e h = cc
        decided (yes p) (no n) h = cc
        decided (yes p) (yes q) h = (cc, of_keyed t o (direct_payload_replay_key b) refl h)

    abbrev FromCandidate : ProbeTicket → Opened → Type 0
    FromCandidate t o =
        (c : Candidate) × (lookup str_dec o.source_node r.candidates ≡ some c)
        × (ip : Addr) × (host.parse_addr c.virtual_ip ≡ some ip)
        × (ipv4_endpoints o.payload ≡ ok (ip, local))
        × Keyed t o

    of_parsed :
        (t : ProbeTicket) (o : Opened) (m : Option Addr)
        → (parsed_ip host r b t o source now local m).1 ≡ delivered payload
        → (ip : Addr) × (m ≡ some ip) × (ipv4_endpoints o.payload ≡ ok (ip, local)) × Keyed t o
    of_parsed t o none h = cc
    of_parsed t o (some ip) h =
        let (e, k) = of_checked t o ip (ipv4_endpoints o.payload) h in (ip, refl, e, k)

    of_candidate :
        (t : ProbeTicket) (o : Opened) (m : Option Candidate)
        → lookup str_dec o.source_node r.candidates ≡ m
        → (from_candidate host r b t o source now local m).1 ≡ delivered payload
        → FromCandidate t o
    of_candidate t o none f h = cc
    of_candidate t o (some c) f h =
        let (ip, p, e, k) = of_parsed t o (host.parse_addr c.virtual_ip) h in (c, f, ip, p, e, k)

    of_opened :
        (t : ProbeTicket) (m : Result P2pError Opened)
        → (handle_opened host r b t source now local m).1 ≡ delivered payload
        → (o : Opened) × (m ≡ ok o) × FromCandidate t o
    of_opened t (err e) h = cc
    of_opened t (ok o) h = (o, refl, of_candidate t o _ refl h)

    of_ticket :
        (m : Option ProbeTicket)
        → (handle_with_ticket host r b source now local m).1 ≡ delivered payload
        → (t : ProbeTicket) × (m ≡ some t)
          × (o : Opened) × (open_direct_payload host.crypto b t r.node_id now ≡ ok o)
          × FromCandidate t o
    of_ticket none h = cc
    of_ticket (some t) h =
        let (o, e, f) = of_opened t (open_direct_payload host.crypto b t r.node_id now) h in
        (t, refl, o, e, f)

    id_error-ne : (e : P2pError) → id_error host e ≢ delivered payload
    id_error-ne P2pError.not_probe_datagram h = cc
    id_error-ne P2pError.invalid_probe_frame h = cc
    id_error-ne P2pError.probe_ticket_expired h = cc
    id_error-ne P2pError.probe_auth_failed h = cc
    id_error-ne P2pError.not_direct_payload h = cc
    id_error-ne P2pError.invalid_direct_payload h = cc
    id_error-ne P2pError.direct_payload_auth_fail h = cc
    id_error-ne P2pError.random_failed h = cc

    of_identified :
        (m : Result P2pError Bytes)
        → direct_payload_ticket_id b ≡ m
        → (handle_identified host r b source now local m).1 ≡ delivered payload
        → IsAccepted r b source local now payload
    of_identified (err e) f h = absurd (id_error-ne e h)
    of_identified (ok id) f h =
        let (t, g, o, e, rest) = of_ticket (lookup str_dec id r.tickets) h in
        let (c, k, ip, p, q, last) = rest in
        let (text, key, ke, fr, marks) = last in
        record {
          id = id;
          t = t;
          o = o;
          c = c;
          ip = ip;
          key = key;
          named = f;
          held = g;
          opens = e;
          text = text;
          known = k;
          parsed = p;
          ips = subst (λ x. ipv4_endpoints x ≡ ok (ip, local)) text q;
          keyed = ke;
          fresh = fr;
          marks = marks;
        }

    accepted_only :
        (handle_direct_payload host r b source local now).1 ≡ delivered payload
        → IsAccepted r b source local now payload
    unfolding handle_direct_payload
    accepted_only h = of_identified (direct_payload_ticket_id b) refl h

    -- What remains of an accepted datagram: the replay cache and the mark of the path.
    pub accepted_rest :
        (a : IsAccepted r b source local now payload)
        → handle_direct_payload host r b source local now
          ≡ after_replay host r a.o source now
              (accept_direct_replay_key r.replays a.key a.t.expires_at now)
    unfolding handle_direct_payload
    accepted_rest a =
        let same : a.o.payload ≡ payload = a.text in
        let here : ipv4_endpoints a.o.payload ≡ ok (a.ip, local) = rw same a.ips in
        ap (handle_identified host r b source now local) a.named
        ∙ ap (handle_with_ticket host r b source now local) a.held
        ∙ ap (handle_opened host r b a.t source now local) a.opens
        ∙ ap (from_candidate host r b a.t a.o source now local) a.known
        ∙ ap (parsed_ip host r b a.t a.o source now local) a.parsed
        ∙ ap (checked_ips host r b a.t a.o source now a.ip local) here
        ∙ ground arith
        ∙ ap (keyed host r a.t a.o source now) a.keyed

    after_fresh :
        (o : Opened) (m : ReplayCache × Bool)
        → m.1 ≡ true
        → (mark_direct_healthy host.is_addr_port r.selector r.counters o.source_node
            (host.udp_text source)
            now
            now).1
          ≡ ok tt
        → (after_replay host r o source now m).1 ≡ delivered o.payload
    after_fresh o (replays, false) f g = cc
    after_fresh o (replays, true) f g = after_mark _ g
      where
        after_mark :
            (m : (Selector × P2pCounters) × Result SelectorError (Unit {0}))
            → m.1 ≡ ok tt
            → (marked_source host (record r { replays = replays }) o.payload m).1
              ≡ delivered o.payload
        after_mark ((s, c), err e) g = cc
        after_mark ((s, c), ok u) g = refl

    -- HandleDirectPayload hands over a payload exactly if the node may take it in: the datagram is
    -- sealed under a ticket that it holds, from a node that is its candidate, whose address is the
    -- source of the packet while the node's own is its destination, the replay cache accepts its key,
    -- and the path to the sender can be marked.
    pub handle_direct_payload_iff :
        ((handle_direct_payload host r b source local now).1 ≡ delivered payload)
        ↔ IsAccepted r b source local now payload
    handle_direct_payload_iff = (
      accepted_only,
      λ a.
          ap (λ m. m.1) (accepted_rest a) ∙ after_fresh a.o _ a.fresh a.marks ∙ ap delivered a.text,
    )
