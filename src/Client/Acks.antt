-- ===== src/Client/Acks.antt =====
-- HandleDatagram: what a probe datagram changes in the runtime.
use xray_mesh.Base.{
  ℕ, ◌≡◌, ◌≢◌, refl, ◌⊎◌, inl, inr, arith, none, some, Result, ok, err, Option-cases, Bool-cases,
}
use xray_mesh.Base.Maps.{lookup, delete, lookup-delete}
use xray_mesh.Client.Runtime.{P2pRuntime, Host, PendingProbe}
use xray_mesh.Client.Runtime.Handler.{
  marked, acknowledged, accept_ack, handle_probe_frame, handle_parsed, handle_probe_datagram,
}
use xray_mesh.P2p.Probe.{
  ProbeFrame, probe_type_ack, parse_probe_frame, verify_probe_ack, probe_type_probe,
}
use xray_mesh.P2p.Secret.{P2pError}
use xray_mesh.P2p.Selector.{Selector, SelectorError, mark_direct_healthy}
use xray_mesh.P2p.Tickets.{ProbeTicket, str_eq}
use xray_mesh.Telemetry.{P2pCounters}
use xray_mesh.Text.{Bytes, str_dec}
use xray_mesh.Transport.Relay.{UdpAddr}

module _ (host : Host) where
  -- The state that follows an acknowledgement: its probe is no longer pending, and the path to the
  -- probe's target is marked with the address of the sender.
  abbrev pub after_ack : P2pRuntime → ProbeFrame → PendingProbe → UdpAddr → ℕ → P2pRuntime
  after_ack r frame p source now =
      let m =
        mark_direct_healthy host.is_addr_port r.selector r.counters p.target (host.udp_text source)
          now now in
      record r {
        pending = delete str_dec frame.nonce r.pending;
        selector = m.0.0;
        counters = m.0.1;
      }

  -- The datagram acknowledges a probe that is pending, under the ticket of that probe.
  pub record IsAck (r : P2pRuntime) (b : Bytes) (source : UdpAddr) (now : ℕ) (r' : P2pRuntime)
      : Type 0 where
    pub frame : ProbeFrame
    pub p : PendingProbe
    pub parsed : parse_probe_frame host.codec b ≡ ok frame
    pub waits : lookup str_dec frame.nonce r.pending ≡ some p
    pub verified : verify_probe_ack host.crypto frame p.probe p.ticket now ≡ ok tt
    pub left : r' ≡ after_ack r frame p source now

  marked_state :
      (r : P2pRuntime) (m : (Selector × P2pCounters) × Result SelectorError (Unit {0}))
      → (marked host r m).0 ≡ record r { selector = m.0.0; counters = m.0.1 }
  marked_state r ((s, c), err e) = refl
  marked_state r ((s, c), ok u) = refl

  module _ (r : P2pRuntime) (b : Bytes) (source : UdpAddr) (now : ℕ) where
    abbrev Changed : P2pRuntime → Type 0
    Changed r' = (r' ≡ r) ⊎ IsAck r b source now r'

    of_verified :
        (frame : ProbeFrame) (p : PendingProbe) (m : Result P2pError (Unit {0}))
        → parse_probe_frame host.codec b ≡ ok frame
        → lookup str_dec frame.nonce r.pending ≡ some p
        → verify_probe_ack host.crypto frame p.probe p.ticket now ≡ m
        → Changed (acknowledged host r frame p source now m).0
    of_verified frame p (err e) f g h = inl refl
    of_verified frame p (ok tt) f g h = inr (record {
      frame = frame;
      p = p;
      parsed = f;
      waits = g;
      verified = h;
      left = marked_state (record r { pending = delete str_dec frame.nonce r.pending }) _;
    })

    of_ack :
        (frame : ProbeFrame)
        → parse_probe_frame host.codec b ≡ ok frame
        → Changed (accept_ack host r frame source now).0
    unfolding accept_ack
    of_ack frame f = elim (Option-cases (lookup str_dec frame.nonce r.pending)) [
      | inl e ↦ rw (e, accept_ack) (inl refl)
      | inr (p, e) ↦ rw (e, accept_ack) (of_verified frame p _ f e refl)
    ]

    of_frame :
        (frame : ProbeFrame) (t : ProbeTicket)
        → parse_probe_frame host.codec b ≡ ok frame
        → Changed (handle_probe_frame host r frame t source now).0
    unfolding handle_probe_frame
    of_frame frame t f = elim (Bool-cases (str_eq frame.type probe_type_probe)) [
      | inl e ↦ rw e (inl refl)
      | inr e ↦ elim (Bool-cases (str_eq frame.type probe_type_ack)) [
        | inl g ↦ rw (e, g) (of_ack frame f)
        | inr g ↦ rw (e, g) (inl refl)
      ]
    ]

    of_parsed :
        (m : Result P2pError ProbeFrame)
        → parse_probe_frame host.codec b ≡ m
        → Changed (handle_parsed host r source now m).0
    of_parsed (err e) f = inl refl
    of_parsed (ok frame) f = elim (Option-cases (lookup str_dec frame.ticket_id r.tickets)) [
      | inl e ↦ rw (e, handle_parsed) (inl refl)
      | inr (t, e) ↦ rw (e, handle_parsed) (of_frame frame t f)
    ]

    -- HandleDatagram leaves the runtime as it is, unless the datagram is an acknowledgement that
    -- verifies against a pending probe and the ticket of that probe. Then it only removes the probe
    -- and marks the path to the probe's target, with the sender's address.
    pub handle_probe_datagram_changes : Changed (handle_probe_datagram host r b source now).0
    unfolding handle_probe_datagram
    handle_probe_datagram_changes = of_parsed (parse_probe_frame host.codec b) refl

  -- A probe datagram that has changed the runtime changes nothing when it arrives again, whoever
  -- sends it and whenever.
  pub ack_accepted_once :
      (r : P2pRuntime) (b : Bytes) (source again : UdpAddr) (now later : ℕ)
      → (handle_probe_datagram host r b source now).0 ≢ r
      → (handle_probe_datagram host (handle_probe_datagram host r b source now).0 b again later).0
        ≡ (handle_probe_datagram host r b source now).0
  ack_accepted_once r b source again now later changed =
      elim (handle_probe_datagram_changes r b source now) [
        | inl e ↦ absurd (changed e)
        | inr a ↦
            elim (handle_probe_datagram_changes (handle_probe_datagram host r b source now).0 b
              again later) [
                | inl e ↦ e
                | inr h ↦ absurd (
                    let gone : lookup str_dec a.frame.nonce
                          (handle_probe_datagram host r b source now).0.pending
                        ≡ none =
                      rw a.left (
                        ground
                          (arith, lookup-delete str_dec a.frame.nonce a.frame.nonce r.pending)) in
                    let same : h.frame ≡ a.frame = (let f = h.parsed in let g = a.parsed in cc) in
                    let f = h.waits in cc)
              ]
      ]
