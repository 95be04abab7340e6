-- ===== src/Client/Runtime/Handler.antt =====
-- HandleDatagram of cmd/client/p2p_runtime.go.
use xray_mesh.Client.Runtime.{
  PendingProbe, P2pRuntime, Host, Outcome, failed, unknown_ticket, no_pending, send_failed,
  protocol_error, mark_error,
}
use xray_mesh.Base.{ℕ, not, none, some, [], ◌∷◌, if◌then◌else◌, Result, ok, err, ◌>>=◌, ◌>>◌}
use xray_mesh.Base.Maps.{lookup, delete}
use xray_mesh.P2p.Probe.{
  ProbeFrame, probe_type_probe, probe_type_ack, parse_probe_frame, marshal_probe_frame,
  verify_probe, new_probe_ack, verify_probe_ack,
}
use xray_mesh.P2p.Secret.{P2pError, not_probe_datagram, invalid_probe_frame, probe_auth_failed}
use xray_mesh.P2p.Selector.{Selector, SelectorError, mark_direct_healthy}
use xray_mesh.P2p.Tickets.{ProbeTicket, str_eq}
use xray_mesh.Telemetry.{P2pCounters}
use xray_mesh.Text.{Bytes, str_dec}
use xray_mesh.Transport.Relay.{UdpAddr}

module _ (host : Host) where
  open host use {crypto, codec, udp_text, is_addr_port, write_ok}

  -- A write to the socket.
  abbrev pub write_to_udp : UdpAddr → Bytes → Outcome
  write_to_udp to wire =
      if write_ok to wire
      then (record { to = to; bytes = wire } ∷ [], ok tt)
      else failed send_failed

  -- The wire bytes of the acknowledgement of a probe.
  unfoldable pub ack_wire : ProbeFrame → ProbeTicket → ℕ → Result P2pError Bytes
  ack_wire frame t now = do
    verify_probe crypto frame t now
    ack ← new_probe_ack crypto frame t now
    marshal_probe_frame codec ack

  abbrev pub write_wire : UdpAddr → Result P2pError Bytes → Outcome
  write_wire to (err e) = failed (protocol_error e)
  write_wire to (ok wire) = write_to_udp to wire

  -- The case of a probe.
  unfoldable pub answer_probe : P2pRuntime → ProbeFrame → ProbeTicket → UdpAddr → ℕ → Outcome
  unfolding ack_wire
  answer_probe r frame t source now =
      if not (str_eq frame.target_node r.node_id)
      then failed (protocol_error probe_auth_failed)
      else write_wire source (ack_wire frame t now)

  abbrev pub marked :
      P2pRuntime → (Selector × P2pCounters) × Result SelectorError (Unit {0}) → P2pRuntime × Outcome
  marked r ((s, c), err e) = (record r { selector = s; counters = c }, failed (mark_error e))
  marked r ((s, c), ok u) = (record r { selector = s; counters = c }, ([], ok tt))

  -- What follows the verification of an acknowledgement.
  abbrev pub acknowledged :
      P2pRuntime
      → ProbeFrame
      → PendingProbe
      → UdpAddr
      → ℕ
      → Result P2pError (Unit {0})
      → P2pRuntime × Outcome
  acknowledged r frame p source now (err e) = (r, failed (protocol_error e))
  acknowledged r frame p source now (ok u) =
      marked (record r { pending = delete str_dec frame.nonce r.pending })
        (mark_direct_healthy is_addr_port r.selector r.counters p.target (udp_text source) now now)

  -- The case of an acknowledgement.
  unfoldable pub accept_ack : P2pRuntime → ProbeFrame → UdpAddr → ℕ → P2pRuntime × Outcome
  accept_ack r frame source now = elim (lookup str_dec frame.nonce r.pending) [
    | none ↦ (r, failed no_pending)
    | some p ↦
        acknowledged r frame p source now (verify_probe_ack crypto frame p.probe p.ticket now)
  ]

  unfoldable pub handle_probe_frame :
      P2pRuntime → ProbeFrame → ProbeTicket → UdpAddr → ℕ → P2pRuntime × Outcome
  unfolding answer_probe accept_ack
  handle_probe_frame r frame t source now =
      if str_eq frame.type probe_type_probe
      then (r, answer_probe r frame t source now)
      else if str_eq frame.type probe_type_ack
      then accept_ack r frame source now
      else (r, failed (protocol_error invalid_probe_frame))

  abbrev pub probe_error : P2pError → Outcome
  probe_error not_probe_datagram = ([], ok tt)
  probe_error e = failed (protocol_error e)

  abbrev pub handle_parsed :
      P2pRuntime → UdpAddr → ℕ → Result P2pError ProbeFrame → P2pRuntime × Outcome
  handle_parsed r source now (err e) = (r, probe_error e)
  handle_parsed r source now (ok frame) = elim (lookup str_dec frame.ticket_id r.tickets) [
    | none ↦ (r, failed unknown_ticket)
    | some t ↦ handle_probe_frame r frame t source now
  ]

  unfoldable pub handle_probe_datagram : P2pRuntime → Bytes → UdpAddr → ℕ → P2pRuntime × Outcome
  unfolding handle_probe_frame
  handle_probe_datagram r b source now = handle_parsed r source now (parse_probe_frame codec b)
