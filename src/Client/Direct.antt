-- ===== src/Client/Direct.antt =====
-- cmd/client/direct_runtime.go: mesh packets over a direct path. Each call is one step.
pub mod Delivers
pub mod Sends
use xray_mesh.Base.{
  ℕ, ◌≡◌, Bool, true, false, not, ◌&&◌, ◌||◌, Option, none, some, List, [], ◌∷◌, if◌then◌else◌,
  is_yes, Result, ok, err,
}
use xray_mesh.Base.Maps.{Map, lookup}
use xray_mesh.Client.Replay.{ReplayCache, accept_direct_replay_key}
use xray_mesh.Client.Runtime.{P2pRuntime, Candidate, Host}
use xray_mesh.Netip.{Addr, addr_dec}
use xray_mesh.P2p.Data.{
  Opened, seal_direct_payload, open_direct_payload, direct_payload_ticket_id,
  direct_payload_replay_key,
}
use xray_mesh.P2p.Secret.{P2pError, probe_ticket_expired, not_direct_payload, is_expired}
use xray_mesh.P2p.Selector.{
  Selector, Selection, path_relay, path_direct, SelectorError, mark_direct_healthy,
  mark_direct_failed, select,
}
use xray_mesh.P2p.Tickets.{ProbeTicket, str_eq, of_pair}
use xray_mesh.Packet.{PacketError, ipv4_endpoints}
use xray_mesh.Telemetry.{
  P2pCounters, inc_direct_tx, inc_direct_rx, inc_direct_fallback, inc_replay_drop,
}
use xray_mesh.Text.{Bytes, str_dec}
use xray_mesh.Text.Trim.{trim_space}
use xray_mesh.Transport.Relay.{UdpAddr, Datagram}

pub data DirectError : Type 0 where
  unknown_ticket no_candidate bad_candidate_ip ip_mismatch replay bad_endpoint send_failed :
      DirectError
  protocol_error : P2pError → DirectError
  packet_error : PacketError → DirectError
  mark_error : SelectorError → DirectError

-- Whether the packet was sent directly, and the error; if not, the caller takes the relay.
pub data SendResult : Type 0 where
  sent_direct use_relay : SendResult
  relay_error : DirectError → SendResult

-- What a datagram is to the caller: no direct payload, a dropped one, or a packet.
pub data Handling : Type 0 where
  not_handled : Handling
  dropped : DirectError → Handling
  delivered : Bytes → Handling

-- The loop of candidateForVirtualIP, which takes the first that it meets.
unfoldable pub candidate_for_virtual_ip : Map Bytes Candidate → Bytes → Option Candidate
candidate_for_virtual_ip [] ip = none
candidate_for_virtual_ip ((_, c) ∷ cs) ip =
    let rest = candidate_for_virtual_ip cs ip in if str_eq c.virtual_ip ip then some c else rest

-- The loop of liveTicketForPeer.
unfoldable pub live_ticket_for_peer : Bytes → Map Bytes ProbeTicket → Bytes → ℕ → Option ProbeTicket
live_ticket_for_peer node_id [] peer now = none
live_ticket_for_peer node_id ((_, t) ∷ ts) peer now =
    let rest = live_ticket_for_peer node_id ts peer now in
    if not (is_expired t now) && of_pair node_id peer t then some t else rest

abbrev pub fallback : P2pRuntime → P2pRuntime
fallback r = record r { counters = inc_direct_fallback r.counters }

-- The path has failed.
abbrev pub direct_failed : P2pRuntime → Bytes → P2pRuntime
direct_failed r node_id = record r {
  counters = inc_direct_fallback r.counters;
  selector = mark_direct_failed r.selector node_id;
}

module _ (host : Host) where
  open host use {crypto, parse_addr, addr_text, resolve, udp_text, is_addr_port, write_ok}

  -- What a send leaves.
  abbrev pub Sending : Type 0
  Sending = P2pRuntime × List Datagram × SendResult

  abbrev pub send_to : P2pRuntime → Bytes → Bytes → Option UdpAddr → Sending
  send_to r node_id wire none = (direct_failed r node_id, [], relay_error bad_endpoint)
  send_to r node_id wire (some to) =
      if write_ok to wire
      then (
        record r { counters = inc_direct_tx r.counters },
        record { to = to; bytes = wire } ∷ [],
        sent_direct,
      )
      else (direct_failed r node_id, [], relay_error send_failed)

  abbrev pub seal_error : P2pError → SendResult
  seal_error probe_ticket_expired = use_relay
  seal_error e = relay_error (protocol_error e)

  abbrev pub send_sealed : P2pRuntime → Bytes → Bytes → Result P2pError Bytes → Sending
  send_sealed r node_id endpoint (err e) = (fallback r, [], seal_error e)
  send_sealed r node_id endpoint (ok wire) = send_to r node_id wire (resolve endpoint)

  abbrev pub send_with_ticket :
      P2pRuntime → Bytes → Bytes → Bytes → ℕ → Option Bytes → Option ProbeTicket → Sending
  send_with_ticket r node_id endpoint payload now random none = (fallback r, [], use_relay)
  send_with_ticket r node_id endpoint payload now random (some t) =
      send_sealed r node_id endpoint
        (seal_direct_payload crypto t r.node_id node_id payload now random)

  abbrev pub send_over : P2pRuntime → Bytes → Bytes → ℕ → Option Bytes → Selection → Sending
  send_over r node_id payload now random path_relay = (r, [], use_relay)
  send_over r node_id payload now random (path_direct endpoint) =
      if str_eq (trim_space endpoint) []
      then (r, [], use_relay)
      else send_with_ticket r node_id endpoint payload now random
          (live_ticket_for_peer r.node_id r.tickets node_id now)

  -- The choice of the path may drop an expired mark.
  abbrev pub send_to_candidate :
      P2pRuntime → Bytes → ℕ → ℕ → Option Bytes → Option Candidate → Sending
  send_to_candidate r payload now select_at random none = (r, [], use_relay)
  send_to_candidate r payload now select_at random (some c) =
      let (s, choice) = select r.selector c.node_id select_at in
      send_over (record r { selector = s }) c.node_id payload now random choice

  unfoldable pub send_direct_payload : P2pRuntime → Addr → Bytes → ℕ → ℕ → Option Bytes → Sending
  unfolding candidate_for_virtual_ip live_ticket_for_peer
  send_direct_payload r destination payload now select_at random =
      send_to_candidate r payload now select_at random
        (candidate_for_virtual_ip r.candidates (addr_text destination))

  abbrev pub marked_source :
      P2pRuntime
      → Bytes
      → (Selector × P2pCounters) × Result SelectorError (Unit {0})
      → P2pRuntime × Handling
  marked_source r payload ((s, c), err e) =
      (record r { selector = s; counters = c }, dropped (mark_error e))
  marked_source r payload ((s, c), ok u) =
      (record r { selector = s; counters = inc_direct_rx c }, delivered payload)

  abbrev pub after_replay :
      P2pRuntime → Opened → UdpAddr → ℕ → ReplayCache × Bool → P2pRuntime × Handling
  after_replay r o source now (replays, false) =
      (record r { replays = replays; counters = inc_replay_drop r.counters }, dropped replay)
  after_replay r o source now (replays, true) =
      marked_source (record r { replays = replays }) o.payload
        (mark_direct_healthy is_addr_port r.selector r.counters o.source_node (udp_text source) now
          now)

  abbrev pub keyed :
      P2pRuntime
      → ProbeTicket
      → Opened
      → UdpAddr
      → ℕ
      → Result P2pError Bytes
      → P2pRuntime × Handling
  keyed r t o source now (err e) = (r, dropped (protocol_error e))
  keyed r t o source now (ok key) =
      after_replay r o source now (accept_direct_replay_key r.replays key t.expires_at now)

  -- The addresses of the packet against the candidate's and the node's own.
  abbrev pub checked_ips :
      P2pRuntime
      → Bytes
      → ProbeTicket
      → Opened
      → UdpAddr
      → ℕ
      → Addr
      → Addr
      → Result PacketError (Addr × Addr)
      → P2pRuntime × Handling
  checked_ips r b t o source now expected local (err e) = (r, dropped (packet_error e))
  checked_ips r b t o source now expected local (ok (src, dst)) =
      if not (is_yes (addr_dec src expected)) || not (is_yes (addr_dec dst local))
      then (r, dropped ip_mismatch)
      else keyed r t o source now (direct_payload_replay_key b)

  abbrev pub parsed_ip :
      P2pRuntime
      → Bytes
      → ProbeTicket
      → Opened
      → UdpAddr
      → ℕ
      → Addr
      → Option Addr
      → P2pRuntime × Handling
  parsed_ip r b t o source now local none = (r, dropped bad_candidate_ip)
  parsed_ip r b t o source now local (some expected) =
      checked_ips r b t o source now expected local (ipv4_endpoints o.payload)

  abbrev pub from_candidate :
      P2pRuntime
      → Bytes
      → ProbeTicket
      → Opened
      → UdpAddr
      → ℕ
      → Addr
      → Option Candidate
      → P2pRuntime × Handling
  from_candidate r b t o source now local none = (r, dropped no_candidate)
  from_candidate r b t o source now local (some c) =
      parsed_ip r b t o source now local (parse_addr c.virtual_ip)

  abbrev pub handle_opened :
      P2pRuntime
      → Bytes
      → ProbeTicket
      → UdpAddr
      → ℕ
      → Addr
      → Result P2pError Opened
      → P2pRuntime × Handling
  handle_opened r b t source now local (err e) = (r, dropped (protocol_error e))
  handle_opened r b t source now local (ok o) =
      from_candidate r b t o source now local (lookup str_dec o.source_node r.candidates)

  abbrev pub handle_with_ticket :
      P2pRuntime → Bytes → UdpAddr → ℕ → Addr → Option ProbeTicket → P2pRuntime × Handling
  handle_with_ticket r b source now local none = (r, dropped unknown_ticket)
  handle_with_ticket r b source now local (some t) =
      handle_opened r b t source now local (open_direct_payload crypto b t r.node_id now)

  abbrev pub id_error : P2pError → Handling
  id_error not_direct_payload = not_handled
  id_error e = dropped (protocol_error e)

  abbrev pub handle_identified :
      P2pRuntime → Bytes → UdpAddr → ℕ → Addr → Result P2pError Bytes → P2pRuntime × Handling
  handle_identified r b source now local (err e) = (r, id_error e)
  handle_identified r b source now local (ok id) =
      handle_with_ticket r b source now local (lookup str_dec id r.tickets)

  unfoldable pub handle_direct_payload :
      P2pRuntime → Bytes → UdpAddr → Addr → ℕ → P2pRuntime × Handling
  handle_direct_payload r b source local now =
      handle_identified r b source now local (direct_payload_ticket_id b)
