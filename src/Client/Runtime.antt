-- ===== src/Client/Runtime.antt =====
-- cmd/client/p2p_runtime.go: the probes of a client. The clock, the random bytes and the answers of
-- the coordinator are arguments of a call; what is sent is a list of datagrams. The mutex makes the
-- reads and writes that it guards one step, and a whole call is one step here. The replay cache and
-- the counters, which are globals of the program, stand in the state; the server's address, the
-- socket and the HTTP client do not.
pub mod Handler
pub mod Polls
use xray_mesh.Base.{
  ℕ, suc, ◌+◌, ◌-◌, Bool, true, false, not, ◌&&◌, ◌||◌, Option, none, some, List, [], ◌∷◌, ◌++◌,
  ltb, ◌==◌, if◌then◌else◌, Result, ok, err, ◌>>=◌, ◌>>◌, pos,
}
use xray_mesh.Base.Maps.{Map, lookup, insert, delete, keep_if}
use xray_mesh.Client.Replay.{ReplayCache}
use xray_mesh.Netip.{Addr}
use xray_mesh.P2p.Probe.{
  ProbeFrame, Codec, probe_type_probe, probe_type_ack, parse_probe_frame, marshal_probe_frame,
  new_probe, verify_probe, new_probe_ack, verify_probe_ack,
}
use xray_mesh.P2p.Secret.{
  Crypto, P2pError, not_probe_datagram, invalid_probe_frame, probe_auth_failed, ticket_identifier,
  is_expired,
}
use xray_mesh.P2p.Selector.{
  Selector, Selection, SelectorError, new_selector, mark_direct_healthy, select,
}
use xray_mesh.P2p.Tickets.{ProbeTicket, str_eq}
use xray_mesh.Telemetry.{P2pCounters}
use xray_mesh.Text.{Bytes, str_dec, str_lt}
use xray_mesh.Text.Trim.{trim_space}
use xray_mesh.Transport.Relay.{UdpAddr, Datagram}

-- p2p.Candidate as it is decoded; its kind is not read.
pub record Candidate : Type 0 where
  pub node_id : Bytes
  pub virtual_ip : Bytes
  pub endpoint : Bytes
  pub observed_at : ℕ

pub record PendingProbe : Type 0 where
  pub probe : ProbeFrame
  pub ticket : ProbeTicket
  pub target : Bytes
  pub sent_at : ℕ

pub record P2pRuntime : Type 0 where
  pub node_id : Bytes
  pub selector : Selector
  pub tickets : Map Bytes ProbeTicket
  pub candidates : Map Bytes Candidate
  pub pending : Map Bytes PendingProbe
  pub last_issued : Map Bytes ℕ
  pub replays : ReplayCache
  pub counters : P2pCounters

-- What the runtime takes from outside: the digests and the cipher, JSON, the texts of addresses
-- (netip.ParseAddr and its inverse, net.ResolveUDPAddr, UDPAddr.String, netip.ParseAddrPort), and
-- whether a write to the socket succeeds.
pub record Host : Type 0 where
  pub crypto : Crypto
  pub codec : Codec
  pub parse_addr : Bytes → Option Addr
  pub addr_text : Addr → Bytes
  pub resolve : Bytes → Option UdpAddr
  pub udp_text : UdpAddr → Bytes
  pub is_addr_port : Bytes → Bool
  pub write_ok : UdpAddr → Bytes → Bool

pub data RuntimeError : Type 0 where
  unknown_ticket no_pending send_failed bad_endpoint issue_failed : RuntimeError
  protocol_error : P2pError → RuntimeError
  mark_error : SelectorError → RuntimeError

-- In nanoseconds: 30, 10 and 10 seconds.
abbrev pub p2p_candidate_max_age : ℕ
p2p_candidate_max_age = 30_000_000_000

abbrev pub p2p_pending_ttl : ℕ
p2p_pending_ttl = 10_000_000_000

abbrev pub p2p_ticket_issue_retry : ℕ
p2p_ticket_issue_retry = 10_000_000_000

unfoldable pub new_runtime : Bytes → P2pCounters → P2pRuntime
unfolding new_selector
new_runtime node_id counters = record {
  node_id = node_id;
  selector = new_selector (pos 30_000_000_000);
  tickets = [];
  candidates = [];
  pending = [];
  last_issued = [];
  replays = [];
  counters = counters;
}

abbrev pub is_none {ℓ} : {A : Type ℓ} → Option A → Bool
is_none none = true
is_none (some _) = false

unfoldable pub selection : P2pRuntime → Bytes → ℕ → P2pRuntime × Selection
selection r node_id now =
    let (s, choice) = select r.selector node_id now in (record r { selector = s }, choice)

-- What is sent, and the error.
abbrev pub Outcome : Type 0
Outcome = List Datagram × Result RuntimeError (Unit {0})

abbrev pub failed : RuntimeError → Outcome
failed e = ([], err e)
