-- ===== src/Client/Steps/Tests.antt =====
-- Two nodes: a payload from one to the other, a probe and its acknowledgement.
use xray_mesh.Base.{
  ◌≡◌, ◌≢◌, ◌↔◌, ◌⊎◌, refl, ap, arith, true, some, [], ◌∷◌, ◌++◌, ℕ_discrete, if◌then◌else◌,
}
use xray_mesh.Base.Maps.{lookup, insert, delete, keep_if}
use xray_mesh.Client.Acks.{IsAck, handle_probe_datagram_changes, ack_accepted_once}
use xray_mesh.Client.Direct.{
  send_direct_payload, handle_direct_payload, candidate_for_virtual_ip, live_ticket_for_peer,
  delivered,
}
use xray_mesh.Client.Direct.Delivers.{IsAccepted, handle_direct_payload_iff}
use xray_mesh.Client.Direct.Sends.{SentAs, IsReady, handle-send_direct_payload}
use xray_mesh.Client.Replay.{accept_direct_replay_key, prune_replays}
use xray_mesh.Client.Runtime.{P2pRuntime, Candidate, Host, new_runtime}
use xray_mesh.Client.Runtime.Handler.{handle_probe_datagram, accept_ack, handle_probe_frame}
use xray_mesh.Client.Steps.{got_payload, run_events}
use xray_mesh.Client.Steps.Invariant.{run_events-IsValid}
use xray_mesh.Client.Steps.WellFormed.{IsValid}
use xray_mesh.Client.Steps.Once.{payload_delivered_once}
use xray_mesh.Netip.{Addr, addr_dec, from4}
use xray_mesh.P2p.Data.{
  direct_frame, direct_payload_aad, sealed_frame, seal_direct_payload, open_direct_payload,
  open_frame, read_frame, decrypted, direct_payload_ticket_id, direct_payload_replay_key,
}
use xray_mesh.P2p.Plain.{plain, zeros, digest, tag_on}
use xray_mesh.P2p.Probe.{
  ProbeFrame, Codec, probe_protocol, probe_type_probe, probe_type_ack, probe_wire_prefix,
  signed_text, sign_probe_frame, validate_probe_shape, validate_signed_probe_shape,
  parse_probe_frame, verify_probe_auth, verify_probe, verify_probe_ack,
}
use xray_mesh.P2p.Secret.{probe_ticket_secret, ticket_identifier}
use xray_mesh.P2p.Selector.{mark_direct_healthy, select}
use xray_mesh.P2p.Tickets.{ProbeTicket, str_eq}
use xray_mesh.Packet.{ipv4_header_length, ipv4_endpoints}
use xray_mesh.Telemetry.{P2pCounters, inc_direct_healthy, inc_direct_tx, inc_direct_rx}
use xray_mesh.Text.{Bytes, codes, str_dec, has_prefix}
use xray_mesh.Text.Hex.{encode_hex, decode_hex, hex_digit, hex_value}
use xray_mesh.Text.Trim.{trim_space}
use xray_mesh.Transport.Relay.{UdpAddr, Datagram}

program : Unit {0}
unfolding ℕ_discrete str_dec has_prefix lookup insert delete keep_if encode_hex decode_hex hex_digit
    hex_value trim_space zeros digest tag_on addr_dec direct_frame direct_payload_aad sealed_frame
    seal_direct_payload read_frame open_frame decrypted open_direct_payload direct_payload_ticket_id
    direct_payload_replay_key prune_replays accept_direct_replay_key mark_direct_healthy select
    ipv4_header_length ipv4_endpoints probe_ticket_secret ticket_identifier probe_protocol
    probe_type_probe probe_type_ack probe_wire_prefix signed_text sign_probe_frame
    validate_probe_shape validate_signed_probe_shape parse_probe_frame verify_probe_auth
    verify_probe verify_probe_ack inc_direct_healthy inc_direct_tx inc_direct_rx
    candidate_for_virtual_ip live_ticket_for_peer send_direct_payload handle_direct_payload
    accept_ack handle_probe_frame handle_probe_datagram
program = tt

abbrev zero_hex : Bytes
zero_hex = codes "0000000000000000000000000000000000000000000000000000000000000000"

abbrev ticket : ProbeTicket
ticket = record {
  ticket = zero_hex;
  source_node = codes "a";
  target_node = codes "b";
  issued_at = 1;
  expires_at = 100;
}

abbrev ip_a : Addr
ip_a = from4 (10, 0, 0, 1)

abbrev ip_b : Addr
ip_b = from4 (10, 0, 0, 2)

abbrev addr_a : UdpAddr
addr_a = record { ip = from4 (192, 0, 2, 1); port = 4000 }

abbrev addr_b : UdpAddr
addr_b = record { ip = from4 (192, 0, 2, 2); port = 4000 }

-- An acknowledgement of the node `b`; the codec knows no other frame.
abbrev probe : ProbeFrame
unfolding probe_protocol probe_type_probe
probe = record {
  protocol = probe_protocol;
  type = probe_type_probe;
  ticket_id = zero_hex;
  source_node = codes "a";
  target_node = codes "b";
  nonce = codes "0102030405060708090a0b0c0d0e0f10";
  mac = zero_hex;
}

abbrev ack : ProbeFrame
unfolding probe_type_ack
ack = record probe { type = probe_type_ack; source_node = codes "b"; target_node = codes "a" }

abbrev one_ack : Codec
one_ack = record { encode = λ f. []; decode = λ b. some (ack, true) }

-- The texts of the two nodes' addresses.
abbrev host : Host
host = record {
  crypto = plain;
  codec = one_ack;
  parse_addr = λ s. if str_eq s (codes "10.0.0.1") then some ip_a else some ip_b;
  addr_text = λ a. codes "10.0.0.2";
  resolve = λ s. some addr_b;
  udp_text = λ a. codes "192.0.2.1:4000";
  is_addr_port = λ s. true;
  write_ok = λ a b. true;
}

abbrev counters : P2pCounters
counters = record {
  direct_healthy_marks = 0;
  direct_tx = 0;
  direct_rx = 0;
  direct_fallbacks = 0;
  replay_drops = 0;
}

abbrev candidate : Bytes → Bytes → Bytes → Candidate
candidate node_id virtual_ip endpoint = record {
  node_id = node_id;
  virtual_ip = virtual_ip;
  endpoint = endpoint;
  observed_at = 1;
}

abbrev node_a : P2pRuntime
node_a = record {
  node_id = codes "a";
  selector = record {
    direct_ttl = 30;
    direct = (codes "b", record { endpoint = codes "192.0.2.2:4000"; healthy_until = 90 }) ∷ [];
  };
  tickets = (zero_hex, ticket) ∷ [];
  candidates = (codes "b", candidate (codes "b") (codes "10.0.0.2") (codes "192.0.2.2:4000")) ∷ [];
  pending =
      (probe.nonce, record { probe = probe; ticket = ticket; target = codes "b"; sent_at = 40 })
      ∷ [];
  last_issued = [];
  replays = [];
  counters = counters;
}

abbrev node_b : P2pRuntime
node_b = record {
  node_id = codes "b";
  selector = record { direct_ttl = 30; direct = [] };
  tickets = (zero_hex, ticket) ∷ [];
  candidates = (codes "a", candidate (codes "a") (codes "10.0.0.1") (codes "192.0.2.1:4000")) ∷ [];
  pending = [];
  last_issued = [];
  replays = [];
  counters = counters;
}

abbrev packet : Bytes
packet = 0x45 ∷ 0 ∷ 0 ∷ 20 ∷ 0 ∷ 0 ∷ 0 ∷ 0 ∷ 64 ∷ 17 ∷ 0 ∷ 0 ∷ 10 ∷ 0 ∷ 0 ∷ 1 ∷ 10 ∷ 0 ∷ 0 ∷ 2 ∷ []

abbrev nonce : Bytes
nonce = 1 ∷ 2 ∷ 3 ∷ 4 ∷ 5 ∷ 6 ∷ 7 ∷ 8 ∷ 9 ∷ 10 ∷ 11 ∷ 12 ∷ []

abbrev wire : Bytes
unfolding program
wire = direct_frame (zeros 32) nonce (codes "a") (codes "b") (zeros 16 ++ packet)

abbrev sent_datagram : Datagram
sent_datagram = record { to = addr_b; bytes = wire }

node_a_sends :
    SentAs host sent_datagram (send_direct_payload host node_a ip_b packet 50 50 (some nonce))
unfolding program
node_a_sends = (refl, refl)

node_b_delivers : (handle_direct_payload host node_b wire addr_a ip_b 51).1 ≡ delivered packet
unfolding program
node_b_delivers = refl

handle_direct_payload_iff_example :
    ((handle_direct_payload host node_b wire addr_a ip_b 51).1 ≡ delivered packet)
    ↔ IsAccepted host node_b wire addr_a ip_b 51 packet
handle_direct_payload_iff_example = handle_direct_payload_iff host node_b wire addr_a ip_b 51 packet

b_IsAccepted : IsAccepted host node_b wire addr_a ip_b 51 packet
unfolding program
b_IsAccepted = record {
  id = zero_hex;
  t = ticket;
  o = record { source_node = codes "a"; target_node = codes "b"; payload = packet };
  c = candidate (codes "a") (codes "10.0.0.1") (codes "192.0.2.1:4000");
  ip = ip_a;
  key = encode_hex (zeros 32 ++ nonce);
  named = refl;
  held = refl;
  opens = refl;
  text = refl;
  known = refl;
  parsed = refl;
  ips = refl;
  keyed = refl;
  fresh = refl;
  marks = refl;
}

-- The same datagram again, after another one of no known ticket.
payload_delivered_once_example :
    (handle_direct_payload host
      (run_events host
        (handle_direct_payload host node_b wire addr_a ip_b 51).0
        (got_payload [] addr_b ip_b 60 ∷ []))
      wire
      addr_b
      ip_b
      99).1
    ≢ delivered packet
unfolding b_IsAccepted
payload_delivered_once_example =
    payload_delivered_once host node_b wire addr_a addr_b ip_b ip_b 51 99 packet packet
      (got_payload [] addr_b ip_b 60 ∷ []) tt b_IsAccepted (omega arith, tt) (omega arith)

b_IsReady : IsReady host sent_datagram node_b (codes "a") packet ticket addr_a ip_b 51
unfolding program
b_IsReady = record {
  id = zero_hex;
  c = candidate (codes "a") (codes "10.0.0.1") (codes "192.0.2.1:4000");
  ip = ip_a;
  identified = refl;
  held = refl;
  live = refl;
  known = refl;
  parsed = refl;
  ips = refl;
  once = tt;
  fresh = λ key e. refl;
  marks = refl;
}

handle-send_direct_payload_example :
    (handle_direct_payload host node_b wire addr_a ip_b 51).1 ≡ delivered packet
unfolding program
handle-send_direct_payload_example =
    handle-send_direct_payload host sent_datagram node_a node_b ip_b packet nonce 50 50 51 addr_a
      (candidate (codes "b") (codes "10.0.0.2") (codes "192.0.2.2:4000")) ticket refl refl refl refl
      b_IsReady node_a_sends

run_events-IsValid_example :
    IsValid host
      (codes "a")
      (run_events host (new_runtime (codes "a") counters) (got_payload wire addr_a ip_b 51 ∷ []))
run_events-IsValid_example =
    run_events-IsValid host (codes "a") counters (got_payload wire addr_a ip_b 51 ∷ [])

handle_probe_datagram_changes_example :
    ((handle_probe_datagram host node_a probe_wire_prefix addr_b 60).0 ≡ node_a)
    ⊎ IsAck host node_a probe_wire_prefix addr_b 60
        (handle_probe_datagram host node_a probe_wire_prefix addr_b 60).0
handle_probe_datagram_changes_example =
    handle_probe_datagram_changes host node_a probe_wire_prefix addr_b 60

ack_changes_a : (handle_probe_datagram host node_a probe_wire_prefix addr_b 60).0 ≢ node_a
unfolding program
ack_changes_a e = let f = ap (λ r. r.pending) e in cc

ack_accepted_once_example :
    (handle_probe_datagram host
      (handle_probe_datagram host node_a probe_wire_prefix addr_b 60).0
      probe_wire_prefix
      addr_a
      61).0
    ≡ (handle_probe_datagram host node_a probe_wire_prefix addr_b 60).0
ack_accepted_once_example =
    ack_accepted_once host node_a probe_wire_prefix addr_b addr_a 60 61 ack_changes_a
