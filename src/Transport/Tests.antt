-- ===== src/Transport/Tests.antt =====
-- Frames and datagrams of a relay with two peers, and the theorems at them.
use xray_mesh.Base.{
  ◌<◌, ◌≡◌, ◌⊎◌, refl, inl, arith, ℕ, pos, List, ltb, false, true, [], ◌∷◌, some, ok, All,
  ℕ_discrete,
}
use xray_mesh.Base.Maps.{lookup, insert, delete, keep_if}
use xray_mesh.Base.Sort.{sort_by}
use xray_mesh.Mesh.Registry.{Peer, Registry, list, get_by_token, get_by_virtual_ip}
use xray_mesh.Netip.{Addr, Prefix, prefix, from4, addr_dec}
use xray_mesh.Packet.{ipv4_endpoints, ipv4_udp_ports, ipv4_header_length}
use xray_mesh.Text.{Bytes, codes, str_dec, str_lt}
use xray_mesh.Transport.Whole.{whole_floats}
use xray_mesh.Transport.Frame.{
  Frame, frame_hello, frame_packet, marshal, marshal_deliver, parse_frame, parse_body,
}
use xray_mesh.Transport.Frame.Roundtrip.{IsFrame, parse_frame-marshal, marshal-parse_frame}
use xray_mesh.Transport.Relay.{
  Platform, Relay, RelayOptions, UdpAddr, guard_discovery, guard_state, forget_seen, refill,
  take_token, broadcast, broadcast_to, forget_peer, bind, listen_relay, deliver, endpoint, route,
  handle_bound, handle_frame, handle_datagram, is_discovery_packet, normalize_relay_options,
}
use xray_mesh.Transport.Relay.Bucket.{RelayEvent, datagram, forget, run_relay, bucket_bounded}
use xray_mesh.Transport.Relay.Authority.{Delivered, handle_datagram_authority}

program : Unit {0}
unfolding ℕ_discrete delete ipv4_udp_ports marshal marshal_deliver parse_body parse_frame lookup
    insert sort_by str_dec addr_dec str_lt get_by_token get_by_virtual_ip ipv4_header_length
    ipv4_endpoints bind listen_relay normalize_relay_options endpoint deliver is_discovery_packet
    route handle_bound handle_frame handle_datagram guard_discovery guard_state forget_seen refill
    take_token broadcast broadcast_to forget_peer run_relay list keep_if
program = tt

abbrev hello : Frame
hello = record { type = frame_hello; token = codes "ab"; payload = [] }

abbrev hello_bytes : Bytes
hello_bytes = 1 ∷ 1 ∷ 0 ∷ 2 ∷ 97 ∷ 98 ∷ []

hello_written : marshal hello.type hello.token hello.payload ≡ ok hello_bytes
unfolding program
hello_written = refl

hello_read : parse_frame hello_bytes ≡ ok hello
unfolding program
hello_read = refl

hello-IsFrame : IsFrame hello
hello-IsFrame = (omega arith, inl (λ e. cc))

parse_frame-marshal_example : parse_frame hello_bytes ≡ ok hello
parse_frame-marshal_example = parse_frame-marshal hello hello_bytes hello-IsFrame hello_written

hello_small : All (λ x. x < 256) hello_bytes
hello_small =
    (omega arith, (omega arith, (omega arith, (omega arith, (omega arith, (omega arith, tt))))))

marshal-parse_frame_example :
    IsFrame hello × (marshal hello.type hello.token hello.payload ≡ ok hello_bytes)
marshal-parse_frame_example = marshal-parse_frame hello_bytes hello hello_small hello_read

abbrev pf : Platform
pf = record { floats = whole_floats; sha256 = λ b. b; write_ok = λ to b. true }

-- Two peers, of which beta is bound.
abbrev alpha : Peer
alpha = record {
  node_id = codes "alpha";
  virtual_ip = from4 (10, 0, 0, 1);
  session_token = codes "ab";
  last_seen = 1;
}

abbrev beta : Peer
beta = record {
  node_id = codes "beta";
  virtual_ip = from4 (10, 0, 0, 2);
  session_token = codes "cd";
  last_seen = 1;
}

abbrev net : Prefix
net = prefix (from4 (10, 0, 0, 0)) 24

abbrev peers : Registry
peers = record {
  allocator = record { prefix = net; next = 3; by_node = []; used = [] };
  prefix = net;
  peers = (codes "alpha", alpha) ∷ (codes "beta", beta) ∷ [];
  by_ip = (alpha.virtual_ip, codes "alpha") ∷ (beta.virtual_ip, codes "beta") ∷ [];
  by_token = (codes "ab", codes "alpha") ∷ (codes "cd", codes "beta") ∷ [];
}

abbrev socket : UdpAddr
socket = record { ip = from4 (192, 0, 2, 1); port = 4000 }

abbrev relay : Relay pf
relay = record {
  endpoints = (codes "beta", record { addr = socket; observed_at = 7 }) ∷ [];
  discovery = [];
  options = record { rate = 20; burst = 40; window = 750_000_000 };
}

-- A bare header from 10.0.0.1 to 10.0.0.2.
abbrev header : Bytes
header = 0x45 ∷ 0 ∷ 0 ∷ 20 ∷ 0 ∷ 0 ∷ 0 ∷ 0 ∷ 64 ∷ 17 ∷ 0 ∷ 0 ∷ 10 ∷ 0 ∷ 0 ∷ 1 ∷ 10 ∷ 0 ∷ 0 ∷ 2 ∷ []

abbrev sent_bytes : Bytes
sent_bytes = 1 ∷ 2 ∷ 0 ∷ 2 ∷ 97 ∷ 98 ∷ header

-- The packet is forwarded to beta.
forwarded :
    (handle_datagram pf relay peers sent_bytes socket 8 9).1
    ≡ (record { to = socket; bytes = 1 ∷ 3 ∷ 0 ∷ 0 ∷ header } ∷ [], ok tt)
unfolding program
forwarded = refl

handle_datagram_authority_example :
    let x = handle_datagram pf relay peers sent_bytes socket 8 9 in
    (x.1.0 ≡ [])
    ⊎ ((frame : Frame) × (parse_frame sent_bytes ≡ ok frame)
        × (frame.type ≡ frame_packet)
        × (peer : Peer) × (get_by_token peers frame.token ≡ some peer)
        × (destination : Addr) × (ipv4_endpoints frame.payload ≡ ok (peer.virtual_ip, destination))
        × All (Delivered pf x.0 peers peer frame.payload destination) x.1.0)
handle_datagram_authority_example = handle_datagram_authority pf relay peers sent_bytes socket 8 9

-- Two discovery packets of alpha: from 10.0.0.1:1000 to 224.0.0.251:5353.
abbrev query : ℕ → Bytes
query x =
    0x45 ∷ 0 ∷ 0 ∷ 28 ∷ x ∷ 0 ∷ 0 ∷ 0 ∷ 64 ∷ 17 ∷ 0 ∷ 0 ∷ 10 ∷ 0 ∷ 0 ∷ 1 ∷ 224 ∷ 0 ∷ 0 ∷ 251 ∷ 3
    ∷ 232 ∷ 20 ∷ 233 ∷ 0 ∷ 8 ∷ 0 ∷ 0 ∷ []

abbrev query_at : ℕ → ℕ → RelayEvent pf
query_at x t = datagram peers (1 ∷ 2 ∷ 0 ∷ 2 ∷ 97 ∷ 98 ∷ query x) socket t t

abbrev options : RelayOptions pf
options = record { discovery_rate = 20; discovery_burst = pos 2; discovery_dedup_window = pos 0 }

abbrev events : List (RelayEvent pf)
events = query_at 0 0 ∷ forget (codes "beta") ∷ query_at 1 1 ∷ query_at 2 5_000_000_000 ∷ []

-- The first two take the two tokens; the bucket is full again before the third takes one.
one_left :
    lookup str_dec (codes "alpha") (run_relay pf (listen_relay pf options) events).discovery
    ≡ some (record { tokens = 1; last_refill = 5_000_000_000; seen = [] })
unfolding program
one_left = refl

bucket_bounded_example : ltb (normalize_relay_options pf options).burst 1 ≡ false
bucket_bounded_example = bucket_bounded pf options events (codes "alpha") _ one_left
