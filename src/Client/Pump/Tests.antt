-- ===== src/Client/Pump/Tests.antt =====
-- A packet from alpha to beta over a relay that knows beta's endpoint.
use xray_mesh.Base.{ℕ, ◌≤◌, All, length, true, false, none, [], ◌∷◌, ℕ_discrete}
use xray_mesh.Base.Maps.{lookup, insert, delete}
use xray_mesh.Client.Pump.{Link, outbound}
use xray_mesh.Client.Pump.Outbound.{Carries, outbound-Carries}
use xray_mesh.Client.Runtime.{Host}
use xray_mesh.Mesh.Registry.{Peer, Registry, get_by_token, get_by_virtual_ip}
use xray_mesh.Netip.{Prefix, prefix, from4, addr_dec, contains}
use xray_mesh.P2p.Plain.{plain}
use xray_mesh.P2p.Probe.{Codec}
use xray_mesh.Packet.{ipv4_endpoints, ipv4_header_length}
use xray_mesh.Router.{classify}
use xray_mesh.Text.{Bytes, codes, str_dec}
use xray_mesh.Transport.Relay.{Platform, Relay, UdpAddr, bind, endpoint}
use xray_mesh.Transport.Whole.{whole_floats}

program : Unit {0}
unfolding ℕ_discrete delete lookup insert str_dec addr_dec get_by_token get_by_virtual_ip
    ipv4_header_length ipv4_endpoints bind endpoint contains classify
program = tt

abbrev no_text : Codec
no_text = record { encode = λ f. []; decode = λ b. none }

abbrev host : Host
host = record {
  crypto = plain;
  codec = no_text;
  parse_addr = λ s. none;
  addr_text = λ a. [];
  resolve = λ s. none;
  udp_text = λ a. [];
  is_addr_port = λ s. false;
  write_ok = λ a b. true;
}

abbrev pf : Platform
pf = record { floats = whole_floats; sha256 = λ b. b; write_ok = λ to b. true }

abbrev alpha : Peer
alpha = record {
  node_id = codes "alpha";
  virtual_ip = from4 (10, 0, 0, 1);
  session_token = codes "ab";
  last_seen = 1;
}

abbrev beta : Peer
beta = record {
  node_id = codes "beta";
  virtual_ip = from4 (10, 0, 0, 2);
  session_token = codes "cd";
  last_seen = 1;
}

abbrev net : Prefix
net = prefix (from4 (10, 0, 0, 0)) 24

abbrev peers : Registry
peers = record {
  allocator = record { prefix = net; next = 3; by_node = []; used = [] };
  prefix = net;
  peers = (codes "alpha", alpha) ∷ (codes "beta", beta) ∷ [];
  by_ip = (alpha.virtual_ip, codes "alpha") ∷ (beta.virtual_ip, codes "beta") ∷ [];
  by_token = (codes "ab", codes "alpha") ∷ (codes "cd", codes "beta") ∷ [];
}

abbrev socket_at : ℕ → UdpAddr
socket_at port = record { ip = from4 (192, 0, 2, 1); port = port }

abbrev relay : Relay pf
relay = record {
  endpoints = (codes "beta", record { addr = socket_at 2; observed_at = 7 }) ∷ [];
  discovery = [];
  options = record { rate = 20; burst = 40; window = 750_000_000 };
}

abbrev link_of : Peer → Link
link_of p = record {
  relay = socket_at 9;
  token = p.session_token;
  mesh_prefix = net;
  local = p.virtual_ip;
}

-- A bare header from 10.0.0.1 to 10.0.0.2.
abbrev header : Bytes
header = 0x45 ∷ 0 ∷ 0 ∷ 20 ∷ 0 ∷ 0 ∷ 0 ∷ 0 ∷ 64 ∷ 17 ∷ 0 ∷ 0 ∷ 10 ∷ 0 ∷ 0 ∷ 1 ∷ 10 ∷ 0 ∷ 0 ∷ 2 ∷ []

outbound-Carries_example :
    (length (outbound host (link_of alpha) none header 5 5 none).1 ≤ 1)
    × All
        (Carries host (link_of alpha) header none 5 none)
        (outbound host (link_of alpha) none header 5 5 none).1
outbound-Carries_example = outbound-Carries host (link_of alpha) header none 5 5 none
