-- ===== src/Transport/Relay.antt =====
-- internal/transport/relay.go. The registry is that of internal/mesh. The clock, the digest
-- (SHA-256) and the outcome of a write to the socket are arguments; what is written is a list of
-- datagrams. Each mutex makes the reads and writes that it guards one step.
pub mod Authority
pub mod Bucket
use xray_mesh.Base.{
  ℕ, zero, suc, ◌+◌, ◌-◌, ℤ, pos, negsuc, Bool, true, false, not, ◌&&◌, ◌||◌, Option, none, some,
  List, [], ◌∷◌, ◌++◌, ltb, leb, ◌==◌, if◌then◌else◌, is_yes, length, Result, ok, err,
}
use xray_mesh.Base.Maps.{Map, lookup, insert, delete, keep_if}
use xray_mesh.Base.Sort.{sort_by}
use xray_mesh.Mesh.Registry.{Peer, Registry, get_by_token, get_by_virtual_ip, list}
use xray_mesh.Netip.{Addr, from4, addr_dec}
use xray_mesh.Packet.{PacketError, ipv4_endpoints, ipv4_udp_ports}
use xray_mesh.Text.{Bytes, str_dec, str_lt}
use xray_mesh.Transport.Floats.{Floats}
use xray_mesh.Transport.Frame.{
  Frame, FrameType, FrameError, frame_hello, frame_packet, frame_deliver, is_deliver, parse_frame,
  marshal_deliver,
}

pub data RelayError : Type 0 where
  unauthorized discovery_rate_limited payload_too_long source_mismatch no_such_peer no_endpoint
        write_failed :
      RelayError
  bad_frame : FrameError → RelayError
  bad_packet : PacketError → RelayError

pub record UdpAddr : Type 0 where
  pub ip : Addr
  pub port : ℕ

pub record RelayEndpoint : Type 0 where
  pub addr : UdpAddr
  pub observed_at : ℕ

pub record ObservedCandidate : Type 0 where
  pub node_id : Bytes
  pub endpoint : UdpAddr
  pub observed_at : ℕ

pub record Datagram : Type 0 where
  pub to : UdpAddr
  pub bytes : Bytes

abbrev pub mdns_multicast : Addr
mdns_multicast = from4 (224, 0, 0, 251)

abbrev pub ssdp_multicast : Addr
ssdp_multicast = from4 (239, 255, 255, 250)

abbrev pub is_hello : FrameType → Bool
is_hello frame_hello = true
is_hello _ = false

abbrev pub port_if : Bool → ℕ → Result PacketError (ℕ × ℕ) → Bool
port_if group port (err _) = false
port_if group port (ok (_, dst)) = group && dst == port

unfoldable pub is_discovery_packet : Bytes → Addr → Bool
is_discovery_packet payload destination =
    port_if (is_yes (addr_dec destination mdns_multicast)) 5353 (ipv4_udp_ports payload)
    || port_if (is_yes (addr_dec destination ssdp_multicast)) 1900 (ipv4_udp_ports payload)

-- What the relay takes from outside: the arithmetic of the bucket, the digest of a payload, and
-- whether a write to the socket succeeds.
pub record Platform : Type 1 where
  pub floats : Floats
  pub sha256 : Bytes → Bytes
  pub write_ok : UdpAddr → Bytes → Bool

module _ (platform : Platform) where
  open platform use {
    sha256,
    write_ok,
    floats.{Float, of_int, seconds, add, mul, sub, less, at_most},
  }

  -- The options as they are given, and as the relay holds them.
  pub record RelayOptions : Type 0 where
    pub discovery_rate : Float
    pub discovery_burst : ℤ
    pub discovery_dedup_window : ℤ

  pub record Limits : Type 0 where
    pub rate : Float
    pub burst : ℕ
    pub window : ℕ

  abbrev pub burst_of : ℤ → ℕ
  burst_of (pos (suc n)) = suc n
  burst_of (pos zero) = 40
  burst_of (negsuc n) = 40

  abbrev pub window_of : ℤ → ℕ
  window_of (pos n) = n
  window_of (negsuc n) = 750_000_000

  unfoldable pub normalize_relay_options : RelayOptions → Limits
  normalize_relay_options o = record {
    rate = if at_most o.discovery_rate (of_int 0) then of_int 20 else o.discovery_rate;
    burst = burst_of o.discovery_burst;
    window = window_of o.discovery_dedup_window;
  }

  pub record DiscoveryPeerState : Type 0 where
    pub tokens : Float
    pub last_refill : ℕ
    pub seen : Map Bytes ℕ

  pub record Relay : Type 0 where
    pub endpoints : Map Bytes RelayEndpoint
    pub discovery : Map Bytes DiscoveryPeerState
    pub options : Limits

  unfoldable pub listen_relay : RelayOptions → Relay
  listen_relay o = record { endpoints = []; discovery = []; options = normalize_relay_options o }

  unfoldable pub forget_peer : Relay → Bytes → Relay
  forget_peer r node_id = record r {
    endpoints = delete str_dec node_id r.endpoints;
    discovery = delete str_dec node_id r.discovery;
  }

  abbrev pub candidate_list : Map Bytes RelayEndpoint → List ObservedCandidate
  candidate_list [] = []
  candidate_list ((node_id, e) ∷ m) =
      record { node_id = node_id; endpoint = e.addr; observed_at = e.observed_at }
      ∷ candidate_list m

  unfoldable pub candidates : Relay → List ObservedCandidate
  candidates r = sort_by (λ c d. str_lt c.node_id d.node_id) (candidate_list r.endpoints)

  unfoldable pub bind : Relay → Bytes → UdpAddr → ℕ → Relay
  bind r node_id addr now = record r {
    endpoints = insert str_dec node_id (record { addr = addr; observed_at = now }) r.endpoints;
  }

  unfoldable pub endpoint : Relay → Bytes → Option UdpAddr
  endpoint r node_id = elim (lookup str_dec node_id r.endpoints) [
    | none ↦ none
    | some e ↦ some e.addr
  ]

  -- The state of a peer, a new one with a full bucket if it has none.
  abbrev pub state_or_new : Relay → ℕ → Option DiscoveryPeerState → DiscoveryPeerState
  state_or_new r now (some s) = s
  state_or_new r now none = record { tokens = of_int r.options.burst; last_refill = now; seen = [] }

  -- Entries as old as the window are dropped; a window of 0 turns the suppression off.
  unfoldable pub forget_seen : Limits → ℕ → DiscoveryPeerState → DiscoveryPeerState
  forget_seen o now s =
      if ltb 0 o.window
      then record s { seen = keep_if (λ _ seen_at. ltb (now - seen_at) o.window) s.seen }
      else s

  abbrev pub recently_seen : Limits → ℕ → Option ℕ → Bool
  recently_seen o now none = false
  recently_seen o now (some seen_at) = ltb 0 o.window && ltb (now - seen_at) o.window

  -- The bucket is refilled at the rate, up to the burst.
  unfoldable pub refill : Limits → ℕ → DiscoveryPeerState → DiscoveryPeerState
  refill o now s =
      let filled = add s.tokens (mul (seconds (now - s.last_refill)) o.rate) in
      let full = of_int o.burst in
      if ltb s.last_refill now
      then record s { tokens = if less full filled then full else filled; last_refill = now }
      else s

  -- One token is taken, and the packet is remembered.
  unfoldable pub take_token :
      Limits → ℕ → Bytes → DiscoveryPeerState → DiscoveryPeerState × Result RelayError Bool
  take_token o now fingerprint s =
      if less s.tokens (of_int 1) then (s, err discovery_rate_limited) else (
        record s {
          tokens = sub s.tokens (of_int 1);
          seen = if ltb 0 o.window then insert str_dec fingerprint now s.seen else s.seen;
        },
        ok false,
      )

  unfoldable pub guard_state :
      Limits → ℕ → Bytes → DiscoveryPeerState → DiscoveryPeerState × Result RelayError Bool
  unfolding forget_seen refill take_token
  guard_state o now fingerprint s =
      let s' = forget_seen o now s in
      if recently_seen o now (lookup str_dec fingerprint s'.seen)
      then (s', ok true)
      else take_token o now fingerprint (refill o now s')

  unfoldable pub guard_discovery : Relay → Bytes → Bytes → ℕ → Relay × Result RelayError Bool
  unfolding guard_state
  guard_discovery r node_id payload now =
      let s = state_or_new r now (lookup str_dec node_id r.discovery) in
      let (s', result) = guard_state r.options now (sha256 payload) s in
      (record r { discovery = insert str_dec node_id s' r.discovery }, result)

  -- What is sent, and the error.
  abbrev pub Sent : Type 0
  Sent = List Datagram × Result RelayError (Unit {0})

  abbrev pub write_to : UdpAddr → Result FrameError Bytes → Sent
  write_to to (err e) = ([], err (bad_frame e))
  write_to to (ok frame) =
      if write_ok to frame
      then (record { to = to; bytes = frame } ∷ [], ok tt)
      else ([], err write_failed)

  unfoldable pub deliver : Relay → Bytes → Bytes → Sent
  unfolding endpoint
  deliver r node_id payload = elim (endpoint r node_id) [
    | none ↦ ([], err no_endpoint)
    | some to ↦ write_to to (marshal_deliver payload)
  ]

  -- What is sent in a row: the second part only if the first had no error.
  abbrev pub then_send : Sent → Sent → Sent
  then_send (sent, err e) rest = (sent, err e)
  then_send (sent, ok _) (more, result) = (sent ++ more, result)

  abbrev pub has_endpoint : Option UdpAddr → Bool
  has_endpoint none = false
  has_endpoint (some _) = true

  -- The loop of broadcast: the source and the peers without an endpoint are passed over.
  unfoldable pub broadcast_to : Relay → Bytes → Bytes → List Peer → Sent
  unfolding deliver
  broadcast_to r source_node payload [] = ([], ok tt)
  broadcast_to r source_node payload (p ∷ ps) =
      let rest = broadcast_to r source_node payload ps in
      if is_yes (str_dec p.node_id source_node) || not (has_endpoint (endpoint r p.node_id))
      then rest
      else then_send (deliver r p.node_id payload) rest

  unfoldable pub broadcast : Relay → Registry → Bytes → Bytes → Sent
  unfolding broadcast_to
  broadcast r registry source_node payload = broadcast_to r source_node payload (list registry)

  abbrev pub guarded : Registry → Bytes → Bytes → Relay × Result RelayError Bool → Relay × Sent
  guarded registry node_id payload (r, err e) = (r, ([], err e))
  guarded registry node_id payload (r, ok true) = (r, ([], ok tt))
  guarded registry node_id payload (r, ok false) = (r, broadcast r registry node_id payload)

  -- A packet from `peer` to `destination`.
  unfoldable pub route : Relay → Registry → Peer → Bytes → Addr → ℕ → Relay × Sent
  unfolding guard_discovery broadcast deliver
  route r registry peer payload destination now =
      if is_discovery_packet payload destination
      then guarded registry peer.node_id payload (guard_discovery r peer.node_id payload now)
      else (elim (get_by_virtual_ip registry destination) [
        | none ↦ (r, ([], err no_such_peer))
        | some q ↦ (r, deliver r q.node_id payload)
      ])

  abbrev pub from_peer :
      Relay → Registry → Peer → Bytes → ℕ → Result PacketError (Addr × Addr) → Relay × Sent
  from_peer r registry peer payload now (err e) = (r, ([], err (bad_packet e)))
  from_peer r registry peer payload now (ok (source, destination)) =
      if not (is_yes (addr_dec source peer.virtual_ip))
      then (r, ([], err source_mismatch))
      else route r registry peer payload destination now

  -- What follows the binding of the sender's endpoint.
  unfoldable pub handle_bound : Relay → Registry → Peer → Frame → ℕ → Relay × Sent
  unfolding route
  handle_bound r registry peer frame now =
      if is_hello frame.type
      then (r, ([], ok tt))
      else if ltb 65535 (length frame.payload)
      then (r, ([], err payload_too_long))
      else from_peer r registry peer frame.payload now (ipv4_endpoints frame.payload)

  -- A parsed frame; the clock is read once for the endpoint and once for the discovery guard.
  unfoldable pub handle_frame : Relay → Registry → Frame → UdpAddr → ℕ → ℕ → Relay × Sent
  unfolding handle_bound bind
  handle_frame r registry frame src bound_at now =
      if is_deliver frame.type
      then (r, ([], err unauthorized))
      else (elim (get_by_token registry frame.token) [
        | none ↦ (r, ([], err unauthorized))
        | some peer ↦ handle_bound (bind r peer.node_id src bound_at) registry peer frame now
      ])

  unfoldable pub handle_datagram : Relay → Registry → Bytes → UdpAddr → ℕ → ℕ → Relay × Sent
  unfolding handle_frame
  handle_datagram r registry b src bound_at now = elim (parse_frame b) [
    | err e ↦ (r, ([], err (bad_frame e)))
    | ok frame ↦ handle_frame r registry frame src bound_at now
  ]
