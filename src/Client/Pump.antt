-- ===== src/Client/Pump.antt =====
-- cmd/client/main.go: pump, one packet of the device and one datagram of the socket at a time, and
-- sameUDPAddr of cmd/client/udp_socket.go. The runtime is there if probes are enabled. What a read
-- gives, whether a write to the device succeeds and the clock are arguments.
pub mod Outbound
pub mod RelayPath
mod Tests
use xray_mesh.Base.{
  ℕ, Bool, true, false, not, ◌&&◌, ◌||◌, Option, none, some, List, [], ◌∷◌, ◌==◌, is_yes,
  if◌then◌else◌, Result, ok, err,
}
use xray_mesh.Client.Direct.{
  Sending, SendResult, sent_direct, Handling, not_handled, dropped, delivered, send_direct_payload,
  handle_direct_payload,
}
use xray_mesh.Client.Runtime.{P2pRuntime, Host, Outcome}
use xray_mesh.Client.Runtime.Handler.{handle_probe_datagram}
use xray_mesh.Netip.{Addr, addr_dec, Prefix}
use xray_mesh.Packet.{PacketError, ipv4_endpoints}
use xray_mesh.Router.{Packet, Class, class_peer, class_discovery, classify}
use xray_mesh.Text.{Bytes}
use xray_mesh.Transport.Frame.{Frame, FrameError, is_deliver, marshal_packet, parse_frame}
use xray_mesh.Transport.Relay.{UdpAddr, Datagram}

-- What the loops hold: the relay's address, the session token, the mesh prefix and the node's own
-- address.
pub record Link : Type 0 where
  pub relay : UdpAddr
  pub token : Bytes
  pub mesh_prefix : Prefix
  pub local : Addr

-- The errors that end the loops.
pub data PumpError : Type 0 where
  bad_frame : FrameError → PumpError
  socket_failed device_failed : PumpError

-- An address has no zone here, and an IPv4 address one form.
abbrev pub same_some : UdpAddr → UdpAddr → Bool
same_some a b = a.port == b.port && is_yes (addr_dec a.ip b.ip)

unfoldable pub same_udp_addr : Option UdpAddr → Option UdpAddr → Bool
same_udp_addr none b = false
same_udp_addr (some a) none = false
same_udp_addr (some a) (some b) = same_some a b

abbrev pub is_peer : Class → Bool
is_peer class_peer = true
is_peer _ = false

abbrev pub is_discovery : Class → Bool
is_discovery class_discovery = true
is_discovery _ = false

module _ (host : Host) where
  -- What a packet of the device leaves: the runtime, what is sent, and the error that ends the loop.
  abbrev pub Pumped : Type 0
  Pumped = Option P2pRuntime × List Datagram × Result PumpError (Unit {0})

  abbrev pub write_relay : Link → Option P2pRuntime → Result FrameError Bytes → Pumped
  write_relay link rt (err e) = (rt, [], err (bad_frame e))
  write_relay link rt (ok frame) =
      if host.write_ok link.relay frame
      then (rt, record { to = link.relay; bytes = frame } ∷ [], ok tt)
      else (rt, [], err socket_failed)

  unfoldable pub to_relay : Link → Option P2pRuntime → Bytes → Pumped
  to_relay link rt packet = write_relay link rt (marshal_packet link.token packet)

  abbrev pub is_sent : SendResult → Bool
  is_sent sent_direct = true
  is_sent _ = false

  -- An error of the direct send is logged, and the packet takes the relay.
  abbrev pub after_direct : Link → Bytes → Sending host → Pumped
  after_direct link packet (r, datagrams, result) =
      if is_sent result then (some r, datagrams, ok tt) else to_relay link (some r) packet

  abbrev pub to_peer : Link → Option P2pRuntime → Bytes → Addr → ℕ → ℕ → Option Bytes → Pumped
  to_peer link none packet dst now select_at random = to_relay link none packet
  to_peer link (some r) packet dst now select_at random =
      after_direct link packet (send_direct_payload host r dst packet now select_at random)

  abbrev pub outbound_class :
      Link → Option P2pRuntime → Bytes → Addr → ℕ → ℕ → Option Bytes → Class → Pumped
  outbound_class link rt packet dst now select_at random class =
      if not (is_peer class) && not (is_discovery class)
      then (rt, [], ok tt)
      else if is_peer class
      then to_peer link rt packet dst now select_at random
      else to_relay link rt packet

  abbrev pub outbound_read :
      Link
      → Option P2pRuntime
      → Bytes
      → ℕ
      → ℕ
      → Option Bytes
      → Result PacketError (Addr × Addr)
      → Pumped
  outbound_read link rt packet now select_at random (err e) = (rt, [], ok tt)
  outbound_read link rt packet now select_at random (ok (src, dst)) =
      outbound_class link rt packet dst now select_at random
        (classify link.mesh_prefix (record { source = src; destination = dst; payload = packet }))

  unfoldable pub outbound : Link → Option P2pRuntime → Bytes → ℕ → ℕ → Option Bytes → Pumped
  unfolding to_relay
  outbound link rt packet now select_at random =
      outbound_read link rt packet now select_at random (ipv4_endpoints packet)

  -- What a datagram leaves: the runtime, what is sent, what is written to the device, and the error
  -- that ends the loop.
  abbrev pub Received : Type 0
  Received = Option P2pRuntime × List Datagram × List Bytes × Result PumpError (Unit {0})

  abbrev pub write_packet : Option P2pRuntime → Bytes → Bool → Received
  write_packet rt payload true = (rt, [], payload ∷ [], ok tt)
  write_packet rt payload false = (rt, [], [], err device_failed)

  -- An error of a probe datagram is logged.
  abbrev pub after_probe : P2pRuntime × Outcome → Received
  after_probe (r, (sent, result)) = (some r, sent, [], ok tt)

  abbrev pub after_handling :
      Bytes → UdpAddr → ℕ → (Bytes → Bool) → P2pRuntime × Handling → Received
  after_handling b source now device (r, dropped e) = (some r, [], [], ok tt)
  after_handling b source now device (r, delivered payload) =
      write_packet (some r) payload (device payload)
  after_handling b source now device (r, not_handled) =
      after_probe (handle_probe_datagram host r b source now)

  abbrev pub from_other :
      Link → Option P2pRuntime → Bytes → UdpAddr → ℕ → ℕ → (Bytes → Bool) → Received
  from_other link none b source payload_at probe_at device = (none, [], [], ok tt)
  from_other link (some r) b source payload_at probe_at device =
      after_handling b source probe_at device
        (handle_direct_payload host r b source link.local payload_at)

  abbrev pub from_relay : Option P2pRuntime → (Bytes → Bool) → Result FrameError Frame → Received
  from_relay rt device (err e) = (rt, [], [], ok tt)
  from_relay rt device (ok frame) =
      if not (is_deliver frame.type)
      then (rt, [], [], ok tt)
      else write_packet rt frame.payload (device frame.payload)

  unfoldable pub inbound :
      Link → Option P2pRuntime → Bytes → UdpAddr → ℕ → ℕ → (Bytes → Bool) → Received
  unfolding same_udp_addr
  inbound link rt b source payload_at probe_at device =
      if not (same_udp_addr (some source) (some link.relay))
      then from_other link rt b source payload_at probe_at device
      else from_relay rt device (parse_frame b)
