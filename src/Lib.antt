-- ===== src/Lib.antt =====
-- xray-mesh: a mesh network. A coordinator leases virtual addresses and relays packets between its
-- peers; the clients send packets over the relay or, after a probe, directly.
--
-- The parts, and the files that model them:
--   Mesh/Allocator  internal/mesh/allocator.go: NewAllocator, Allocate, Release, addIPv4.
--   Mesh/Registry   internal/mesh/registry.go and peer.go: the peers by name, address and token.
--                   register_at is registerAt with newSessionToken, expire_before ExpireBefore.
--   Transport/Frame internal/transport/frame.go: marshal and ParseFrame.
--   Transport/Relay internal/transport/relay.go: handleDatagram as handle_datagram, handle_frame,
--                   handle_bound, from_peer and route, one for each stretch of the method;
--                   guardDiscovery as guard_discovery, guard_state and its three stages.
--   Packet          internal/packet/ipv4.go.
--   Router          internal/router/classifier.go and router.go.
--   Xray/Routes     internal/xray/tun_profile.go: IPv4RoutesExcluding and subtractPrefix.
--   Xray/Profile    the rest of that file: BuildFullTunnelConfig and normalizeTunnelOptions.
--   Xray/Process    internal/xray/process.go: a method each, the goroutine of Start as store_exit and
--                   close_done, and the steps of a process as a relation (Xray/Process/Reachable).
--   P2p/Tickets     internal/p2p/tickets.go.
--   P2p/Selector    internal/p2p/selector.go.
--   P2p/Secret      internal/p2p/probe.go: the secret, identifier and expiry of a ticket.
--   P2p/Probe       the rest of that file: the probes and their acknowledgements.
--   P2p/Data        internal/p2p/data.go and data_meta.go: SealDirectPayload as seal_direct_payload
--                   and sealed_frame, OpenDirectPayload as open_direct_payload, read_frame,
--                   open_frame and decrypted.
--   Server          cmd/server/main.go: a handler each, and a tick of runLeaseSweeper as sweep.
--   Telemetry       internal/telemetry/p2p.go.
--   Health          internal/health/status.go.
--   Client/Replay   cmd/client/direct_replay.go.
--   Client/Heartbeat cmd/client/heartbeat.go.
--   Client/Runtime  cmd/client/p2p_runtime.go: HandleDatagram as handle_probe_datagram (Handler), and
--                   runPollCycle with what it calls (Polls).
--   Client/Direct   cmd/client/direct_runtime.go.
--   Client/Acks     what a probe datagram changes in a runtime.
--   Client/Steps    the calls of one runtime in a sequence.
--   Client/Pump     cmd/client/main.go: a turn of each loop of pump as outbound and inbound; and
--                   sameUDPAddr of cmd/client/udp_socket.go.
--   Client/Protected cmd/client/main.go: resolveProtectedPrefixes and resolveHostIPv4.
--   Client/Program  cmd/client/main.go: the checks of run and runTUN, and the select loop of run.
-- Netip models what these use of net/netip, Text of strings, unicode and encoding/hex, Base the
-- lists, maps and sorting. The relay and the coordinator read the registry; a client's selector
-- counts its marks in the telemetry. The pump sends a packet by the runtime, or else as a frame to
-- the relay; the runtime stands on the selector, the tickets of P2p, the probes, the direct payloads
-- and the replay cache. The protected prefixes of the client are what the full tunnel leaves out.
--
-- Strings and byte slices are lists of numbers, maps are association lists, and sort.Slice is an
-- insertion sort. A time is a number of nanoseconds since the zero Time, so 0 is IsZero. The
-- clock, random bytes, the outcome of a write and of a request, and SHA-256 are arguments; the
-- digests and the cipher of the peers are an interface (Crypto of P2p/Secret), as are JSON (Codec of
-- P2p/Probe; Json of Xray/Profile, where what is written is read back up to white space and escapes)
-- and the resolvers (Host of Client/Runtime, Resolver of Client/Protected). Addresses have no zones.
-- A mutex makes what it guards one step. The floating-point numbers of the token bucket are an
-- interface, whose laws hold for NaN too (Transport/Floats).
--
-- Fuel: scan runs for as many offsets as are left, and subtract_prefix for 33 levels, which is
-- more than the bits of an IPv4 address. Each is as long as the loop that it stands for. 32-bit
-- arithmetic wraps (add_ipv4), as do the 64-bit counters.
--
-- Not modelled: sockets, goroutines beyond their steps, HTTP, the encoding of JSON, TUN devices and
-- temporary files, which are I/O: with them go startStatusServer, the HTTP calls and tickers of the
-- runtime, and the set-up in main, run and runTUN; the texts of errors and logs; cmd/meshcheck, which
-- is a test tool; a config for BuildFullTunnelConfig that is the JSON text `null`.
pub mod Base
pub mod Text
pub mod Netip
pub mod Mesh
pub mod Xray
pub mod Telemetry
pub mod P2p
pub mod Client
pub mod Health
pub mod Server
pub mod Packet
pub mod Router
pub mod Transport
