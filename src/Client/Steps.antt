-- ===== src/Client/Steps.antt =====
-- The steps of one client's runtime: what its goroutines call, in the order in which the mutex lets
-- them in.
pub mod Replays
mod Tests
pub mod Once
pub mod WellFormed
pub mod Invariant
use xray_mesh.Base.{ℕ, Option, List, [], ◌∷◌}
use xray_mesh.Client.Direct.{send_direct_payload, handle_direct_payload}
use xray_mesh.Client.Runtime.{P2pRuntime, Host, selection}
use xray_mesh.Client.Runtime.Handler.{handle_probe_datagram}
use xray_mesh.Client.Runtime.Polls.{Poll, run_poll_cycle}
use xray_mesh.Netip.{Addr}
use xray_mesh.Text.{Bytes}
use xray_mesh.Transport.Relay.{UdpAddr}

pub data Event : Type 0 where
  polled : Poll → Event
  selected : Bytes → ℕ → Event
  sent : Addr → Bytes → ℕ → ℕ → Option Bytes → Event
  got_probe : Bytes → UdpAddr → ℕ → Event
  got_payload : Bytes → UdpAddr → Addr → ℕ → Event

module _ (host : Host) where
  unfoldable pub step : P2pRuntime → Event → P2pRuntime
  unfolding selection handle_probe_datagram run_poll_cycle send_direct_payload handle_direct_payload
  step r (polled p) = (run_poll_cycle host r p).0
  step r (selected node_id now) = (selection r node_id now).0
  step r (sent to payload now select_at random) =
      (send_direct_payload host r to payload now select_at random).0
  step r (got_probe b source now) = (handle_probe_datagram host r b source now).0
  step r (got_payload b source local now) = (handle_direct_payload host r b source local now).0

  unfoldable pub run_events : P2pRuntime → List Event → P2pRuntime
  unfolding step
  run_events r [] = r
  run_events r (e ∷ es) = run_events (step r e) es
