-- ===== src/Client/Pump/RelayPath.antt =====
-- A packet from the device of one node, over the relay, to the device of another.
use xray_mesh.Base.{◌≡◌, [], ◌∷◌, ok}
use xray_mesh.Mesh.Registry.{Registry}
use xray_mesh.Text.{Bytes}
use xray_mesh.Transport.Relay.{Platform, Relay, UdpAddr, Sent}

module _ (pf : Platform) (r : Relay pf) (registry : Registry) (packet frame : Bytes)
    (to : UdpAddr) where
  abbrev One : Sent pf → Type 0
  One x = x ≡ (record { to = to; bytes = frame } ∷ [], ok tt)
