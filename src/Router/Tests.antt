-- ===== src/Router/Tests.antt =====
-- The classes of three packets, and the theorem at one.
use xray_mesh.Base.{◌≡◌, refl, [], ℕ_discrete}
use xray_mesh.Netip.{Addr, Prefix, prefix, from4, contains, addr_dec, block}
use xray_mesh.Router.{Packet, class_peer, class_internet, class_discovery, classify}

abbrev mesh : Prefix
mesh = prefix (from4 (10, 66, 0, 0)) 16

abbrev to_address : Addr → Packet
to_address a = record { source = from4 (10, 66, 0, 2); destination = a; payload = [] }

to_peer : classify mesh (to_address (from4 (10, 66, 0, 3))) ≡ class_peer
unfolding classify contains addr_dec block ℕ_discrete
to_peer = refl

to_group : classify mesh (to_address (from4 (224, 0, 0, 251))) ≡ class_discovery
unfolding classify contains addr_dec block ℕ_discrete
to_group = refl

to_internet : classify mesh (to_address (from4 (1, 1, 1, 1))) ≡ class_internet
unfolding classify contains addr_dec block ℕ_discrete
to_internet = refl
