-- ===== src/Packet/Tests.antt =====
-- A UDP packet, and the theorems at it.
use xray_mesh.Base.{ℕ, ◌+◌, ◌≡◌, ◌↔◌, refl, ok, [], ◌∷◌}
use xray_mesh.Packet.{uint16_at, ipv4_header_length, udp_ports_at, ipv4_udp_ports}
use xray_mesh.Packet.Accepts.{HasUdp, ipv4_udp_ports_iff}
use xray_mesh.Text.{Bytes}

-- From 10.0.0.1:1000 to 10.0.0.2:5353.
abbrev udp_packet : Bytes
udp_packet =
    0x45 ∷ 0 ∷ 0 ∷ 28 ∷ 0 ∷ 0 ∷ 0 ∷ 0 ∷ 64 ∷ 17 ∷ 0 ∷ 0 ∷ 10 ∷ 0 ∷ 0 ∷ 1 ∷ 10 ∷ 0 ∷ 0 ∷ 2 ∷ 3 ∷ 232
    ∷ 20 ∷ 233 ∷ 0 ∷ 8 ∷ 0 ∷ 0 ∷ []

ports_read : ipv4_udp_ports udp_packet ≡ ok (1000, 5353)
unfolding ipv4_udp_ports udp_ports_at ipv4_header_length
ports_read = refl

ipv4_udp_ports_iff_example : (ipv4_udp_ports udp_packet ≡ ok (1000, 5353)) ↔ (
    (ihl : ℕ) × HasUdp udp_packet ihl
    × (1000 ≡ uint16_at udp_packet ihl)
    × (5353 ≡ uint16_at udp_packet (ihl + 2)))
ipv4_udp_ports_iff_example = ipv4_udp_ports_iff udp_packet 1000 5353
