-- ===== src/Packet/Accepts.antt =====
-- Which packets the parser accepts, and what it reads of them.
use xray_mesh.Base.{ℕ, ◌+◌, ◌*◌, ◌/◌, ◌%◌, ◌≤◌, ◌≡◌, ◌↔◌, inl, inr, length, Result-cases, ok, arith}
use xray_mesh.Netip.{Addr, from4}
use xray_mesh.Packet.{
  byte_at, uint16_at, ipv4_header_length, ipv4_endpoints, udp_ports_at, ipv4_udp_ports,
}
use xray_mesh.Text.{Bytes}

-- A version 4 header of `ihl` bytes that lies within the packet.
pub record HasHeader (b : Bytes) (ihl : ℕ) : Type 0 where
  pub version : byte_at b 0 / 16 ≡ 4
  pub words : byte_at b 0 % 16 * 4 ≡ ihl
  pub long : 20 ≤ ihl
  pub within : ihl ≤ length b

header_forth : (b : Bytes) (ihl : ℕ) → ipv4_header_length b ≡ ok ihl → HasHeader b ihl
unfolding ipv4_header_length
header_forth b ihl e = ground arith

header_back : (b : Bytes) (ihl : ℕ) → HasHeader b ihl → ipv4_header_length b ≡ ok ihl
unfolding ipv4_header_length
header_back b ihl h = ground (arith, h.version, h.words, h.long, h.within)

-- The header length is read exactly of packets with such a header.
pub ipv4_header_length_iff :
    (b : Bytes) (ihl : ℕ) → (ipv4_header_length b ≡ ok ihl) ↔ HasHeader b ihl
ipv4_header_length_iff b ihl = (header_forth b ihl, header_back b ihl)

-- The addresses are read exactly of packets with a header, and are the bytes 12 to 19, which then
-- lie within the packet.
pub ipv4_endpoints_iff :
    (b : Bytes) (src dst : Addr)
    → (ipv4_endpoints b ≡ ok (src, dst)) ↔ (
        (ihl : ℕ) × HasHeader b ihl
        × (src ≡ from4 (byte_at b 12, byte_at b 13, byte_at b 14, byte_at b 15))
        × (dst ≡ from4 (byte_at b 16, byte_at b 17, byte_at b 18, byte_at b 19)))
unfolding ipv4_endpoints
ipv4_endpoints_iff b src dst = (forth, λ t. rw (header_back b t.0 t.1, t.2, t.3))
  where
    forth :
        ipv4_endpoints b ≡ ok (src, dst)
        → (ihl : ℕ) × HasHeader b ihl
          × (src ≡ from4 (byte_at b 12, byte_at b 13, byte_at b 14, byte_at b 15))
          × (dst ≡ from4 (byte_at b 16, byte_at b 17, byte_at b 18, byte_at b 19))
    forth e = elim (Result-cases (ipv4_header_length b)) [
      | inl (ihl, h) ↦ (ihl, header_forth b ihl h, ground arith, ground arith)
      | inr (x, h) ↦ absurd (ground arith)
    ]

-- An initial fragment of UDP whose eight header bytes lie within the packet.
pub record HasUdp (b : Bytes) (ihl : ℕ) : Type 0 where
  pub header : HasHeader b ihl
  pub protocol : byte_at b 9 ≡ 17
  pub initial : uint16_at b 6 % 0x2000 ≡ 0
  pub whole : ihl + 8 ≤ length b

udp_forth :
    (b : Bytes) (ihl src dst : ℕ)
    → HasHeader b ihl
    → udp_ports_at b ihl ≡ ok (src, dst)
    → HasUdp b ihl × (src ≡ uint16_at b ihl) × (dst ≡ uint16_at b (ihl + 2))
unfolding udp_ports_at
udp_forth b ihl src dst h e = (
  record { header = h; protocol = ground arith; initial = ground arith; whole = ground arith },
  ground arith,
  ground arith,
)

udp_back :
    (b : Bytes) (ihl : ℕ)
    → HasUdp b ihl
    → udp_ports_at b ihl ≡ ok (uint16_at b ihl, uint16_at b (ihl + 2))
unfolding udp_ports_at
udp_back b ihl h = ground (arith, h.protocol, h.initial, h.whole)

-- The ports are read exactly of initial UDP fragments, behind the header of the length that the
-- packet states, and the bytes that are read lie within the packet.
pub ipv4_udp_ports_iff :
    (b : Bytes) (src dst : ℕ)
    → (ipv4_udp_ports b ≡ ok (src, dst))
      ↔ ((ihl : ℕ) × HasUdp b ihl × (src ≡ uint16_at b ihl) × (dst ≡ uint16_at b (ihl + 2)))
unfolding ipv4_udp_ports
ipv4_udp_ports_iff b src dst =
    (forth, λ t. rw (header_back b t.0 t.1.header, udp_back b t.0 t.1, t.2, t.3))
  where
    forth :
        ipv4_udp_ports b ≡ ok (src, dst)
        → (ihl : ℕ) × HasUdp b ihl × (src ≡ uint16_at b ihl) × (dst ≡ uint16_at b (ihl + 2))
    forth e = elim (Result-cases (ipv4_header_length b)) [
      | inr (x, h) ↦ absurd (ground arith)
      | inl (ihl, h) ↦
          let (u, s, d) = udp_forth b ihl src dst (header_forth b ihl h) (ground arith) in
          (ihl, u, s, d)
    ]
