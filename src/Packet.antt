-- ===== src/Packet.antt =====
-- internal/packet/ipv4.go. A packet is a list of bytes, each below 256.
pub mod Accepts
mod Tests
use xray_mesh.Base.{
  ℕ, ◌+◌, ◌*◌, ◌/◌, ◌%◌, Bool, ◌||◌, not, ltb, ◌==◌, if◌then◌else◌, length, get_or, Result, ok, err,
  ◌>>=◌,
}
use xray_mesh.Netip.{Addr, from4}
use xray_mesh.Text.{Bytes}

pub data PacketError : Type 0 where
  too_short not_ipv4 bad_ihl not_udp udp_too_short fragmented : PacketError

-- `b[i]`, and `binary.BigEndian.Uint16(b[i : i+2])`.
abbrev pub byte_at : Bytes → ℕ → ℕ
byte_at b i = get_or b i 0

abbrev pub uint16_at : Bytes → ℕ → ℕ
uint16_at b i = byte_at b i * 256 + byte_at b (i + 1)

-- `b[0]>>4` is the quotient by 16, and `b[0]&0x0f` the remainder.
unfoldable pub ipv4_header_length : Bytes → Result PacketError ℕ
ipv4_header_length b =
    if ltb (length b) 20
    then err too_short
    else if not (byte_at b 0 / 16 == 4)
    then err not_ipv4
    else (let ihl = byte_at b 0 % 16 * 4 in
        if ltb ihl 20 || ltb (length b) ihl then err bad_ihl else ok ihl)

unfoldable pub ipv4_endpoints : Bytes → Result PacketError (Addr × Addr)
unfolding ipv4_header_length
ipv4_endpoints b = do
  ihl ← ipv4_header_length b
  ok (
    from4 (byte_at b 12, byte_at b 13, byte_at b 14, byte_at b 15),
    from4 (byte_at b 16, byte_at b 17, byte_at b 18, byte_at b 19),
  )

-- The checks behind the header's; `fragment&0x1fff` is the remainder by 2 ^ 13.
unfoldable pub udp_ports_at : Bytes → ℕ → Result PacketError (ℕ × ℕ)
udp_ports_at b ihl =
    if not (byte_at b 9 == 17)
    then err not_udp
    else if not (uint16_at b 6 % 0x2000 == 0)
    then err fragmented
    else if ltb (length b) (ihl + 8)
    then err udp_too_short
    else ok (uint16_at b ihl, uint16_at b (ihl + 2))

unfoldable pub ipv4_udp_ports : Bytes → Result PacketError (ℕ × ℕ)
unfolding ipv4_header_length udp_ports_at
ipv4_udp_ports b = ipv4_header_length b >>= udp_ports_at b
