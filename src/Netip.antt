-- ===== src/Netip.antt =====
-- What the program uses of the package `net/netip`: addresses and prefixes, and the constructors
-- that build an IPv4 address of four bytes.
pub mod Blocks
use xray_mesh.Base.{
  ℕ, ◌+◌, ◌-◌, ◌*◌, ◌/◌, ◌%◌, ◌^◌, ◌≡◌, Bool, true, false, arith, ◌==◌, ℕ_discrete, min,
}

-- The zero Addr, an IPv4 address below 2 ^ 32, or an IPv6 address without a zone.
pub data Addr : Type 0 where
  no_addr : Addr
  v4 : ℕ → Addr
  v6 : ℕ → Addr

unfoldable pub addr_dec : Discrete Addr
addr_dec = hlevel ℕ_discrete

abbrev pub addr_IsValid : Addr → Bool
addr_IsValid no_addr = false
addr_IsValid _ = true

abbrev pub is4 : Addr → Bool
is4 (v4 _) = true
is4 _ = false

pub data Prefix : Type 0 where
  no_prefix : Prefix
  prefix : Addr → ℕ → Prefix

-- `Prefix.IsValid`, `Prefix.Addr` and `Prefix.Bits`.
abbrev pub prefix_IsValid : Prefix → Bool
prefix_IsValid no_prefix = false
prefix_IsValid (prefix a n) = true

abbrev pub prefix_addr : Prefix → Addr
prefix_addr no_prefix = no_addr
prefix_addr (prefix a n) = a

-- The source asks for the bits of valid prefixes only; it is -1 for others.
abbrev pub prefix_bits : Prefix → ℕ
prefix_bits no_prefix = 0
prefix_bits (prefix a n) = n

-- The first address of the block of 2 ^ h addresses around `a`.
unfoldable pub block : ℕ → ℕ → ℕ
block h a = a / 2 ^ h * 2 ^ h

-- `Prefix.Masked`.
unfoldable pub masked : Prefix → Prefix
unfolding block
masked no_prefix = no_prefix
masked (prefix no_addr n) = no_prefix
masked (prefix (v4 a) n) = prefix (v4 (block (32 - n) a)) n
masked (prefix (v6 a) n) = prefix (v6 (block (128 - n) a)) n

-- `Prefix.Contains`: of the prefix's own family only.
unfoldable pub contains : Prefix → Addr → Bool
contains (prefix (v4 p) n) (v4 a) = a / 2 ^ (32 - n) == p / 2 ^ (32 - n)
contains (prefix (v6 p) n) (v6 a) = a / 2 ^ (128 - n) == p / 2 ^ (128 - n)
contains _ _ = false

-- `Prefix.Overlaps`: the addresses agree on the bits that both prefixes fix.
unfoldable pub overlaps : Prefix → Prefix → Bool
overlaps (prefix (v4 p) n) (prefix (v4 q) m) = p / 2 ^ (32 - min n m) == q / 2 ^ (32 - min n m)
overlaps (prefix (v6 p) n) (prefix (v6 q) m) = p / 2 ^ (128 - min n m) == q / 2 ^ (128 - min n m)
overlaps _ _ = false

-- A `[4]byte`, the first byte first.
abbrev pub Bytes4 : Type 0
Bytes4 = ℕ × ℕ × ℕ × ℕ

-- The four bytes of a word, as `byte(v>>24), byte(v>>16), byte(v>>8), byte(v)`.
abbrev pub bytes4 : ℕ → Bytes4
bytes4 v = (v / 2 ^ 24 % 256, v / 2 ^ 16 % 256, v / 2 ^ 8 % 256, v % 256)

-- The word of four bytes; the shifted bytes do not overlap, so that `|` is `+`.
abbrev pub word4 : Bytes4 → ℕ
word4 b = b.0 * 2 ^ 24 + b.1 * 2 ^ 16 + b.2 * 2 ^ 8 + b.3

-- `netip.AddrFrom4`.
abbrev pub from4 : Bytes4 → Addr
from4 b = v4 (word4 b)

-- `Addr.As4` of an IPv4 address.
abbrev pub as4 : Addr → Bytes4
as4 (v4 a) = bytes4 a
as4 _ = (0, 0, 0, 0)

pub word4-bytes4 : (v : ℕ) → word4 (bytes4 v) ≡ v % 2 ^ 32
word4-bytes4 v = omega arith
