-- ===== src/Mesh/Allocator.antt =====
-- internal/mesh/allocator.go. The mutex makes each method one step.
pub mod Scan
pub mod Range
pub mod Invariant
pub mod Laws
pub mod History
use xray_mesh.Base.{
  ℕ, zero, suc, ◌+◌, ◌-◌, ◌^◌, ◌%◌, min, Bool, true, false, not, ◌||◌, Option, none, some, [], ltb,
  if◌then◌else◌, Result, ok, err,
}
use xray_mesh.Base.Maps.{Map, lookup, insert, delete}
use xray_mesh.Netip.{
  Addr, Prefix, Bytes4, bytes4, word4, from4, as4, addr_dec, is4, prefix_IsValid, prefix_addr,
  prefix_bits, masked,
}
use xray_mesh.Text.{Bytes, str_dec}

pub data AllocatorError : Type 0 where
  not_ipv4_prefix prefix_too_small pool_exhausted : AllocatorError

pub record Allocator : Type 0 where
  pub prefix : Prefix
  pub next : ℕ
  pub by_node : Map Bytes Addr
  pub used : Map Addr Bytes

unfoldable pub new_allocator : Prefix → Result AllocatorError Allocator
new_allocator p =
    if not (prefix_IsValid p) || not (is4 (prefix_addr p))
    then err not_ipv4_prefix
    else if ltb 30 (prefix_bits p)
    then err prefix_too_small
    else ok (record { prefix = masked p; next = 2; by_node = []; used = [] })

-- The sum wraps at 32 bits.
unfoldable pub add_ipv4 : Bytes4 → ℕ → Addr
add_ipv4 base offset = from4 (bytes4 ((word4 base + offset) % 2 ^ 32))

-- `capacity - 1`, both in 32 bits: a shift by 32 gives 0, and 0 - 1 wraps.
unfoldable pub last_offset : Prefix → ℕ
last_offset p = (2 ^ (32 - prefix_bits p) % 2 ^ 32 + 2 ^ 32 - 1) % 2 ^ 32

abbrev pub is_used : Map Addr Bytes → Addr → Bool
is_used used ip = elim (lookup addr_dec ip used) [ none ↦ false | some _ ↦ true ]

-- `for offset := from; offset < limit; offset++`: the first offset whose address is free. The fuel
-- is the number of rounds that are left.
unfoldable pub scan : ℕ → Bytes4 → Map Addr Bytes → ℕ → ℕ → Option ℕ
scan zero base used limit offset = none
scan (suc fuel) base used limit offset =
    let rest = scan fuel base used limit (offset + 1) in
    if ltb offset limit
    then (if is_used used (add_ipv4 base offset) then rest else some offset)
    else none

-- The two writes of the maps, and the cursor as the caller sets it.
abbrev pub lease : Allocator → Bytes → ℕ → ℕ → Allocator
lease a node_id offset next =
    let ip = add_ipv4 (as4 (prefix_addr a.prefix)) offset in
    record a {
      by_node = insert str_dec node_id ip a.by_node;
      used = insert addr_dec ip node_id a.used;
      next = next;
    }

-- The first loop of Allocate, from the cursor to the end of the pool.
abbrev pub scan_new : Allocator → Option ℕ
scan_new a =
    let limit = last_offset a.prefix in
    scan (limit - a.next) (as4 (prefix_addr a.prefix)) a.used limit a.next

-- The second loop, over the reusable range: `offset < a.next && offset < capacity-1`.
abbrev pub scan_reusable : Allocator → Option ℕ
scan_reusable a =
    let limit = min a.next (last_offset a.prefix) in
    scan (limit - 2) (as4 (prefix_addr a.prefix)) a.used limit 2

unfoldable pub allocate_below : Allocator → Bytes → Allocator × Result AllocatorError Addr
unfolding scan
allocate_below a node_id = elim (scan_reusable a) [
  | none ↦ (a, err pool_exhausted)
  | some offset ↦ (lease a node_id offset a.next, ok (add_ipv4 (as4 (prefix_addr a.prefix)) offset))
]

unfoldable pub allocate_new : Allocator → Bytes → Allocator × Result AllocatorError Addr
unfolding scan
allocate_new a node_id = elim (scan_new a) [
  | none ↦ allocate_below a node_id
  | some offset ↦
      (lease a node_id offset (offset + 1), ok (add_ipv4 (as4 (prefix_addr a.prefix)) offset))
]

unfoldable pub allocate : Allocator → Bytes → Allocator × Result AllocatorError Addr
allocate a node_id = elim (lookup str_dec node_id a.by_node) [
  | none ↦ allocate_new a node_id
  | some ip ↦ (a, ok ip)
]

unfoldable pub release : Allocator → Bytes → Allocator × Option Addr
release a node_id = elim (lookup str_dec node_id a.by_node) [
  | none ↦ (a, none)
  | some ip ↦ (
    record a { by_node = delete str_dec node_id a.by_node; used = delete addr_dec ip a.used },
    some ip,
  )
]
