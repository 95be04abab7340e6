-- ===== src/Mesh/Allocator/History.antt =====
-- Sequences of Allocate and Release from a new allocator.
use xray_mesh.Base.{
  ℕ, ◌+◌, ◌-◌, ◌≤◌, ◌<◌, ◌≡◌, refl, sym, ap, subst, ◌∙◌, ◌^◌, ◌≢◌, true, none, some, arith, ok,
  ℕ_discrete, List, [], ◌∷◌, ==_iff,
}
use xray_mesh.Base.Maps.{lookup, delete, lookup-delete}
use xray_mesh.Mesh.Allocator.{Allocator, add_ipv4, last_offset, allocate, release, new_allocator}
use xray_mesh.Mesh.Allocator.Range.{add_ipv4_lem}
use xray_mesh.Mesh.Allocator.Invariant.{
  host, IsHost, IsValid, allocate-IsValid, release-IsValid, new_allocator-IsValid,
}
use xray_mesh.Mesh.Allocator.Laws.{IsFull, leased, full, allocate-Outcome}
use xray_mesh.Netip.{
  Addr, v4, as4, word4-bytes4, bytes4, prefix_addr, masked, addr_dec, Prefix, prefix, contains,
  block,
}
use xray_mesh.Netip.Blocks.{pow-pos, pow-lt, block_end-le, div-block-add, div-block}
use xray_mesh.Text.{Bytes, str_dec}

pub data Call : Type 0 where
  allocates releases : Bytes → Call

unfoldable pub step : Allocator → Call → Allocator
step a (allocates n) = (allocate a n).0
step a (releases n) = (release a n).0

unfoldable pub run : Allocator → List Call → Allocator
run a [] = a
run a (c ∷ cs) = run (step a c) cs

step-IsValid : (a : Allocator) (c : Call) → IsValid a → IsValid (step a c)
unfolding step
step-IsValid a (allocates n) v = allocate-IsValid a n v
step-IsValid a (releases n) v = release-IsValid a n v

pub run-IsValid : (a : Allocator) (cs : List Call) → IsValid a → IsValid (run a cs)
unfolding run
run-IsValid a [] v = v
run-IsValid a (c ∷ cs) v = run-IsValid (step a c) cs (step-IsValid a c v)

-- After any sequence of calls on a new allocator two nodes that hold one address are one node.
pub run_distinct :
    (p : Prefix) (a : Allocator) (cs : List Call) (m n : Bytes) (ip : Addr)
    → new_allocator p ≡ ok a
    → lookup str_dec m (run a cs).by_node ≡ some ip
    → lookup str_dec n (run a cs).by_node ≡ some ip
    → m ≡ n
run_distinct p a cs m n ip new hm hn =
    let v = run-IsValid a cs (new_allocator-IsValid p new) in
    ground (arith, v.node_of_lease m ip hm, v.node_of_lease n ip hn)

abbrev without : Allocator → Bytes → Addr → Allocator
without a n ip = record a { by_node = delete str_dec n a.by_node; used = delete addr_dec ip a.used }

release-without :
    (a : Allocator) (n : Bytes) (ip : Addr)
    → lookup str_dec n a.by_node ≡ some ip
    → release a n ≡ (without a n ip, some ip)
unfolding release
release-without a n ip e = rw (e, release)

-- In a valid, full pool the address that a node releases is the one that the next node without a
-- lease gets.
pub release_reuse :
    (a : Allocator) (n m : Bytes) (ip : Addr)
    → IsValid a
    → IsFull a
    → lookup str_dec n a.by_node ≡ some ip
    → lookup str_dec m a.by_node ≡ none
    → (allocate (release a n).0 m).1 ≡ ok ip
release_reuse a n m ip v f hn hm =
    let w : IsValid (without a n ip) =
      subst (λ r. IsValid r.0) (release-without a n ip hn) (release-IsValid a n v) in
    let new : lookup str_dec m (without a n ip).by_node ≡ none =
      ground (arith, lookup-delete str_dec n m a.by_node) in
    rw (release-without a n ip hn) (elim (allocate-Outcome (without a n ip) m w new) [
      | leased o next h free eb er ↦
          ground (arith, f o h, lookup-delete addr_dec ip (host a o) a.used)
      | full g eb er ↦
          let (o, h, e) = v.in_pool n ip hn in
          absurd (ground (arith, g o h, lookup-delete addr_dec ip (host a o) a.used))
    ])

last_offset_lem : (a b : ℕ) → b ≤ 32 → last_offset (prefix (v4 a) b) ≡ 2 ^ (32 - b) - 1
unfolding last_offset
last_offset_lem a b h = elim (ℕ_discrete b 0) [
  | yes e ↦ rw e (omega arith)
  | no ne ↦ omega (arith, pow-pos (32 - b), pow-lt b h ne)
]

new_allocator_lem :
    (base bits : ℕ) (a : Allocator)
    → new_allocator (prefix (v4 base) bits) ≡ ok a
    → (a.prefix ≡ prefix (v4 (block (32 - bits) base)) bits) × (bits ≤ 30)
unfolding new_allocator masked
new_allocator_lem base bits a e = ground arith

host_lem : (first bits o : ℕ) → first + o < 2 ^ 32 → add_ipv4 (as4 (v4 first)) o ≡ v4 (first + o)
host_lem first bits o lt = add_ipv4_lem (bytes4 first) o ∙ ap v4 (omega (arith, word4-bytes4 first))

contains_host :
    (first bits o base : ℕ)
    → bits ≤ 30
    → o < 2 ^ (32 - bits)
    → first ≡ block (32 - bits) base
    → contains (prefix (v4 first) bits) (v4 (first + o)) ≡ true
unfolding contains
contains_host first bits o base small lo e =
    let k = 32 - bits in (==_iff _ _).1 (rw e (div-block-add k base o lo ∙ sym (div-block k base)))

-- Every address of the allocator lies in the masked prefix, and is neither its first address (the
-- network), nor the second (the gateway), nor its last (the broadcast address).
pub host_in_pool :
    (base bits : ℕ) (a : Allocator) (o : ℕ)
    → base < 2 ^ 32
    → new_allocator (prefix (v4 base) bits) ≡ ok a
    → IsHost a o
    → let first = block (32 - bits) base in
      (contains a.prefix (host a o) ≡ true)
      × (host a o ≢ v4 first)
      × (host a o ≢ v4 (first + 1))
      × (host a o ≢ v4 (first + (2 ^ (32 - bits) - 1)))
host_in_pool base bits a o lt new h =
    let (e, small) = new_allocator_lem base bits a new in
    let k = 32 - bits in
    let last : last_offset a.prefix ≡ 2 ^ k - 1 =
      ap last_offset e ∙ last_offset_lem (block k base) bits (omega arith) in
    let fits : block k base + 2 ^ k ≤ 2 ^ 32 = block_end-le k base (omega arith) lt in
    let here : host a o ≡ v4 (block k base + o) =
      ap (λ p. add_ipv4 (as4 (prefix_addr p)) o) e
      ∙ host_lem (block k base) bits o (omega (arith, h, pow-pos k)) in
    let lo : o < 2 ^ k = omega (arith, h) in
    (
      rw (here, e) (contains_host (block k base) bits o base small lo refl),
      λ n. absurd (ground (arith, here)),
      λ n. absurd (ground (arith, here)),
      λ n. absurd (ground (arith, here)),
    )
