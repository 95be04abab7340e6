-- ===== src/Mesh/Allocator/Invariant.antt =====
-- What a valid allocator is.
use xray_mesh.Base.{ℕ, ◌+◌, ◌-◌, ◌≤◌, ◌<◌, ◌≡◌, inl, inr, min, none, some, arith, Option-cases, ok}
use xray_mesh.Base.Maps.{lookup, lookup-insert, lookup-delete}
use xray_mesh.Mesh.Allocator.{
  Allocator, add_ipv4, last_offset, scan_new, scan_reusable, lease, allocate_below, allocate_new,
  allocate, release, new_allocator,
}
use xray_mesh.Mesh.Allocator.Scan.{scan-some}
use xray_mesh.Netip.{Addr, as4, prefix_addr, addr_dec}
use xray_mesh.Text.{Bytes, str_dec}

-- The address of an offset that the allocator may lease.
abbrev pub host : Allocator → ℕ → Addr
host a o = add_ipv4 (as4 (prefix_addr a.prefix)) o

-- `offset` is neither the network address (0), the gateway (1) nor the broadcast address.
abbrev pub IsHost : Allocator → ℕ → Type 0
IsHost a o = (2 ≤ o) × (o < last_offset a.prefix)

pub record IsValid (a : Allocator) : Type 0 where
  pub node_of_lease :
      (n : Bytes) (ip : Addr)
      → lookup str_dec n a.by_node ≡ some ip
      → lookup addr_dec ip a.used ≡ some n
  pub lease_of_node :
      (ip : Addr) (n : Bytes)
      → lookup addr_dec ip a.used ≡ some n
      → lookup str_dec n a.by_node ≡ some ip
  pub in_pool :
      (n : Bytes) (ip : Addr)
      → lookup str_dec n a.by_node ≡ some ip
      → (o : ℕ) × IsHost a o × (ip ≡ host a o)
  pub cursor : 2 ≤ a.next

-- A write of a free offset under a new name.
lease-IsValid :
    (a : Allocator) (n : Bytes) (o next : ℕ)
    → IsValid a
    → lookup str_dec n a.by_node ≡ none
    → lookup addr_dec (host a o) a.used ≡ none
    → IsHost a o
    → 2 ≤ next
    → IsValid (lease a n o next)
lease-IsValid a n o next v new free h two = record {
  node_of_lease = λ m ip e. ground (
    arith,
    lookup-insert str_dec n m (host a o) a.by_node,
    lookup-insert addr_dec (host a o) ip n a.used,
    v.node_of_lease m ip,
  );
  lease_of_node = λ ip m e. ground (
    arith,
    lookup-insert str_dec n m (host a o) a.by_node,
    lookup-insert addr_dec (host a o) ip n a.used,
    v.lease_of_node ip m,
  );
  in_pool = λ m ip e. elim (str_dec n m) [
    | yes p ↦ (o, h, ground (arith, lookup-insert str_dec n m (host a o) a.by_node))
    | no p ↦ v.in_pool m ip (ground (arith, lookup-insert str_dec n m (host a o) a.by_node))
  ];
  cursor = two;
}

pub scan_new-some :
    (a : Allocator) (o : ℕ)
    → scan_new a ≡ some o
    → (a.next ≤ o) × (o < last_offset a.prefix) × (lookup addr_dec (host a o) a.used ≡ none)
scan_new-some a o e = scan-some (as4 (prefix_addr a.prefix)) a.used _ _ a.next o e

pub scan_reusable-some :
    (a : Allocator) (o : ℕ)
    → scan_reusable a ≡ some o
    → IsHost a o × (lookup addr_dec (host a o) a.used ≡ none)
scan_reusable-some a o e =
    let limit = min a.next (last_offset a.prefix) in
    let (lo, hi, free) = scan-some (as4 (prefix_addr a.prefix)) a.used limit (limit - 2) 2 o e in
    ((lo, omega arith), free)

module _ (a : Allocator) (n : Bytes) (v : IsValid a) (new : lookup str_dec n a.by_node ≡ none) where
  allocate_below-IsValid : IsValid (allocate_below a n).0
  unfolding allocate_below
  allocate_below-IsValid = elim (Option-cases (scan_reusable a)) [
    | inl e ↦ rw (e, allocate_below) v
    | inr (o, e) ↦
        let (h, free) = scan_reusable-some a o e in
        rw (e, allocate_below) (lease-IsValid a n o a.next v new free h v.cursor)
  ]

  allocate_new-IsValid : IsValid (allocate_new a n).0
  unfolding allocate_new
  allocate_new-IsValid = elim (Option-cases (scan_new a)) [
    | inl e ↦ rw (e, allocate_new) allocate_below-IsValid
    | inr (o, e) ↦
        let (lo, hi, free) = scan_new-some a o e in
        let c = v.cursor in
        rw (e, allocate_new)
          (lease-IsValid a n o (o + 1) v new free (omega arith, hi) (omega arith))
  ]

-- Allocate keeps the invariant, whatever it returns.
pub allocate-IsValid : (a : Allocator) (n : Bytes) → IsValid a → IsValid (allocate a n).0
unfolding allocate
allocate-IsValid a n v = elim (Option-cases (lookup str_dec n a.by_node)) [
  | inl e ↦ rw (e, allocate) (allocate_new-IsValid a n v e)
  | inr (ip, e) ↦ rw (e, allocate) v
]

-- Release keeps the invariant.
pub release-IsValid : (a : Allocator) (n : Bytes) → IsValid a → IsValid (release a n).0
unfolding release
release-IsValid a n v = elim (Option-cases (lookup str_dec n a.by_node)) [
  | inl e ↦ rw (e, release) v
  | inr (i, e) ↦
      rw (e, release)
        (record {
          node_of_lease = λ m ip f. ground (
            arith,
            lookup-delete str_dec n m a.by_node,
            lookup-delete addr_dec i ip a.used,
            v.node_of_lease m ip,
            v.node_of_lease n i,
          );
          lease_of_node = λ ip m f. ground (
            arith,
            lookup-delete str_dec n m a.by_node,
            lookup-delete addr_dec i ip a.used,
            v.lease_of_node ip m,
            v.lease_of_node i n,
          );
          in_pool = λ m ip f. v.in_pool m ip (ground (arith, lookup-delete str_dec n m a.by_node));
          cursor = v.cursor;
        })
]

pub new_allocator-IsValid : (p : _) {a : Allocator} → new_allocator p ≡ ok a → IsValid a
unfolding new_allocator lookup
new_allocator-IsValid p e = ground arith
