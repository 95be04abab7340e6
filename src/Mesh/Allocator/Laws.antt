-- ===== src/Mesh/Allocator/Laws.antt =====
-- What Allocate and Release promise their callers.
use xray_mesh.Base.{
  ℕ, ◌+◌, ◌-◌, ◌≤◌, ◌≡◌, refl, ap, subst, ◌∙◌, inl, inr, ◌≢◌, ◌↔◌, min, none, some, arith,
  Option-cases, Result, ok, err, dec_lt,
}
use xray_mesh.Base.Maps.{lookup, lookup-insert, lookup-delete}
use xray_mesh.Mesh.Allocator.{
  Allocator, AllocatorError, pool_exhausted, last_offset, scan_new, scan_reusable, lease,
  allocate_below, allocate_new, allocate, release,
}
use xray_mesh.Mesh.Allocator.Scan.{scan-none}
use xray_mesh.Mesh.Allocator.Invariant.{host, IsHost, IsValid, scan_new-some, scan_reusable-some}
use xray_mesh.Netip.{Addr, as4, prefix_addr, addr_dec}
use xray_mesh.Text.{Bytes, str_dec}

-- Every address that may be leased is leased.
abbrev pub IsFull : Allocator → Type 0
IsFull a = (o : ℕ) → IsHost a o → (m : Bytes) × (lookup addr_dec (host a o) a.used ≡ some m)

-- The outcomes of Allocate for a node without a lease.
pub data Outcome (a : Allocator) (n : Bytes) (b : Allocator) (r : Result AllocatorError Addr)
    : Type 0 where
  leased :
      (o next : ℕ)
      → IsHost a o
      → lookup addr_dec (host a o) a.used ≡ none
      → b ≡ lease a n o next
      → r ≡ ok (host a o)
      → Outcome a n b r
  full : IsFull a → b ≡ a → r ≡ err pool_exhausted → Outcome a n b r

-- Both loops together miss no host address.
scans_none : (a : Allocator) → scan_new a ≡ none → scan_reusable a ≡ none → IsFull a
scans_none a e f o h = elim (dec_lt o a.next) [
  | yes lt ↦
      let limit = min a.next (last_offset a.prefix) in
      scan-none (as4 (prefix_addr a.prefix)) a.used limit (limit - 2) 2 (omega arith) f o h.0
        (omega arith)
  | no ge ↦
      let limit = last_offset a.prefix in
      scan-none (as4 (prefix_addr a.prefix)) a.used limit (limit - a.next) a.next (omega arith) e o
        (omega arith) h.1
]

allocate_new-Outcome :
    (a : Allocator) (n : Bytes) → 2 ≤ a.next → Outcome a n (allocate_new a n).0 (allocate_new a n).1
unfolding allocate_new allocate_below
allocate_new-Outcome a n two = elim (Option-cases (scan_new a)) [
  | inr (o, e) ↦
      let (lo, hi, free) = scan_new-some a o e in
      rw (e, allocate_new) (leased o (o + 1) (omega arith, hi) free refl refl)
  | inl e ↦ elim (Option-cases (scan_reusable a)) [
    | inr (o, f) ↦
        let (h, free) = scan_reusable-some a o f in
        rw (e, allocate_new, f, allocate_below) (leased o a.next h free refl refl)
    | inl f ↦ rw (e, allocate_new, f, allocate_below) (full (scans_none a e f) refl refl)
  ]
]

pub allocate-Outcome :
    (a : Allocator) (n : Bytes)
    → IsValid a
    → lookup str_dec n a.by_node ≡ none
    → Outcome a n (allocate a n).0 (allocate a n).1
unfolding allocate
allocate-Outcome a n v new = rw (new, allocate) (allocate_new-Outcome a n v.cursor)

pub allocate_held :
    (a : Allocator) (n : Bytes) (ip : Addr)
    → lookup str_dec n a.by_node ≡ some ip
    → allocate a n ≡ (a, ok ip)
unfolding allocate
allocate_held a n ip e = rw (e, allocate)

-- What the maps hold after a lease of the free offset `o`.
lease_maps :
    (a : Allocator) (n : Bytes) (o next : ℕ)
    → (lookup str_dec n (lease a n o next).by_node ≡ some (host a o))
      × (lookup addr_dec (host a o) (lease a n o next).used ≡ some n)
      × ((m : Bytes)
          → m ≢ n
          → lookup str_dec m (lease a n o next).by_node ≡ lookup str_dec m a.by_node)
lease_maps a n o next = (
  ground (arith, lookup-insert str_dec n n (host a o) a.by_node),
  ground (arith, lookup-insert addr_dec (host a o) (host a o) n a.used),
  λ m ne. ground (arith, lookup-insert str_dec n m (host a o) a.by_node),
)

-- What a successful Allocate returns: `n` holds the address `ip` of the pool.
pub record Grant (a : Allocator) (n : Bytes) (ip : Addr) (b : Allocator) : Type 0 where
  pub held : lookup str_dec n b.by_node ≡ some ip
  pub owner : lookup addr_dec ip b.used ≡ some n
  pub in_pool : (o : ℕ) × IsHost a o × (ip ≡ host a o)
  pub others : (m : Bytes) → m ≢ n → lookup str_dec m b.by_node ≡ lookup str_dec m a.by_node

Outcome-Grant :
    (a : Allocator) (n : Bytes) (b : Allocator) (r : Result AllocatorError Addr) (ip : Addr)
    → Outcome a n b r
    → r ≡ ok ip
    → Grant a n ip b
Outcome-Grant a n b r ip (full _ eb er) e = absurd (ground arith)
Outcome-Grant a n b r ip (leased o next h free eb er) e =
    let same : host a o ≡ ip = ground arith in
    let (x, y, z) = lease_maps a n o next in
    rw (eb, ← same) (record { held = x; owner = y; in_pool = (o, h, refl); others = z })

held_Grant :
    (a : Allocator) (n : Bytes) (ip : Addr)
    → IsValid a
    → lookup str_dec n a.by_node ≡ some ip
    → Grant a n ip a
held_Grant a n ip v e = record {
  held = e;
  owner = v.node_of_lease n ip e;
  in_pool = v.in_pool n ip e;
  others = λ m ne. refl;
}

-- An address that Allocate on a valid allocator returns is a host address of the pool, belongs to
-- the node and to no other, leaves every other lease alone, and is what the node gets when it asks
-- again.
pub allocate_grants :
    (a b : Allocator) (n : Bytes) (ip : Addr)
    → IsValid a
    → allocate a n ≡ (b, ok ip)
    → Grant a n ip b × (allocate b n ≡ (b, ok ip))
allocate_grants a b n ip v e = elim (Option-cases (lookup str_dec n a.by_node)) [
  | inl new ↦
      let g : Grant a n ip (allocate a n).0 =
        Outcome-Grant a n _ _ ip (allocate-Outcome a n v new) (ap (λ r. r.1) e) in
      let g' : Grant a n ip b = subst (Grant a n ip) (ap (λ r. r.0) e) g in
      (g', allocate_held b n ip g'.held)
  | inr (i, old) ↦
      let eb : a ≡ b = ground (arith, allocate_held a n i old) in
      let ei : i ≡ ip = ground (arith, allocate_held a n i old) in
      let old' : lookup str_dec n a.by_node ≡ some ip = old ∙ ap some ei in
      (
        subst (Grant a n ip) eb (held_Grant a n ip v old'),
        subst (λ c. allocate c n ≡ (c, ok ip)) eb (allocate_held a n ip old'),
      )
]

not_free :
    (a : Allocator) (o : ℕ) → IsHost a o → IsFull a → lookup addr_dec (host a o) a.used ≢ none
not_free a o h f e = let (m, g) = f o h in cc

-- Allocate on a valid allocator fails exactly when the node has no lease and every host address of
-- the pool is leased.
pub allocate_exhausted_iff :
    (a : Allocator) (n : Bytes)
    → IsValid a
    → (allocate a n ≡ (a, err pool_exhausted)) ↔ ((lookup str_dec n a.by_node ≡ none) × IsFull a)
allocate_exhausted_iff a n v = (forth, back)
  where
    forth : allocate a n ≡ (a, err pool_exhausted) → (lookup str_dec n a.by_node ≡ none) × IsFull a
    forth e = elim (Option-cases (lookup str_dec n a.by_node)) [
      | inr (ip, old) ↦ absurd (ground (arith, allocate_held a n ip old))
      | inl new ↦ elim (allocate-Outcome a n v new) [
        | leased o next h free eb er ↦ absurd (ground arith)
        | full f eb er ↦ (new, f)
      ]
    ]

    back : (lookup str_dec n a.by_node ≡ none) × IsFull a → allocate a n ≡ (a, err pool_exhausted)
    back (new, f) = elim (allocate-Outcome a n v new) [
      | leased o next h free eb er ↦ absurd (not_free a o h f free)
      | full f eb er ↦ ground arith
    ]

-- Release of a lease returns its address, forgets the node and the address, and keeps the leases
-- of all other nodes.
pub release_held :
    (a : Allocator) (n : Bytes) (ip : Addr)
    → lookup str_dec n a.by_node ≡ some ip
    → let b = (release a n).0 in
      ((release a n).1 ≡ some ip)
      × (lookup str_dec n b.by_node ≡ none)
      × (lookup addr_dec ip b.used ≡ none)
      × ((m : Bytes) → m ≢ n → lookup str_dec m b.by_node ≡ lookup str_dec m a.by_node)
      × ((i : Addr) → i ≢ ip → lookup addr_dec i b.used ≡ lookup addr_dec i a.used)
unfolding release
release_held a n ip e =
    rw (e, release)
      (
        refl,
        ground (arith, lookup-delete str_dec n n a.by_node),
        ground (arith, lookup-delete addr_dec ip ip a.used),
        λ m ne. ground (arith, lookup-delete str_dec n m a.by_node),
        λ i ne. ground (arith, lookup-delete addr_dec ip i a.used),
      )

-- A failed Allocate changes nothing.
pub allocate_err :
    (a b : Allocator) (n : Bytes) (x : AllocatorError)
    → IsValid a
    → allocate a n ≡ (b, err x)
    → b ≡ a
allocate_err a b n x v e = elim (Option-cases (lookup str_dec n a.by_node)) [
  | inr (ip, old) ↦ absurd (ground (arith, allocate_held a n ip old))
  | inl new ↦ elim (allocate-Outcome a n v new) [
    | leased o next h free eb er ↦ absurd (ground arith)
    | full f eb er ↦ ground arith
  ]
]
