-- ===== src/Mesh/Registry/Register.antt =====
-- Register.
use xray_mesh.Base.{
  ℕ, ◌≡◌, refl, sym, ap, subst, ◌∙◌, ◌≢◌, inl, inr, Option, none, some, [], arith, if_pos, if_neg,
  Option-cases, Result, ok, err,
}
use xray_mesh.Base.Maps.{Map, lookup}
use xray_mesh.Mesh.Allocator.{Allocator, AllocatorError, allocate, release, new_allocator}
use xray_mesh.Mesh.Allocator.Invariant
use xray_mesh.Mesh.Allocator.Invariant.{allocate-IsValid, release-IsValid, new_allocator-IsValid}
use xray_mesh.Mesh.Allocator.Laws.{Grant, allocate_grants, allocate_err, release_held}
use xray_mesh.Mesh.Registry.{
  Registry, invalid_node_id, new_registry, register_leased, register_trimmed, register_at,
}
use xray_mesh.Mesh.Registry.Invariant.{IsValid, seen-IsValid, enter-IsValid}
use xray_mesh.Netip.{Addr, addr_dec, Prefix}
use xray_mesh.Text.{Bytes, str_dec}
use xray_mesh.Text.Hex.{encode_hex}
use xray_mesh.Text.Trim.{trim_space}

new_registry_lem :
    (p : Prefix) (r : Registry)
    → new_registry p ≡ ok r
    → (new_allocator p ≡ ok r.allocator)
      × (r.peers ≡ [])
      × (r.by_ip ≡ [])
      × (r.by_token ≡ [])
      × (r.allocator.by_node ≡ [])
unfolding new_registry new_allocator
new_registry_lem p r e = ground arith

lookup_empty :
    {K V : Type 0} (dec : Discrete K) (m : Map K V) (k : K) {v : V}
    → m ≡ []
    → lookup dec k m ≡ some v
    → ⊥
unfolding lookup
lookup_empty dec m k e f = ground arith

pub new_registry-IsValid : (p : Prefix) (r : Registry) → new_registry p ≡ ok r → IsValid r
new_registry-IsValid p r e =
    let (new, peers, by_ip, by_token, by_node) = new_registry_lem p r e in
    record {
      alloc = new_allocator-IsValid p new;
      unique = rw peers tt;
      id = λ k q f. absurd (lookup_empty str_dec _ k peers f);
      leased = λ k q f. absurd (lookup_empty str_dec _ k peers f);
      ip_known = λ k q f. absurd (lookup_empty str_dec _ k peers f);
      token_known = λ k q f. absurd (lookup_empty str_dec _ k peers f);
      of_lease = λ k ip f. absurd (lookup_empty str_dec _ k by_node f);
      of_ip = λ ip k f. absurd (lookup_empty addr_dec _ ip by_ip f);
      of_token = λ t k f. absurd (lookup_empty str_dec _ t by_token f);
    }

-- No peer has the token that the random bytes give.
abbrev pub IsFresh : Registry → Option Bytes → Type 0
IsFresh r random = (b : Bytes) → random ≡ some b → lookup str_dec (encode_hex b) r.by_token ≡ none

allocator-IsValid :
    (r : Registry) (a : Allocator)
    → IsValid r
    → Invariant.IsValid a
    → ((k : Bytes) → lookup str_dec k a.by_node ≡ lookup str_dec k r.allocator.by_node)
    → IsValid (record r { allocator = a })
allocator-IsValid r a v va same = record {
  alloc = va;
  unique = v.unique;
  id = v.id;
  leased = λ k p f. same k ∙ v.leased k p f;
  ip_known = v.ip_known;
  token_known = v.token_known;
  of_lease = λ k ip f. v.of_lease k ip (sym (same k) ∙ f);
  of_ip = v.of_ip;
  of_token = v.of_token;
}

-- A node that is no peer has no lease.
no_lease :
    (r : Registry) (n : Bytes)
    → IsValid r
    → lookup str_dec n r.peers ≡ none
    → lookup str_dec n r.allocator.by_node ≡ none
no_lease r n v new = elim (Option-cases (lookup str_dec n r.allocator.by_node)) [
  | inl e ↦ e
  | inr (ip, e) ↦ let (p, f, _) = v.of_lease n ip e in absurd (ground arith)
]

-- The address that is given back after a failure of the random source leaves the leases as they
-- were.
undone :
    (r : Registry) (n : Bytes) (a : Allocator) (ip : Addr)
    → IsValid r
    → lookup str_dec n r.peers ≡ none
    → Grant r.allocator n ip a
    → (k : Bytes) → lookup str_dec k (release a n).0.by_node ≡ lookup str_dec k r.allocator.by_node
undone r n a ip v new g k =
    let (_, gone, _, others, _) = release_held a n ip g.held in
    elim (str_dec k n) [
      | yes h ↦ ground (arith, gone, no_lease r n v new)
      | no h ↦ others k h ∙ g.others k h
    ]

register_leased-IsValid :
    (r : Registry) (n : Bytes) (now : ℕ) (random : Option Bytes) (a : Allocator)
    (res : Result AllocatorError Addr)
    → IsValid r
    → IsFresh r random
    → lookup str_dec n r.peers ≡ none
    → allocate r.allocator n ≡ (a, res)
    → IsValid (register_leased r n now random (a, res)).0
unfolding register_leased
register_leased-IsValid r n now random a (err x) v fresh new e =
    allocator-IsValid r a v
      (subst Invariant.IsValid (ap (λ s. s.0) e) (allocate-IsValid r.allocator n v.alloc))
      (λ k. rw (allocate_err r.allocator a n x v.alloc e))
register_leased-IsValid r n now none a (ok ip) v fresh new e =
    let va = subst Invariant.IsValid (ap (λ s. s.0) e) (allocate-IsValid r.allocator n v.alloc) in
    let (g, _) = allocate_grants r.allocator a n ip v.alloc e in
    allocator-IsValid r (release a n).0 v (release-IsValid a n va) (undone r n a ip v new g)
register_leased-IsValid r n now (some b) a (ok ip) v fresh new e =
    let va = subst Invariant.IsValid (ap (λ s. s.0) e) (allocate-IsValid r.allocator n v.alloc) in
    let (g, _) = allocate_grants r.allocator a n ip v.alloc e in
    enter-IsValid r a _ v va g new (fresh b refl)

register_trimmed-IsValid :
    (r : Registry) (n : Bytes) (now : ℕ) (random : Option Bytes)
    → IsValid r
    → IsFresh r random
    → IsValid (register_trimmed r n now random).0
unfolding register_trimmed
register_trimmed-IsValid r n now random v fresh = elim (Option-cases (lookup str_dec n r.peers)) [
  | inl new ↦
      rw (new, register_trimmed)
        (register_leased-IsValid r n now random (allocate r.allocator n).0
          (allocate r.allocator n).1 v fresh new refl)
  | inr (p, old) ↦ rw (old, register_trimmed) (seen-IsValid r n p now old v)
]

pub register_blank :
    (r : Registry) (node_id : Bytes) (now : ℕ) (random : Option Bytes)
    → trim_space node_id ≡ []
    → register_at r node_id now random ≡ (r, err invalid_node_id)
unfolding register_at
register_blank r node_id now random h = rw (if_pos _ h)

pub register_named :
    (r : Registry) (node_id : Bytes) (now : ℕ) (random : Option Bytes)
    → trim_space node_id ≢ []
    → register_at r node_id now random ≡ register_trimmed r (trim_space node_id) now random
unfolding register_at
register_named r node_id now random h = rw (if_neg _ h)

-- Register keeps the registry consistent, whatever it returns: a new peer, a known one, a refused
-- name, an exhausted pool, or a failure of the random source. The premise is that a new token is
-- no peer's token yet.
pub register_at-IsValid :
    (r : Registry) (node_id : Bytes) (now : ℕ) (random : Option Bytes)
    → IsValid r
    → IsFresh r random
    → IsValid (register_at r node_id now random).0
register_at-IsValid r node_id now random v fresh = elim (str_dec (trim_space node_id) []) [
  | yes h ↦ rw (register_blank r node_id now random h) v
  | no h ↦
      rw (register_named r node_id now random h)
        (register_trimmed-IsValid r (trim_space node_id) now random v fresh)
]
