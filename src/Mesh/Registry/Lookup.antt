-- ===== src/Mesh/Registry/Lookup.antt =====
-- The ways to find a peer, after Register and TouchByToken.
use xray_mesh.Base.{
  ℕ, ◌≡◌, refl, sym, ap, subst, ◌∙◌, ◌≢◌, inl, inr, ◌⊎◌, Option, none, some, [], arith,
  Option-cases, Result, ok, err,
}
use xray_mesh.Base.Maps.{lookup, lookup-insert}
use xray_mesh.Mesh.Allocator.{AllocatorError, Allocator, allocate}
use xray_mesh.Mesh.Registry.{
  Peer, Registry, seen, register_leased, register_trimmed, register_at, get, get_by_virtual_ip,
  get_by_token, touch_by_token, touch_found,
}
use xray_mesh.Mesh.Registry.Invariant.{IsValid, seen-IsValid}
use xray_mesh.Mesh.Registry.Register.{IsFresh, register_at-IsValid, register_named, register_blank}
use xray_mesh.Netip.{Addr}
use xray_mesh.Text.{Bytes, str_dec}
use xray_mesh.Text.Trim.{trim_space}

-- A peer is found by its name, by its address and by its token.
abbrev pub Found : Registry → Peer → Type 0
Found r p =
    (get r p.node_id ≡ some p)
    × (get_by_virtual_ip r p.virtual_ip ≡ some p)
    × (get_by_token r p.session_token ≡ some p)

pub Found-of_entry :
    (r : Registry) (k : Bytes) (p : Peer)
    → IsValid r
    → lookup str_dec k r.peers ≡ some p
    → Found r p
unfolding get get_by_virtual_ip get_by_token
Found-of_entry r k p v e =
    (ground (arith, v.id k p), ground (arith, v.ip_known k p), ground (arith, v.token_known k p))

register_leased_entry :
    (r : Registry) (n : Bytes) (now : ℕ) (random : Option Bytes) (s : Registry) (p : Peer)
    (x : Allocator × Result AllocatorError Addr)
    → register_leased r n now random x ≡ (s, ok p)
    → (lookup str_dec n s.peers ≡ some p) × (p.last_seen ≡ now)
unfolding register_leased
register_leased_entry r n now random s p (a, err x) e = absurd (ground arith)
register_leased_entry r n now none s p (a, ok ip) e = absurd (ground arith)
register_leased_entry r n now (some b) s p (a, ok ip) e =
    ground (arith, lookup-insert str_dec n n p r.peers)

register_trimmed_entry :
    (r : Registry) (n : Bytes) (now : ℕ) (random : Option Bytes) (s : Registry) (p : Peer)
    → register_trimmed r n now random ≡ (s, ok p)
    → (lookup str_dec n s.peers ≡ some p) × (p.last_seen ≡ now)
unfolding register_trimmed
register_trimmed_entry r n now random s p e = elim (Option-cases (lookup str_dec n r.peers)) [
  | inr (q, old) ↦ ground (arith, lookup-insert str_dec n n (record q { last_seen = now }) r.peers)
  | inl new ↦ register_leased_entry r n now random s p (allocate r.allocator n) (ground arith)
]

register_at_entry :
    (r : Registry) (n : Bytes) (now : ℕ) (random : Option Bytes) (s : Registry) (p : Peer)
    → register_at r n now random ≡ (s, ok p)
    → (trim_space n ≢ []) × (lookup str_dec (trim_space n) s.peers ≡ some p) × (p.last_seen ≡ now)
register_at_entry r n now random s p e = elim (str_dec (trim_space n) []) [
  | yes h ↦ absurd (ground (arith, register_blank r n now random h))
  | no h ↦
      let (x, y) =
        register_trimmed_entry r (trim_space n) now random s p
          (sym (register_named r n now random h) ∙ e) in
      (h, x, y)
]

-- A peer that Register on a consistent registry returns bears the trimmed name and the time of the
-- call, and is found by its name, its address and its token. The premise is that a new token is no
-- peer's token yet.
pub register_finds :
    (r s : Registry) (node_id : Bytes) (now : ℕ) (random : Option Bytes) (p : Peer)
    → IsValid r
    → IsFresh r random
    → register_at r node_id now random ≡ (s, ok p)
    → Found s p × (p.node_id ≡ trim_space node_id) × (p.last_seen ≡ now)
register_finds r s node_id now random p v fresh e =
    let (_, x, y) = register_at_entry r node_id now random s p e in
    let w : IsValid s =
      subst IsValid (ap (λ t. t.0) e) (register_at-IsValid r node_id now random v fresh) in
    (Found-of_entry s (trim_space node_id) p w x, w.id (trim_space node_id) p x, y)

register_trimmed_known :
    (s : Registry) (k : Bytes) (later : ℕ) (other : Option Bytes) (p : Peer)
    → lookup str_dec k s.peers ≡ some p
    → register_trimmed s k later other ≡ (seen s k p later, ok (record p { last_seen = later }))
unfolding register_trimmed
register_trimmed_known s k later other p e = rw (e, register_trimmed)

-- A second registration under a name that trims to the same changes the time of the peer and
-- nothing else: the address and the token stay, whatever the random source gives.
pub register_again :
    (r s : Registry) (m n : Bytes) (now later : ℕ) (random other : Option Bytes) (p : Peer)
    → register_at r n now random ≡ (s, ok p)
    → trim_space m ≡ trim_space n
    → register_at s m later other
      ≡ (seen s (trim_space n) p later, ok (record p { last_seen = later }))
register_again r s m n now later random other p e same =
    let (h, x, _) = register_at_entry r n now random s p e in
    register_named s m later other (λ z. h (sym same ∙ z))
    ∙ ap (λ k. register_trimmed s k later other) same
    ∙ register_trimmed_known s (trim_space n) later other p x

module _ (r : Registry) (token : Bytes) where
  get_by_token-none : lookup str_dec token r.by_token ≡ none → get_by_token r token ≡ none
  unfolding get_by_token
  get_by_token-none e = rw (e, get_by_token)

  touch_none :
      (now : ℕ) → lookup str_dec token r.by_token ≡ none → touch_by_token r token now ≡ (r, none)
  unfolding touch_by_token
  touch_none now e = rw (e, touch_by_token)

  get_by_token_known :
      (k : Bytes) (p : Peer)
      → lookup str_dec token r.by_token ≡ some k
      → lookup str_dec k r.peers ≡ some p
      → get_by_token r token ≡ some p
  unfolding get_by_token
  get_by_token_known k p e f = rw (e, get_by_token, f)

  touch_known :
      (k : Bytes) (now : ℕ) (p : Peer)
      → lookup str_dec token r.by_token ≡ some k
      → lookup str_dec k r.peers ≡ some p
      → touch_by_token r token now ≡ (seen r k p now, some (record p { last_seen = now }))
  unfolding touch_by_token
  touch_known k now p e f = rw (e, touch_by_token, f, touch_found)

-- On a consistent registry, TouchByToken with the token of a live peer sets its time, so that the
-- peer is found with it, and leaves every other peer alone; with any other token it changes
-- nothing.
pub touch_by_token_lem :
    (r : Registry) (token : Bytes) (now : ℕ)
    → IsValid r
    → let s = (touch_by_token r token now).0 in
      ((get_by_token r token ≡ none) × (touch_by_token r token now ≡ (r, none)))
      ⊎ ((p : Peer) × (get_by_token r token ≡ some p)
          × ((touch_by_token r token now).1 ≡ some (record p { last_seen = now }))
          × Found s (record p { last_seen = now })
          × ((k : Bytes) → k ≢ p.node_id → get s k ≡ get r k))
touch_by_token_lem r token now v = elim (Option-cases (lookup str_dec token r.by_token)) [
  | inl e ↦ inl (get_by_token-none r token e, touch_none r token now e)
  | inr (k, e) ↦
      let (p, f, g) = v.of_token token k e in
      let p' : Peer = record p { last_seen = now } in
      let law = λ (j : Bytes). lookup-insert str_dec k j p' r.peers in
      let w = seen-IsValid r k p now f v in
      rw (touch_known r token k now p e f) (
        inr (
          p,
          get_by_token_known r token k p e f,
          refl,
          Found-of_entry (seen r k p now) k p' w (ground (arith, law k)),
          λ j ne. unfold get in ground (arith, law j, v.id k p f),
        ))
]
