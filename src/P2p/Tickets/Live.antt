-- ===== src/P2p/Tickets/Live.antt =====
-- Which tickets the manager honours.
use xray_mesh.Base.{
  ℕ, ◌+◌, ◌<◌, ◌≡◌, ◌≢◌, ◌↔◌, ◌⊎◌, refl, sym, ap, ◌∙◌, subst, inl, inr, arith, Bool, true, false,
  not, ◌&&◌, ◌||◌, Option, none, some, [], ◌∷◌, Option-cases, Bool-cases, lt→ltb, ltb,
  if◌then◌else◌, ok, All,
}
use xray_mesh.Base.Maps.{
  Map, lookup, insert, keep_if, Unique, lookup-keep_if, lookup-insert, keep_if-Unique,
  insert-Unique,
}
use xray_mesh.P2p.Tickets.{
  ProbeTicket, TicketManager, str_eq, involves, of_pair, pair_found, prune_locked, issue_trimmed,
  issue, verify, forget_node,
}
use xray_mesh.P2p.Tickets.Names.{str_eq-false}
use xray_mesh.Text.{Bytes, str_dec}
use xray_mesh.Text.Hex.{encode_hex}
use xray_mesh.Text.Trim.Plain.{trim_space-encode_hex}
use xray_mesh.Text.Trim.{trim_space}

-- What a lookup finds after pruning.
abbrev pub live : ℕ → Option ProbeTicket → Option ProbeTicket
live now none = none
live now (some t) = if ltb now t.expires_at then some t else none

pub lookup-prune_locked :
    (m : TicketManager) (k : Bytes) (now : ℕ)
    → Unique str_dec m.tickets
    → lookup str_dec k (prune_locked now m).tickets ≡ live now (lookup str_dec k m.tickets)
unfolding prune_locked
lookup-prune_locked m k now u =
    lookup-keep_if str_dec (λ _ t. ltb now t.expires_at) k m.tickets u ∙ ground arith

-- The ticket is for these two nodes, in either order.
abbrev pub IsPair : Bytes → Bytes → ProbeTicket → Type 0
IsPair a b t =
    ((t.source_node ≡ a) × (t.target_node ≡ b)) ⊎ ((t.source_node ≡ b) × (t.target_node ≡ a))

of_pair-IsPair : (a b : Bytes) (t : ProbeTicket) → of_pair a b t ≡ true → IsPair a b t
of_pair-IsPair a b t e = elim (Bool-cases (str_eq t.source_node a && str_eq t.target_node b)) [
  | inl h ↦ inl (ground arith)
  | inr h ↦ inr (ground arith)
]

pair_found-live :
    (a b : Bytes) (now : ℕ) (t : ProbeTicket)
    → pair_found a b (live now (some t)) ≡ true
    → (now < t.expires_at) × (of_pair a b t ≡ true)
pair_found-live a b now t h = elim (Bool-cases (ltb now t.expires_at)) [
  | inl f ↦ (ground arith, rw f at h)
  | inr f ↦ absurd (let p : false ≡ true = rw f at h in cc)
]

guarded_true :
    (g x : Bool) (p q : TicketManager)
    → (let r : TicketManager × Bool = if g then (p, false) else (q, x) in r.1) ≡ true
    → (g ≡ false) × (x ≡ true)
guarded_true true x p q e = absurd (ground arith)
guarded_true false x p q e = (refl, e)

or4_false :
    (p q r s : Bool)
    → (p || q || r || s) ≡ false
    → (p ≡ false) × (q ≡ false) × (r ≡ false) × (s ≡ false)
or4_false p q r s e = ground arith

-- A stored ticket that has not expired and is for the pair of different, named nodes.
pub record IsLive (m : TicketManager) (token a b : Bytes) (now : ℕ) (t : ProbeTicket) : Type 0 where
  pub stored : lookup str_dec token m.tickets ≡ some t
  pub named : (token ≢ []) × (a ≢ []) × (b ≢ []) × (a ≢ b)
  pub unexpired : now < t.expires_at
  pub pair : IsPair a b t

module _ (m : TicketManager) (token node_a node_b : Bytes) (now : ℕ)
    (u : Unique str_dec m.tickets) where
  abbrev IsAccepted : Type 0
  IsAccepted = (verify m token node_a node_b now).1 ≡ true

  abbrev LiveTicket : ProbeTicket → Type 0
  LiveTicket = IsLive m (trim_space token) (trim_space node_a) (trim_space node_b) now

  abbrev found : Bool
  found =
      pair_found (trim_space node_a) (trim_space node_b)
        (lookup str_dec (trim_space token) (prune_locked now m).tickets)

  accepted :
      IsAccepted
      → ((trim_space token ≢ [])
          × (trim_space node_a ≢ [])
          × (trim_space node_b ≢ [])
          × (trim_space node_a ≢ trim_space node_b))
        × (found ≡ true)
  unfolding verify
  accepted e =
      let (g, x) = guarded_true _ found m (prune_locked now m) e in
      let (p, q, r, s) = or4_false _ _ _ _ g in
      ((str_eq-false _ _ p, str_eq-false _ _ q, str_eq-false _ _ r, str_eq-false _ _ s), x)

  verify_forth : IsAccepted → (t : ProbeTicket) × LiveTicket t
  verify_forth e =
      let (names, x) = accepted e in
      let law = lookup-prune_locked m (trim_space token) now u in
      elim (Option-cases (lookup str_dec (trim_space token) m.tickets)) [
        | inl h ↦ absurd (let y : false ≡ true = rw (law, h) at x in cc)
        | inr (t, h) ↦
            let (fresh, pair) = pair_found-live _ _ now t (rw (law, h) at x) in
            (
              t,
              record {
                stored = h;
                named = names;
                unexpired = fresh;
                pair = of_pair-IsPair _ _ t pair;
              },
            )
      ]

  -- For the pair of a stored ticket the answer is whether it has expired.
  verify_stored :
      (t : ProbeTicket)
      → lookup str_dec (trim_space token) m.tickets ≡ some t
      → (trim_space token ≢ [])
        × (trim_space node_a ≢ [])
        × (trim_space node_b ≢ [])
        × (trim_space node_a ≢ trim_space node_b)
      → IsPair (trim_space node_a) (trim_space node_b) t
      → (verify m token node_a node_b now).1 ≡ ltb now t.expires_at
  unfolding verify
  verify_stored t stored named pair = ground (
    arith,
    lookup-prune_locked m (trim_space token) now u,
    stored,
    named.0,
    named.1,
    named.2,
    named.3,
    pair,
  )

  verify_back : (t : ProbeTicket) → LiveTicket t → IsAccepted
  verify_back t h = verify_stored t h.stored h.named h.pair ∙ lt→ltb _ _ h.unexpired

  -- Verify accepts exactly a stored ticket that has not expired and is for the pair of different,
  -- named nodes, in either order. The store holds each token once.
  pub verify_iff : ((verify m token node_a node_b now).1 ≡ true) ↔ (
      (t : ProbeTicket) × IsLive m (trim_space token) (trim_space node_a) (trim_space node_b) now t)
  verify_iff = (verify_forth, λ t. verify_back t.0 t.1)

prune_locked-Unique :
    (m : TicketManager) (now : ℕ)
    → Unique str_dec m.tickets
    → Unique str_dec (prune_locked now m).tickets
unfolding prune_locked
prune_locked-Unique m now u = keep_if-Unique str_dec _ m.tickets u

lookup-insert_self :
    (k : Bytes) (t : ProbeTicket) (ts : Map Bytes ProbeTicket)
    → lookup str_dec k (insert str_dec k t ts) ≡ some t
lookup-insert_self k t ts = ground (arith, lookup-insert str_dec k k t ts)

-- What Issue stores.
pub record Issued (m m' : TicketManager) (source target token : Bytes) (now : ℕ) (t : ProbeTicket)
    : Type 0 where
  pub named : (source ≢ []) × (target ≢ []) × (source ≢ target)
  pub value : t ≡ record {
    ticket = token;
    source_node = source;
    target_node = target;
    issued_at = now;
    expires_at = now + m.ttl;
  }
  pub tickets : m'.tickets ≡ insert str_dec token t (prune_locked now m).tickets

issue_inv :
    (m m' : TicketManager) (source target : Bytes) (now : ℕ) (bytes : Bytes) (t : ProbeTicket)
    → issue m source target now (some bytes) ≡ (m', ok t)
    → Issued m m' (trim_space source) (trim_space target) (encode_hex bytes) now t
unfolding issue issue_trimmed
issue_inv m m' source target now bytes t e = record {
  named = ground arith;
  value = ground arith;
  tickets = ground arith;
}

encode_hex_some : (bytes : Bytes) → bytes ≢ [] → encode_hex bytes ≢ []
unfolding encode_hex
encode_hex_some [] h = absurd (h refl)
encode_hex_some (b ∷ bs) h = λ e. cc

-- A ticket that Issue returns, for a token of at least one random byte, is honoured for both
-- orders of its nodes as long as the time is before its issue plus the time to live, and no
-- longer. The store holds each token once.
pub verify-issue :
    (m m' : TicketManager) (source target : Bytes) (now later : ℕ) (bytes : Bytes) (t : ProbeTicket)
    → All (λ b. b < 256) bytes
    → bytes ≢ []
    → Unique str_dec m.tickets
    → issue m source target now (some bytes) ≡ (m', ok t)
    → ((verify m' t.ticket source target later).1 ≡ ltb later (now + m.ttl))
      × ((verify m' t.ticket target source later).1 ≡ ltb later (now + m.ttl))
verify-issue m m' source target now later bytes t small some_bytes u e =
    let token = encode_hex bytes in
    let i = issue_inv m m' source target now bytes t e in
    let plain = trim_space-encode_hex bytes small in
    let u' : Unique str_dec m'.tickets =
      subst (Unique str_dec) (sym i.tickets)
        (insert-Unique str_dec token t _ (prune_locked-Unique m now u)) in
    let here : lookup str_dec token m'.tickets ≡ some t =
      ap (lookup str_dec token) i.tickets
      ∙ lookup-insert_self token t (prune_locked now m).tickets in
    let (p, q, r) = i.named in
    let ek : t.ticket ≡ token = ap (λ x. x.ticket) i.value in
    let es : t.source_node ≡ trim_space source = ap (λ x. x.source_node) i.value in
    let et : t.target_node ≡ trim_space target = ap (λ x. x.target_node) i.value in
    let ee : t.expires_at ≡ now + m.ttl = ap (λ x. x.expires_at) i.value in
    let ep : trim_space t.ticket ≡ token = ap trim_space ek ∙ plain in
    let stored : lookup str_dec (trim_space t.ticket) m'.tickets ≡ some t =
      ap (λ k. lookup str_dec k m'.tickets) ep ∙ here in
    let nonempty : trim_space t.ticket ≢ [] = λ z. encode_hex_some bytes some_bytes (sym ep ∙ z) in
    (
      verify_stored m' t.ticket source target later u' t stored (nonempty, p, q, r) (inl (es, et))
          ∙ ap (ltb later) ee,
      verify_stored m' t.ticket target source later u' t stored (nonempty, q, p, λ z. r (sym z))
            (inr (es, et))
          ∙ ap (ltb later) ee,
    )

forget_forth :
    (node token : Bytes) (t : ProbeTicket) (ts : Map Bytes ProbeTicket)
    → Unique str_dec ts
    → lookup str_dec token (keep_if (λ _ t. not (involves node t)) ts) ≡ some t
    → (lookup str_dec token ts ≡ some t) × (t.source_node ≢ node) × (t.target_node ≢ node)
forget_forth node token t ts u e =
    ground (arith, lookup-keep_if str_dec (λ _ t. not (involves node t)) token ts u)

forget_back :
    (node token : Bytes) (t : ProbeTicket) (ts : Map Bytes ProbeTicket)
    → Unique str_dec ts
    → lookup str_dec token ts ≡ some t
    → t.source_node ≢ node
    → t.target_node ≢ node
    → lookup str_dec token (keep_if (λ _ t. not (involves node t)) ts) ≡ some t
forget_back node token t ts u e p q =
    ground (arith, lookup-keep_if str_dec (λ _ t. not (involves node t)) token ts u)

forget_node_named :
    (m : TicketManager) (node_id : Bytes)
    → trim_space node_id ≢ []
    → forget_node m node_id
      ≡ record m { tickets = keep_if (λ _ t. not (involves (trim_space node_id) t)) m.tickets }
unfolding forget_node
forget_node_named m node_id named = ground arith

-- After ForgetNode of a name that is not blank, the stored tickets are those of before that do not
-- name the node. The store holds each token once.
pub forget_node_lem :
    (m : TicketManager) (node_id token : Bytes) (t : ProbeTicket)
    → Unique str_dec m.tickets
    → trim_space node_id ≢ []
    → let node = trim_space node_id in
      (lookup str_dec token (forget_node m node_id).tickets ≡ some t) ↔ (
        (lookup str_dec token m.tickets ≡ some t) × (t.source_node ≢ node) × (t.target_node ≢ node))
forget_node_lem m node_id token t u named =
    let node = trim_space node_id in
    let same = forget_node_named m node_id named in
    (
      λ e.
          forget_forth node token t m.tickets u
            (ap (λ x. lookup str_dec token x.tickets) (sym same) ∙ e),
      λ e.
          ap (λ x. lookup str_dec token x.tickets) same
          ∙ forget_back node token t m.tickets u e.0 e.1 e.2,
    )
