-- ===== src/Client/Replay/Once.antt =====
-- Sequences of calls of the replay cache.
use xray_mesh.Base.{
  ℕ, ◌<◌, ◌≡◌, ap, ◌∙◌, arith, Bool, true, false, Option, none, some, Option-cases, inl, inr, All,
  List, [], ◌∷◌, ltb, if◌then◌else◌,
}
use xray_mesh.Base.Maps.{
  lookup, insert, kept, Unique, lookup-keep_if, lookup-insert, keep_if-Unique, insert-Unique,
}
use xray_mesh.Client.Replay.{
  ReplayCache, bounded_expiry, prune_replays, accept_new, accept_direct_replay_key,
}
use xray_mesh.Text.{Bytes, str_dec}

abbrev pub unexpired : ℕ → Option ℕ → Option ℕ
unexpired now none = none
unexpired now (some expiry) = if ltb now expiry then some expiry else none

lookup-prune_replays :
    (m : ReplayCache) (k : Bytes) (now : ℕ)
    → Unique str_dec m
    → lookup str_dec k (prune_replays m now) ≡ unexpired now (lookup str_dec k m)
unfolding prune_replays
lookup-prune_replays m k now u = lookup-keep_if str_dec (λ _ e. ltb now e) k m u ∙ ground arith

prune_replays-Unique :
    (m : ReplayCache) (now : ℕ) → Unique str_dec m → Unique str_dec (prune_replays m now)
unfolding prune_replays
prune_replays-Unique m now u = keep_if-Unique str_dec _ m u

-- A call of the cache: the key, the expiry of its ticket, and the time.
pub record Call : Type 0 where
  pub key : Bytes
  pub expires_at : ℕ
  pub now : ℕ

abbrev pub call : ReplayCache → Call → ReplayCache × Bool
call m c = accept_direct_replay_key m c.key c.expires_at c.now

unfoldable pub run : ReplayCache → List Call → ReplayCache
run m [] = m
run m (c ∷ cs) = run (call m c).0 cs

-- The outcome of a call for an unknown key and for a known one.
call_new :
    (m : ReplayCache) (c : Call)
    → lookup str_dec c.key (prune_replays m c.now) ≡ none
    → call m c
      ≡ (insert str_dec c.key (bounded_expiry c.expires_at c.now) (prune_replays m c.now), true)
unfolding accept_direct_replay_key
call_new m c e = rw (e, accept_direct_replay_key, accept_new)

call_known :
    (m : ReplayCache) (c : Call) {x : ℕ}
    → lookup str_dec c.key (prune_replays m c.now) ≡ some x
    → call m c ≡ (prune_replays m c.now, false)
unfolding accept_direct_replay_key
call_known m c e = rw (e, accept_direct_replay_key, accept_new)

pub call-Unique : (m : ReplayCache) (c : Call) → Unique str_dec m → Unique str_dec (call m c).0
call-Unique m c u = elim (Option-cases (lookup str_dec c.key (prune_replays m c.now))) [
  | inl e ↦
      rw (call_new m c e)
        (insert-Unique str_dec c.key _ (prune_replays m c.now) (prune_replays-Unique m c.now u))
  | inr (x, e) ↦ rw (call_known m c e) (prune_replays-Unique m c.now u)
]

-- An entry outlives every call before its expiry.
call_keeps :
    (m : ReplayCache) (c : Call) (key : Bytes) (expiry : ℕ)
    → Unique str_dec m
    → c.now < expiry
    → lookup str_dec key m ≡ some expiry
    → lookup str_dec key (call m c).0 ≡ some expiry
call_keeps m c key expiry u lt e =
    let pruned : lookup str_dec key (prune_replays m c.now) ≡ some expiry =
      ground (arith, lookup-prune_replays m key c.now u) in
    elim (Option-cases (lookup str_dec c.key (prune_replays m c.now))) [
      | inl f ↦ rw (call_new m c f) (
          ground (
            arith,
            pruned,
            lookup-insert str_dec c.key key (bounded_expiry c.expires_at c.now)
                (prune_replays m c.now),
          ))
      | inr (x, f) ↦ rw (call_known m c f) pruned
    ]

run_keeps :
    (m : ReplayCache) (cs : List Call) (key : Bytes) (expiry : ℕ)
    → Unique str_dec m
    → All (λ c. c.now < expiry) cs
    → lookup str_dec key m ≡ some expiry
    → Unique str_dec (run m cs) × (lookup str_dec key (run m cs) ≡ some expiry)
unfolding run
run_keeps m [] key expiry u h e = (u, e)
run_keeps m (c ∷ cs) key expiry u h e =
    run_keeps (call m c).0 cs key expiry (call-Unique m c u) h.1 (call_keeps m c key expiry u h.0 e)

-- A key that was accepted is refused at every time before its expiry, whatever other calls came
-- before that expiry in between, and whatever expiry the replay claims. The cache holds each key
-- once.
pub replay_refused :
    (m : ReplayCache) (c : Call) (between : List Call) (again now : ℕ)
    → Unique str_dec m
    → (call m c).1 ≡ true
    → All (λ d. d.now < bounded_expiry c.expires_at c.now) between
    → now < bounded_expiry c.expires_at c.now
    → (call (run (call m c).0 between) (record { key = c.key; expires_at = again; now = now })).1
      ≡ false
replay_refused m c between again now u accepted h lt =
    elim (Option-cases (lookup str_dec c.key (prune_replays m c.now))) [
      | inr (x, e) ↦ absurd (ground (arith, call_known m c e))
      | inl e ↦
          let expiry = bounded_expiry c.expires_at c.now in
          let s = (call m c).0 in
          let here : lookup str_dec c.key s ≡ some expiry =
            rw (call_new m c e)
              (ground (arith, lookup-insert str_dec c.key c.key expiry (prune_replays m c.now))) in
          let (u', kept) = run_keeps s between c.key expiry (call-Unique m c u) h here in
          let known : lookup str_dec c.key (prune_replays (run s between) now) ≡ some expiry =
            ground (arith, lookup-prune_replays (run s between) c.key now u') in
          ap (λ r. r.1)
            (call_known (run s between) (record { key = c.key; expires_at = again; now = now })
              known)
    ]

-- A key that no unexpired entry bears is accepted. The cache holds each key once.
pub new_key_accepted :
    (m : ReplayCache) (c : Call)
    → Unique str_dec m
    → unexpired c.now (lookup str_dec c.key m) ≡ none
    → (call m c).1 ≡ true
new_key_accepted m c u e = ap (λ r. r.1) (call_new m c (lookup-prune_replays m c.key c.now u ∙ e))
