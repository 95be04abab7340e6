-- ===== src/Client/Replay.antt =====
-- cmd/client/direct_replay.go: the cache of one runtime. The mutex makes a call one step.
pub mod Once
use xray_mesh.Base.{
  ℕ, ◌+◌, Bool, true, false, not, ◌||◌, Option, none, some, ltb, ◌==◌, if◌then◌else◌,
}
use xray_mesh.Base.Maps.{Map, lookup, insert, keep_if}
use xray_mesh.Text.{Bytes, str_dec}

-- The keys that were accepted, each with its expiry.
abbrev pub ReplayCache : Type 0
ReplayCache = Map Bytes ℕ

-- The expiry of a ticket, or 30 seconds from now if it has none or is past it.
abbrev pub bounded_expiry : ℕ → ℕ → ℕ
bounded_expiry expires_at now =
    if expires_at == 0 || not (ltb now expires_at) then now + 30_000_000_000 else expires_at

unfoldable pub prune_replays : ReplayCache → ℕ → ReplayCache
prune_replays entries now = keep_if (λ _ expiry. ltb now expiry) entries

abbrev pub accept_new : ReplayCache → Bytes → ℕ → Option ℕ → ReplayCache × Bool
accept_new entries key expiry none = (insert str_dec key expiry entries, true)
accept_new entries key expiry (some _) = (entries, false)

unfoldable pub accept_direct_replay_key : ReplayCache → Bytes → ℕ → ℕ → ReplayCache × Bool
unfolding prune_replays
accept_direct_replay_key entries key expires_at now =
    let pruned = prune_replays entries now in
    accept_new pruned key (bounded_expiry expires_at now) (lookup str_dec key pruned)
