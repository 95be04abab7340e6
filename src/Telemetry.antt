-- ===== src/Telemetry.antt =====
-- internal/telemetry/p2p.go: five atomic 64-bit counters, which wrap.
use xray_mesh.Base.{ℕ, ◌+◌, ◌%◌, ◌^◌}

-- The counters, and the snapshot of them: each is read by itself.
pub record P2pCounters : Type 0 where
  pub direct_healthy_marks : ℕ
  pub direct_tx : ℕ
  pub direct_rx : ℕ
  pub direct_fallbacks : ℕ
  pub replay_drops : ℕ

abbrev pub add_one : ℕ → ℕ
add_one n = (n + 1) % 2 ^ 64

unfoldable pub inc_direct_healthy : P2pCounters → P2pCounters
inc_direct_healthy c = record c { direct_healthy_marks = add_one c.direct_healthy_marks }

unfoldable pub inc_direct_tx : P2pCounters → P2pCounters
inc_direct_tx c = record c { direct_tx = add_one c.direct_tx }

unfoldable pub inc_direct_rx : P2pCounters → P2pCounters
inc_direct_rx c = record c { direct_rx = add_one c.direct_rx }

unfoldable pub inc_direct_fallback : P2pCounters → P2pCounters
inc_direct_fallback c = record c { direct_fallbacks = add_one c.direct_fallbacks }

unfoldable pub inc_replay_drop : P2pCounters → P2pCounters
inc_replay_drop c = record c { replay_drops = add_one c.replay_drops }
