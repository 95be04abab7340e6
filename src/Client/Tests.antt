-- ===== src/Client/Tests.antt =====
-- Replays and heartbeats, and the theorems at them.
use xray_mesh.Base.{◌≡◌, refl, arith, true, false, List, [], ◌∷◌, ℕ_discrete}
use xray_mesh.Base.Maps.{lookup, insert, keep_if}
use xray_mesh.Client.Heartbeat.{
  Reply, no_response, status, HeartbeatError, heartbeat_failed, beating, given_up, send_heartbeat,
  tick, heartbeat_loop,
}
use xray_mesh.Client.Heartbeat.Failures.{ThreeFail, heartbeat_loop_three}
use xray_mesh.Client.Replay.{accept_direct_replay_key, prune_replays}
use xray_mesh.Client.Replay.Once.{Call, call, run, replay_refused}
use xray_mesh.Text.{codes, str_dec}

program : Unit {0}
unfolding ℕ_discrete lookup insert keep_if str_dec prune_replays accept_direct_replay_key run
    send_heartbeat tick heartbeat_loop
program = tt

abbrev first_call : Call
first_call = record { key = codes "k"; expires_at = 100; now = 10 }

abbrev other_call : Call
other_call = record { key = codes "l"; expires_at = 100; now = 20 }

first_accepted : (call [] first_call).1 ≡ true
unfolding program
first_accepted = refl

replay_refused_example :
    (call
      (run (call [] first_call).0 (other_call ∷ []))
      (record { key = codes "k"; expires_at = 500; now = 99 })).1
    ≡ false
replay_refused_example =
    replay_refused [] first_call (other_call ∷ []) 500 99 tt first_accepted (omega arith, tt)
      (omega arith)

-- A success between two failures starts the count again.
recovered :
    heartbeat_loop (beating 0) (no_response ∷ status 500 ∷ status 204 ∷ no_response ∷ [])
    ≡ beating 1
unfolding program
recovered = refl

abbrev three_failures : List Reply
three_failures = status 200 ∷ no_response ∷ status 500 ∷ no_response ∷ []

heartbeat_loop_three_example :
    (heartbeat_loop (beating 0) three_failures ≡ given_up heartbeat_failed
      → ThreeFail three_failures)
    × (ThreeFail three_failures
        → (e : HeartbeatError) × (heartbeat_loop (beating 0) three_failures ≡ given_up e))
heartbeat_loop_three_example = heartbeat_loop_three three_failures
