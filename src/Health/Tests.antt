-- ===== src/Health/Tests.antt =====
-- A tracker with one service, and the theorem at it.
use xray_mesh.Base.{◌≡◌, refl, true, false, none, []}
use xray_mesh.Health.{
  Snapshot, state_running, zero_counters, new_tracker, initial_service, set_service, set_mesh,
  snapshot, service_healthy, healthy, healthz_status,
}

abbrev running : Snapshot
unfolding set_mesh set_service new_tracker initial_service
running = set_mesh (new_tracker [] [] [] true false 5) state_running none

serves : healthz_status running zero_counters ≡ 200
unfolding running set_mesh set_service new_tracker initial_service snapshot service_healthy healthy
    healthz_status
serves = refl
