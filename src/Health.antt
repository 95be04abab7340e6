-- ===== src/Health.antt =====
-- internal/health/status.go: the tracker of the two services. The mutex makes a method one step.
mod Tests
use xray_mesh.Base.{
  ℕ, ◌≡◌, ◌↔◌, ◌⊎◌, inl, inr, refl, arith, Bool-cases, Bool, true, false, not, ◌&&◌, Option, none,
  some, [], if◌then◌else◌,
}
use xray_mesh.Telemetry.{P2pCounters}
use xray_mesh.Text.{Bytes}

pub data State : Type 0 where
  state_disabled state_starting state_running state_stopped state_failed : State

pub record ServiceStatus : Type 0 where
  pub enabled : Bool
  pub state : State
  pub error : Bytes

pub record Snapshot : Type 0 where
  pub node_id : Bytes
  pub virtual_ip : Bytes
  pub network_prefix : Bytes
  pub started_at : ℕ
  pub mesh : ServiceStatus
  pub xray : ServiceStatus
  pub p2p : P2pCounters

abbrev pub zero_counters : P2pCounters
zero_counters = record {
  direct_healthy_marks = 0;
  direct_tx = 0;
  direct_rx = 0;
  direct_fallbacks = 0;
  replay_drops = 0;
}

unfoldable pub initial_service : Bool → ServiceStatus
initial_service enabled =
    if not enabled
    then record { enabled = false; state = state_disabled; error = [] }
    else record { enabled = true; state = state_starting; error = [] }

unfoldable pub new_tracker : Bytes → Bytes → Bytes → Bool → Bool → ℕ → Snapshot
unfolding initial_service
new_tracker node_id virtual_ip network_prefix mesh_enabled xray_enabled now = record {
  node_id = node_id;
  virtual_ip = virtual_ip;
  network_prefix = network_prefix;
  started_at = now;
  mesh = initial_service mesh_enabled;
  xray = initial_service xray_enabled;
  p2p = zero_counters;
}

-- The text of an error, empty for nil.
abbrev pub error_text : Option Bytes → Bytes
error_text none = []
error_text (some text) = text

unfoldable pub set_service : ServiceStatus → State → Option Bytes → ServiceStatus
set_service service state error = record service { state = state; error = error_text error }

unfoldable pub set_mesh : Snapshot → State → Option Bytes → Snapshot
unfolding set_service
set_mesh t state error = record t { mesh = set_service t.mesh state error }

unfoldable pub set_xray : Snapshot → State → Option Bytes → Snapshot
unfolding set_service
set_xray t state error = record t { xray = set_service t.xray state error }

unfoldable pub snapshot : Snapshot → P2pCounters → Snapshot
snapshot t counters = record t { p2p = counters }

abbrev pub is_running : State → Bool
is_running state_running = true
is_running _ = false

unfoldable pub service_healthy : ServiceStatus → Bool
service_healthy service = if not service.enabled then true else is_running service.state

unfoldable pub healthy : Snapshot → P2pCounters → Bool
unfolding service_healthy snapshot
healthy t counters =
    service_healthy (snapshot t counters).mesh && service_healthy (snapshot t counters).xray

-- The status code of GET /healthz.
unfoldable pub healthz_status : Snapshot → P2pCounters → ℕ
unfolding healthy
healthz_status t counters = if not (healthy t counters) then 503 else 200

-- A service counts as healthy if it is disabled or runs.
abbrev pub Fine : ServiceStatus → Type 0
Fine s = (s.enabled ≡ false) ⊎ (s.state ≡ state_running)

fine_cases :
    (enabled : Bool) (state : State)
    → (if not enabled then true else is_running state) ≡ true
    → (enabled ≡ false) ⊎ (state ≡ state_running)
fine_cases false state e = inl refl
fine_cases true state_running e = inr refl
fine_cases true state_disabled e = cc
fine_cases true state_starting e = cc
fine_cases true state_stopped e = cc
fine_cases true state_failed e = cc

service_healthy-Fine : (s : ServiceStatus) → (service_healthy s ≡ true) ↔ Fine s
unfolding service_healthy
service_healthy-Fine s = (λ e. fine_cases s.enabled s.state e, λ f. ground arith)

both : (a b : Bool) → (a && b) ≡ true → (a ≡ true) × (b ≡ true)
both a b e = ground arith

-- GET /healthz answers 200 exactly if each service is disabled or running, and 503 otherwise,
-- whatever the counters are.
pub healthz_status_iff :
    (t : Snapshot) (c : P2pCounters)
    → ((healthz_status t c ≡ 200) ↔ (Fine t.mesh × Fine t.xray))
      × ((healthz_status t c ≡ 200) ⊎ (healthz_status t c ≡ 503))
unfolding healthz_status
healthz_status_iff t c =
    let m = service_healthy-Fine t.mesh in
    let x = service_healthy-Fine t.xray in
    (
      (
        λ e.
            let (p, q) = both (service_healthy t.mesh) (service_healthy t.xray) (ground arith) in
            (m.0 p, x.0 q),
        λ f. ground (arith, m.1 f.0, x.1 f.1),
      ),
      elim (Bool-cases (service_healthy t.mesh && service_healthy t.xray)) [
        | inl e ↦ inl (ground arith)
        | inr e ↦ inr (ground arith)
      ],
    )
