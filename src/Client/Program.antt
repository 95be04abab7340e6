-- ===== src/Client/Program.antt =====
-- cmd/client/main.go: the checks of the flags, the answer to a registration, the checks of runTUN
-- and the select loop of run. The texts of errors are bytes; what the packages of the standard
-- library and the device answer are arguments.
pub mod Supervisor
use xray_mesh.Base.{
  ℕ, ℤ, pos, negsuc, suc, zero, Bool, true, false, not, ◌&&◌, ◌||◌, Option, none, some, [], ltb,
  leb, ◌==◌, if◌then◌else◌, Result, ok, err, ◌>>=◌, ◌>>◌, fail_if,
}
use xray_mesh.Health.{
  Snapshot, State, state_running, state_stopped, state_failed, set_mesh, set_xray,
}
use xray_mesh.Netip.{Addr, Prefix, contains}
use xray_mesh.P2p.Tickets.{str_eq}
use xray_mesh.Text.{Bytes}
use xray_mesh.Text.Trim.{trim_space}

-- The flags that are checked.
pub record Flags : Type 0 where
  pub node_id : Bytes
  pub enable_tun : Bool
  pub discovery_overlay : Bool
  pub p2p_probe : Bool
  pub xray_config : Bytes
  pub full_tunnel : Bool
  pub xray_tun_mtu : ℤ

-- `exited` has the service that ended by itself, `failed` the text of its error.
pub data Service : Type 0 where
  heartbeat mesh_tun xray status_server : Service

pub data RunError : Type 0 where
  node_required tunnel_needs_config overlay_needs_tun probe_needs_tun mtu_not_positive : RunError
  request_failed decode_failed bad_virtual_ip bad_prefix ip_outside : RunError
  bad_status : ℕ → RunError
  exited : Service → RunError
  failed : Service → Bytes → RunError

abbrev pub is_positive : ℤ → Bool
is_positive (pos (suc n)) = true
is_positive _ = false

unfoldable pub check_flags : Flags → Result RunError (Unit {0})
check_flags f = do
  fail_if (str_eq (trim_space f.node_id) []) node_required
  fail_if (f.full_tunnel && str_eq (trim_space f.xray_config) []) tunnel_needs_config
  fail_if (f.discovery_overlay && not f.enable_tun) overlay_needs_tun
  fail_if (f.p2p_probe && not f.enable_tun) probe_needs_tun
  fail_if (not (is_positive f.xray_tun_mtu)) mtu_not_positive
  ok tt

-- mesh.RegistrationView, as far as the client reads it.
pub record Registration : Type 0 where
  pub node_id : Bytes
  pub virtual_ip : Bytes
  pub network_prefix : Bytes
  pub session_token : Bytes

-- The response to the request, if there is one: its status and its decoded body.
abbrev pub decoded : Option Registration → Result RunError Registration
decoded none = err decode_failed
decoded (some view) = ok view

unfoldable pub register_reply : Option (ℕ × Option Registration) → Result RunError Registration
register_reply none = err request_failed
register_reply (some (status, body)) =
    if ltb status 200 || leb 300 status then err (bad_status status) else decoded body

abbrev pub or_error {ℓ} : {A : Type ℓ} → Option A → RunError → Result RunError A
or_error none e = err e
or_error (some a) e = ok a

-- The checks of runTUN: the node's address and its prefix, as they were parsed.
unfoldable pub tun_addresses : Option Addr → Option Prefix → Result RunError (Addr × Prefix)
tun_addresses parsed_ip parsed_prefix = do
  ip ← or_error parsed_ip bad_virtual_ip
  p ← or_error parsed_prefix bad_prefix
  fail_if (not (contains p ip)) ip_outside
  ok (ip, p)

-- What the select loop receives; the error of a service that has ended is `none` for nil.
pub data RunEvent : Type 0 where
  context_done : RunEvent
  ended : Service → Option Bytes → RunEvent

-- What a service's end leaves in the tracker.
abbrev pub track : Snapshot → Service → State → Option Bytes → Snapshot
track t mesh_tun state e = set_mesh t state e
track t xray state e = set_xray t state e
track t heartbeat state e = t
track t status_server state e = t

-- The result of a service's end without an error.
abbrev pub quiet_end : Bool → Service → Result RunError (Unit {0})
quiet_end true s = ok tt
quiet_end false s = err (exited s)

unfoldable pub handle_end :
    Bool → Snapshot → Service → Option Bytes → Snapshot × Result RunError (Unit {0})
unfolding set_mesh set_xray
handle_end context_over t s (some e) = (track t s state_failed (some e), err (failed s e))
handle_end context_over t s none = (track t s state_stopped none, quiet_end context_over s)

-- The services that run are marked as stopped.
unfoldable pub stop_services : Bool → Bool → Snapshot → Snapshot
unfolding set_mesh set_xray
stop_services enable_tun has_xray t =
    let t' = if enable_tun then set_mesh t state_stopped none else t in
    if has_xray then set_xray t' state_stopped none else t'

-- Each case of the select returns. `context_over` is `ctx.Err() != nil` at that moment.
unfoldable pub select_case :
    Bool → Bool → Bool → Snapshot → RunEvent → Snapshot × Result RunError (Unit {0})
unfolding handle_end stop_services
select_case enable_tun has_xray context_over t context_done =
    (stop_services enable_tun has_xray t, ok tt)
select_case enable_tun has_xray context_over t (ended s e) = handle_end context_over t s e
