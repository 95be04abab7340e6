-- ===== src/P2p/Selector.antt =====
-- internal/p2p/selector.go. The clock is an argument of a call. `netip.ParseAddrPort` enters as
-- the test `is_addr_port`. The counter of healthy marks is part of the result of a mark.
pub mod Paths
use xray_mesh.Base.{
  ℕ, zero, suc, ◌+◌, ℤ, Bool, not, Option, none, some, [], ltb, ◌==◌, if◌then◌else◌, is_yes, Result,
  ok, err,
}
use xray_mesh.Base.Maps.{Map, lookup, insert, delete}
use xray_mesh.P2p.Tickets.{positive_or, str_eq}
use xray_mesh.Telemetry.{P2pCounters, inc_direct_healthy}
use xray_mesh.Text.{Bytes, str_dec}
use xray_mesh.Text.Trim.{trim_space}

pub record DirectState : Type 0 where
  pub endpoint : Bytes
  pub healthy_until : ℕ

pub record Selector : Type 0 where
  pub direct_ttl : ℕ
  pub direct : Map Bytes DirectState

-- A relay selection has no endpoint.
pub data Selection : Type 0 where
  path_relay : Selection
  path_direct : Bytes → Selection

pub data SelectorError : Type 0 where
  node_id_required bad_endpoint : SelectorError

unfoldable pub new_selector : ℤ → Selector
new_selector direct_ttl = record { direct_ttl = positive_or 30_000_000_000 direct_ttl; direct = [] }

module _ (is_addr_port : Bytes → Bool) where
  unfoldable pub mark_direct_healthy :
      Selector
      → P2pCounters
      → Bytes
      → Bytes
      → ℕ
      → ℕ
      → (Selector × P2pCounters) × Result SelectorError (Unit {0})
  unfolding inc_direct_healthy
  mark_direct_healthy s c node_id endpoint observed_at now =
      let node = trim_space node_id in
      let e = trim_space endpoint in
      let at = if observed_at == 0 then now else observed_at in
      if str_eq node []
      then ((s, c), err node_id_required)
      else if not (is_addr_port e)
      then ((s, c), err bad_endpoint)
      else (
        (
          record s {
            direct =
                insert str_dec node (record { endpoint = e; healthy_until = at + s.direct_ttl })
                  s.direct;
          },
          inc_direct_healthy c,
        ),
        ok tt,
      )

unfoldable pub mark_direct_failed : Selector → Bytes → Selector
mark_direct_failed s node_id = record s { direct = delete str_dec (trim_space node_id) s.direct }

abbrev pub select_found : Selector → Bytes → ℕ → Option DirectState → Selector × Selection
select_found s node now none = (s, path_relay)
select_found s node now (some state) =
    if ltb now state.healthy_until
    then (s, path_direct state.endpoint)
    else (record s { direct = delete str_dec node s.direct }, path_relay)

unfoldable pub select : Selector → Bytes → ℕ → Selector × Selection
select s node_id now =
    let node = trim_space node_id in select_found s node now (lookup str_dec node s.direct)
