-- ===== src/Server.antt =====
-- cmd/server/main.go: the handlers of the coordinator's HTTP interface and the lease sweeper. A
-- request enters as its Authorization header and the field of its JSON body (`none` if decoding
-- failed); JSON and the texts of errors are left out. A nil ticket manager is `none`. Durations are
-- those that the flags admit, so not negative, and the clock is past the length of a lease. A
-- handler and a tick of the sweeper are one step each.
pub mod Sweep
pub mod Tickets
mod Tests
use xray_mesh.Base.{
  ℕ, zero, suc, ◌+◌, ◌-◌, ◌/◌, Bool, ◌&&◌, Option, none, some, List, [], ◌∷◌, map, drop, ltb,
  if◌then◌else◌, is_yes, Result, ok, err,
}
use xray_mesh.Mesh.Registry.{
  Peer, PeerView, RegistrationView, Registry, RegistryError, register_at, registration, view, get,
  get_by_token, touch_by_token, expire_before, list,
}
use xray_mesh.Netip.{Addr}
use xray_mesh.P2p.Tickets as Manager
use xray_mesh.P2p.Tickets.{ProbeTicket, TicketManager, TicketError, str_eq}
use xray_mesh.Text.{Bytes, codes, has_prefix}
use xray_mesh.Text.Trim.{trim_space}
use xray_mesh.Transport.Relay.{Platform, Relay, UdpAddr, ObservedCandidate, forget_peer, candidates}

-- A candidate of kind relay_observed.
pub record Candidate : Type 0 where
  pub node_id : Bytes
  pub virtual_ip : Addr
  pub endpoint : UdpAddr
  pub observed_at : ℕ

-- A response: an error by its status code, or the status code with what is written.
pub data Response : Type 0 where
  http_error : ℕ → Response
  no_content : Response
  registered : ℕ → RegistrationView → Response
  observed : ℕ → List Candidate → Response
  issued : ℕ → ProbeTicket → Response
  live_tickets : ℕ → List ProbeTicket → Response
  peer_views : ℕ → List PeerView → Response

unfoldable pub bearer_token : Bytes → Bytes
unfolding has_prefix
bearer_token header = if has_prefix header (codes "Bearer ") then trim_space (drop 7 header) else []

unfoldable pub duration_seconds : ℕ → ℕ
duration_seconds d = let seconds = d / 1_000_000_000 in if ltb seconds 1 then 1 else seconds

unfoldable pub authenticated_peer : Registry → Bytes → Option Peer
unfolding bearer_token
authenticated_peer registry header =
    if str_eq (bearer_token header) [] then none else get_by_token registry (bearer_token header)

-- The interval of the sweeper.
unfoldable pub sweep_interval : ℕ → ℕ → ℕ
sweep_interval lease_ttl heartbeat_interval =
    let third = lease_ttl / 3 in
    if ltb 0 third && ltb third heartbeat_interval then third else heartbeat_interval

abbrev pub forget_node_of : Option TicketManager → Bytes → Option TicketManager
forget_node_of none node_id = none
forget_node_of (some m) node_id = some (Manager.forget_node m node_id)

abbrev pub prune_of : Option TicketManager → ℕ → Option TicketManager
prune_of none now = none
prune_of (some m) now = some (Manager.prune m now)

module _ (platform : Platform) where
  pub record Api : Type 0 where
    pub registry : Registry
    pub relay : Relay platform
    pub tickets : Option TicketManager
    pub heartbeat_interval : ℕ
    pub lease_ttl : ℕ

  -- The loop over the expired peers.
  unfoldable pub forget_expired : List Peer → Api → Api
  forget_expired [] a = a
  forget_expired (p ∷ ps) a = forget_expired ps (record a {
    relay = forget_peer platform a.relay p.node_id;
    tickets = forget_node_of a.tickets p.node_id;
  })

  -- What one tick of the sweeper does; the clock is read again to prune the tickets.
  unfoldable pub sweep : Api → ℕ → ℕ → Api
  unfolding forget_expired
  sweep a now pruned_at =
      let (registry, expired) = expire_before a.registry (now - a.lease_ttl) in
      let b = forget_expired expired (record a { registry = registry }) in
      record b { tickets = prune_of b.tickets pruned_at }

  abbrev pub registered_at : Api → Registry × Result RegistryError Peer → Api × Response
  registered_at a (r, err e) = (record a { registry = r }, http_error 400)
  registered_at a (r, ok p) = (
    record a { registry = r },
    registered 201 (record (registration p r.prefix) {
      heartbeat_interval_seconds = duration_seconds a.heartbeat_interval;
      lease_ttl_seconds = duration_seconds a.lease_ttl;
    }),
  )

  unfoldable pub register_peer : Api → Option Bytes → ℕ → Option Bytes → Api × Response
  register_peer a none now random = (a, http_error 400)
  register_peer a (some node_id) now random =
      registered_at a (register_at a.registry node_id now random)

  abbrev pub touched : Api → Registry × Option Peer → Api × Response
  touched a (r, none) = (record a { registry = r }, http_error 401)
  touched a (r, some p) = (record a { registry = r }, no_content)

  unfoldable pub heartbeat : Api → Bytes → ℕ → Api × Response
  unfolding authenticated_peer bearer_token
  heartbeat a header now = elim (authenticated_peer a.registry header) [
    | none ↦ (a, http_error 401)
    | some p ↦ touched a (touch_by_token a.registry (bearer_token header) now)
  ]

  -- The loop of listCandidates: an endpoint whose node is not registered is passed over.
  unfoldable pub candidates_of : Registry → List ObservedCandidate → List Candidate
  candidates_of registry [] = []
  candidates_of registry (c ∷ cs) =
      let rest = candidates_of registry cs in
      elim (get registry c.node_id) [
        | none ↦ rest
        | some p ↦
            record {
              node_id = p.node_id;
              virtual_ip = p.virtual_ip;
              endpoint = c.endpoint;
              observed_at = c.observed_at;
            }
            ∷ rest
      ]

  unfoldable pub list_candidates : Api → Bytes → Response
  unfolding authenticated_peer candidates_of
  list_candidates a header = elim (authenticated_peer a.registry header) [
    | none ↦ http_error 401
    | some p ↦ observed 200 (candidates_of a.registry (candidates platform a.relay))
  ]

  abbrev pub issued_at : Api → TicketManager × Result TicketError ProbeTicket → Api × Response
  issued_at a (m, err e) = (record a { tickets = some m }, http_error 400)
  issued_at a (m, ok t) = (record a { tickets = some m }, issued 201 t)

  -- What follows the decoding of the request.
  unfoldable pub issue_for : Api → TicketManager → Peer → Bytes → ℕ → Option Bytes → Api × Response
  issue_for a m source target now random =
      if str_eq target []
      then (a, http_error 400)
      else if str_eq target source.node_id
      then (a, http_error 400)
      else (elim (get a.registry target) [
        | none ↦ (a, http_error 404)
        | some q ↦ issued_at a (Manager.issue m source.node_id target now random)
      ])

  abbrev pub issue_decoded :
      Api → Peer → Option TicketManager → Option Bytes → ℕ → Option Bytes → Api × Response
  issue_decoded a source none target_node now random = (a, http_error 503)
  issue_decoded a source (some m) none now random = (a, http_error 400)
  issue_decoded a source (some m) (some target_node) now random =
      issue_for a m source (trim_space target_node) now random

  unfoldable pub issue_probe_ticket : Api → Bytes → Option Bytes → ℕ → Option Bytes → Api × Response
  unfolding authenticated_peer issue_for
  issue_probe_ticket a header target_node now random = elim (authenticated_peer a.registry header) [
    | none ↦ (a, http_error 401)
    | some source ↦ issue_decoded a source a.tickets target_node now random
  ]

  abbrev pub tickets_listed : Api → Bytes → Option TicketManager → ℕ → Api × Response
  tickets_listed a node_id none now = (a, http_error 503)
  tickets_listed a node_id (some m) now =
      let (m', ts) = Manager.list_for_node m node_id now in
      (record a { tickets = some m' }, live_tickets 200 ts)

  unfoldable pub list_probe_tickets : Api → Bytes → ℕ → Api × Response
  unfolding authenticated_peer
  list_probe_tickets a header now = elim (authenticated_peer a.registry header) [
    | none ↦ (a, http_error 401)
    | some p ↦ tickets_listed a p.node_id a.tickets now
  ]

  unfoldable pub list_peers : Api → Response
  list_peers a = peer_views 200 (map view (list a.registry))
