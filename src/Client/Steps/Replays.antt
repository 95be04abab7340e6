-- ===== src/Client/Steps/Replays.antt =====
-- The replay cache over the steps of a runtime.
use xray_mesh.Base.{
  ℕ, suc, ◌≡◌, refl, ap, ◌∙◌, inl, inr, arith, Option, none, some, List, [], ◌∷◌, Result, ok, err,
}
use xray_mesh.Base.Maps.{Map}
use xray_mesh.Client.Acks.{handle_probe_datagram_changes}
use xray_mesh.Client.Direct.{
  send_to, send_sealed, send_with_ticket, send_over, send_to_candidate, send_direct_payload,
  live_ticket_for_peer,
}
use xray_mesh.Client.Runtime.{P2pRuntime, Candidate, Host}
use xray_mesh.Client.Runtime.Handler.{handle_probe_datagram}
use xray_mesh.Client.Runtime.Polls.{
  Poll, store_issued, issued_to, issue_for_candidates, issue_needed_tickets, send_resolved,
  send_made, send_probe, send_to_pairs, send_probes, probe_wire, probe_pairs, poll_observed,
  poll_listed, run_poll_cycle, replace_tickets, replace_candidates,
}
use xray_mesh.Netip.{Addr}
use xray_mesh.P2p.Probe.{ProbeFrame}
use xray_mesh.P2p.Secret.{P2pError, ticket_identifier}
use xray_mesh.P2p.Selector.{Selection, path_relay, path_direct, select}
use xray_mesh.P2p.Tickets.{ProbeTicket}
use xray_mesh.Text.{Bytes}
use xray_mesh.Transport.Relay.{UdpAddr}

-- The step leaves the replay cache as it is.
abbrev pub KeepsReplays : P2pRuntime → P2pRuntime → Type 0
KeepsReplays r r' = r'.replays ≡ r.replays

-- The step changes only the paths and the counters.
abbrev pub OnlyPaths : P2pRuntime → P2pRuntime → Type 0
OnlyPaths r r' = r' ≡ record r { selector = r'.selector; counters = r'.counters }

module _ (host : Host) where
  -- Sends.
  send_to_paths :
      (r : P2pRuntime) (id wire : Bytes) (to : Option UdpAddr)
      → OnlyPaths r (send_to host r id wire to).0
  send_to_paths r id wire none = refl
  send_to_paths r id wire (some to) = ground arith

  send_sealed_paths :
      (r : P2pRuntime) (id endpoint : Bytes) (m : Result P2pError Bytes)
      → OnlyPaths r (send_sealed host r id endpoint m).0
  send_sealed_paths r id endpoint (err e) = refl
  send_sealed_paths r id endpoint (ok wire) = send_to_paths r id wire (host.resolve endpoint)

  send_with_ticket_paths :
      (r : P2pRuntime) (id endpoint payload : Bytes) (now : ℕ) (random : Option Bytes)
      (m : Option ProbeTicket)
      → OnlyPaths r (send_with_ticket host r id endpoint payload now random m).0
  send_with_ticket_paths r id endpoint payload now random none = refl
  send_with_ticket_paths r id endpoint payload now random (some t) =
      send_sealed_paths r id endpoint _

  send_over_paths :
      (r : P2pRuntime) (id payload : Bytes) (now : ℕ) (random : Option Bytes) (m : Selection)
      → OnlyPaths r (send_over host r id payload now random m).0
  send_over_paths r id payload now random path_relay = refl
  send_over_paths r id payload now random (path_direct endpoint) = ground (
    arith,
    send_with_ticket_paths r id endpoint payload now random
        (live_ticket_for_peer r.node_id r.tickets id now),
  )

  send_to_candidate_paths :
      (r : P2pRuntime) (payload : Bytes) (now select_at : ℕ) (random : Option Bytes)
      (m : Option Candidate)
      → OnlyPaths r (send_to_candidate host r payload now select_at random m).0
  send_to_candidate_paths r payload now select_at random none = refl
  send_to_candidate_paths r payload now select_at random (some c) =
      let (s, choice) = select r.selector c.node_id select_at in
      send_over_paths (record r { selector = s }) c.node_id payload now random choice

  pub send_direct_payload-OnlyPaths :
      (r : P2pRuntime) (to : Addr) (payload : Bytes) (now select_at : ℕ) (random : Option Bytes)
      → OnlyPaths r (send_direct_payload host r to payload now select_at random).0
  unfolding send_direct_payload
  send_direct_payload-OnlyPaths r to payload now select_at random =
      send_to_candidate_paths r payload now select_at random _

  -- A probe that arrives.
  pub handle_probe_datagram-replays :
      (r : P2pRuntime) (b : Bytes) (source : UdpAddr) (now : ℕ)
      → KeepsReplays r (handle_probe_datagram host r b source now).0
  handle_probe_datagram-replays r b source now =
      elim (handle_probe_datagram_changes host r b source now) [
        | inl e ↦ ap (λ s. s.replays) e
        | inr a ↦ ap (λ s. s.replays) a.left
      ]

  -- A poll.
  issued_to_replays :
      (r : P2pRuntime) (id : Bytes) (now : ℕ) (m : Option ProbeTicket)
      → KeepsReplays r (issued_to host r id now m).0
  issued_to_replays r id now none = refl
  issued_to_replays r id now (some t) = stored (ticket_identifier host.crypto t)
    where
      stored : (m : Result P2pError Bytes) → KeepsReplays r (store_issued host r id t now m).0
      stored (err e) = refl
      stored (ok i) = refl

  issue_for_candidates_replays :
      (answer : Bytes → Option ProbeTicket) (now : ℕ) (tickets : Map Bytes ProbeTicket)
      (issued : Map Bytes ℕ) (cs : Map Bytes Candidate) (r : P2pRuntime)
      → KeepsReplays r (issue_for_candidates host answer now tickets issued cs r).0
  unfolding issue_for_candidates
  issue_for_candidates_replays answer now tickets issued [] r = refl
  issue_for_candidates_replays answer now tickets issued ((k, c) ∷ cs) r = ground (
    arith,
    issue_for_candidates_replays answer now tickets issued cs r,
    issue_for_candidates_replays answer now tickets issued cs
        (issued_to host r c.node_id now (answer c.node_id)).0,
    issued_to_replays r c.node_id now (answer c.node_id),
  )

  send_made_replays :
      (r : P2pRuntime) (t : ProbeTicket) (c : Candidate) (at : ℕ)
      (m : Result P2pError (ProbeFrame × Bytes))
      → KeepsReplays r (send_made host r t c at m).0
  send_made_replays r t c at (err e) = refl
  send_made_replays r t c at (ok (probe, wire)) = resolved (host.resolve c.endpoint)
    where
      resolved : (m : Option UdpAddr) → KeepsReplays r (send_resolved host r t probe wire m at).0
      resolved none = refl
      resolved (some to) = ground arith

  send_to_pairs_replays :
      (random : ℕ → Option Bytes) (at : ℕ → ℕ) (i : ℕ) (pairs : List (ProbeTicket × Candidate))
      (r : P2pRuntime)
      → KeepsReplays r (send_to_pairs host random at i pairs r).0
  unfolding send_to_pairs send_probe
  send_to_pairs_replays random at i [] r = refl
  send_to_pairs_replays random at i ((t, c) ∷ pairs) r =
      send_to_pairs_replays random at (suc i) pairs _
      ∙ send_made_replays r t c (at i) (probe_wire host t (random i))

  observed_replays :
      (r : P2pRuntime) (p : Poll) (m : Option (List Candidate))
      → KeepsReplays r (poll_observed host r p m).0
  unfolding send_probes replace_candidates issue_needed_tickets
  observed_replays r p none = refl
  observed_replays r p (some cs) =
      let s = replace_candidates r cs p.candidates_at in
      let s' = (issue_needed_tickets host s p.answer p.issue_at).0 in
      send_to_pairs_replays p.random p.sent_at 0
        (probe_pairs host s'.node_id p.probe_at s'.candidates s'.tickets) s'
      ∙ issue_for_candidates_replays p.answer p.issue_at s.tickets s.last_issued s.candidates s

  listed_replays :
      (r : P2pRuntime) (p : Poll) (m : Option (List ProbeTicket))
      → KeepsReplays r (poll_listed host r p m).0
  unfolding replace_tickets
  listed_replays r p none = refl
  listed_replays r p (some ts) =
      observed_replays (replace_tickets host r ts p.tickets_at) p p.observed

  pub run_poll_cycle-replays :
      (r : P2pRuntime) (p : Poll) → KeepsReplays r (run_poll_cycle host r p).0
  unfolding run_poll_cycle
  run_poll_cycle-replays r p = listed_replays r p p.listed
