-- ===== src/Client/Runtime/Polls.antt =====
-- A poll cycle of cmd/client/p2p_runtime.go.
use xray_mesh.Client.Runtime.{
  Candidate, PendingProbe, P2pRuntime, Host, RuntimeError, p2p_candidate_max_age, p2p_pending_ttl,
  p2p_ticket_issue_retry, is_none, Outcome, failed, send_failed, bad_endpoint, issue_failed,
  protocol_error,
}
use xray_mesh.Base.{
  ℕ, suc, ◌+◌, ◌-◌, Bool, false, not, ◌&&◌, ◌||◌, Option, none, some, List, [], ◌∷◌, ◌++◌, ltb,
  ◌==◌, if◌then◌else◌, Result, ok, err, ◌>>=◌,
}
use xray_mesh.Base.Maps.{Map, lookup, insert, delete, keep_if}
use xray_mesh.P2p.Probe.{ProbeFrame, marshal_probe_frame, new_probe}
use xray_mesh.P2p.Secret.{P2pError, ticket_identifier, is_expired}
use xray_mesh.P2p.Tickets.{ProbeTicket, str_eq}
use xray_mesh.Text.{Bytes, str_dec, str_lt}
use xray_mesh.Text.Trim.{trim_space}
use xray_mesh.Transport.Relay.{UdpAddr, Datagram}

-- The first loop of replaceCandidates.
unfoldable pub fresh_candidates :
    Bytes → ℕ → List Candidate → Map Bytes Candidate → Map Bytes Candidate
fresh_candidates node_id now [] next = next
fresh_candidates node_id now (c ∷ cs) next = fresh_candidates node_id now cs (
    if str_eq c.node_id []
      || str_eq c.node_id node_id
      || str_eq (trim_space c.endpoint) []
      || c.observed_at == 0
      || ltb p2p_candidate_max_age (now - c.observed_at)
      || ltb (now + 5_000_000_000) c.observed_at
    then next
    else insert str_dec c.node_id c next)

unfoldable pub replace_candidates : P2pRuntime → List Candidate → ℕ → P2pRuntime
unfolding fresh_candidates
replace_candidates r cs now = record r { candidates = fresh_candidates r.node_id now cs [] }

-- The tickets that were there, less those that are listed and those that have expired.
unfoldable pub keep_unlisted :
    ℕ → Map Bytes ProbeTicket → Map Bytes ProbeTicket → Map Bytes ProbeTicket
keep_unlisted now [] next = next
keep_unlisted now ((id, t) ∷ old) next = keep_unlisted now old (
    if is_none (lookup str_dec id next) && not (is_expired t now)
    then insert str_dec id t next
    else next)

abbrev pub of_node : Bytes → ProbeTicket → Bool
of_node node_id t = str_eq t.source_node node_id || str_eq t.target_node node_id

-- The loop of hasLiveSourceTicket.
unfoldable pub has_live_source_ticket : Map Bytes ProbeTicket → Bytes → Bytes → ℕ → Bool
has_live_source_ticket [] source target now = false
has_live_source_ticket ((_, t) ∷ ts) source target now =
    let rest = has_live_source_ticket ts source target now in
    (str_eq t.source_node source && str_eq t.target_node target && not (is_expired t now)) || rest

abbrev pub issued_lately : Option ℕ → ℕ → Bool
issued_lately none now = false
issued_lately (some last) now = ltb (now - last) p2p_ticket_issue_retry

-- What a poll takes from the coordinator, the source of randomness and the clock.
pub record Poll : Type 0 where
  pub listed : Option (List ProbeTicket)
  pub observed : Option (List Candidate)
  pub answer : Bytes → Option ProbeTicket
  pub random : ℕ → Option Bytes
  pub tickets_at : ℕ
  pub candidates_at : ℕ
  pub issue_at : ℕ
  pub probe_at : ℕ
  pub sent_at : ℕ → ℕ

module _ (host : Host) where
  open host use {crypto, codec, resolve, write_ok}

  abbrev pub identified :
      ProbeTicket → Map Bytes ProbeTicket → Result P2pError Bytes → Map Bytes ProbeTicket
  identified t next (err e) = next
  identified t next (ok id) = insert str_dec id t next

  -- The first loop of replaceTickets.
  unfoldable pub fresh_tickets :
      Bytes → ℕ → List ProbeTicket → Map Bytes ProbeTicket → Map Bytes ProbeTicket
  fresh_tickets node_id now [] next = next
  fresh_tickets node_id now (t ∷ ts) next = fresh_tickets node_id now ts (
      if not (of_node node_id t) || is_expired t now
      then next
      else identified t next (ticket_identifier crypto t))

  unfoldable pub replace_tickets : P2pRuntime → List ProbeTicket → ℕ → P2pRuntime
  unfolding fresh_tickets keep_unlisted
  replace_tickets r ts now = record r {
    tickets = keep_unlisted now r.tickets (fresh_tickets r.node_id now ts []);
    pending = keep_if (λ _ p. ltb (now - p.sent_at) p2p_pending_ttl) r.pending;
  }

  abbrev pub store_issued :
      P2pRuntime
      → Bytes
      → ProbeTicket
      → ℕ
      → Result P2pError Bytes
      → P2pRuntime × Result RuntimeError (Unit {0})
  store_issued r target t now (err e) = (r, err (protocol_error e))
  store_issued r target t now (ok id) = (
    record r {
      tickets = insert str_dec id t r.tickets;
      last_issued = insert str_dec target now r.last_issued;
    },
    ok tt,
  )

  -- The coordinator's answer to a request for a ticket.
  abbrev pub issued_to :
      P2pRuntime → Bytes → ℕ → Option ProbeTicket → P2pRuntime × Result RuntimeError (Unit {0})
  issued_to r target now none = (r, err issue_failed)
  issued_to r target now (some t) = store_issued r target t now (ticket_identifier crypto t)

  -- The loop of issueNeededTickets over the candidates, with the tickets and the times of its start.
  unfoldable pub issue_for_candidates :
      (Bytes → Option ProbeTicket)
      → ℕ
      → Map Bytes ProbeTicket
      → Map Bytes ℕ
      → Map Bytes Candidate
      → P2pRuntime
      → P2pRuntime × Result RuntimeError (Unit {0})
  issue_for_candidates answer now tickets last_issued [] r = (r, ok tt)
  issue_for_candidates answer now tickets last_issued ((_, c) ∷ cs) r =
      let skip =
        not (str_lt r.node_id c.node_id)
        || has_live_source_ticket tickets r.node_id c.node_id now
        || issued_lately (lookup str_dec c.node_id last_issued) now in
      let (r', result) =
        (if skip then (r, ok tt) else issued_to r c.node_id now (answer c.node_id)) in
      elim result [
        | err e ↦ (r', err e)
        | ok u ↦ issue_for_candidates answer now tickets last_issued cs r'
      ]

  unfoldable pub issue_needed_tickets :
      P2pRuntime → (Bytes → Option ProbeTicket) → ℕ → P2pRuntime × Result RuntimeError (Unit {0})
  unfolding issue_for_candidates has_live_source_ticket
  issue_needed_tickets r answer now =
      issue_for_candidates answer now r.tickets r.last_issued r.candidates r

  -- The tickets of the node to probe with, each with the candidate of its target.
  unfoldable pub probe_pairs :
      Bytes → ℕ → Map Bytes Candidate → Map Bytes ProbeTicket → List (ProbeTicket × Candidate)
  probe_pairs node_id now candidates [] = []
  probe_pairs node_id now candidates ((_, t) ∷ ts) =
      let rest = probe_pairs node_id now candidates ts in
      if not (str_eq t.source_node node_id) || is_expired t now
      then rest
      else (elim (lookup str_dec t.target_node candidates) [ none ↦ rest | some c ↦ (t, c) ∷ rest ])

  -- The probe and its bytes.
  unfoldable pub probe_wire : ProbeTicket → Option Bytes → Result P2pError (ProbeFrame × Bytes)
  probe_wire t random = do
    probe ← new_probe crypto t random
    wire ← marshal_probe_frame codec probe
    ok (probe, wire)

  -- The probe is pending, and no more if the write fails.
  abbrev pub send_wire :
      P2pRuntime → ProbeTicket → ProbeFrame → Bytes → UdpAddr → ℕ → P2pRuntime × Outcome
  send_wire r t probe wire to sent_at =
      let p : PendingProbe = record {
        probe = probe;
        ticket = t;
        target = t.target_node;
        sent_at = sent_at;
      } in
      let pending = insert str_dec probe.nonce p r.pending in
      if write_ok to wire
      then (record r { pending = pending }, (record { to = to; bytes = wire } ∷ [], ok tt))
      else (record r { pending = delete str_dec probe.nonce pending }, failed send_failed)

  abbrev pub send_resolved :
      P2pRuntime → ProbeTicket → ProbeFrame → Bytes → Option UdpAddr → ℕ → P2pRuntime × Outcome
  send_resolved r t probe wire none sent_at = (r, failed bad_endpoint)
  send_resolved r t probe wire (some to) sent_at = send_wire r t probe wire to sent_at

  abbrev pub send_made :
      P2pRuntime
      → ProbeTicket
      → Candidate
      → ℕ
      → Result P2pError (ProbeFrame × Bytes)
      → P2pRuntime × Outcome
  send_made r t c sent_at (err e) = (r, failed (protocol_error e))
  send_made r t c sent_at (ok (probe, wire)) =
      send_resolved r t probe wire (resolve c.endpoint) sent_at

  unfoldable pub send_probe :
      P2pRuntime → ProbeTicket → Candidate → Option Bytes → ℕ → P2pRuntime × Outcome
  unfolding probe_wire
  send_probe r t c random sent_at = send_made r t c sent_at (probe_wire t random)

  -- An error of one pair is logged, and the loop goes on; the nonces are drawn and the
  -- clock is read for one after the other.
  unfoldable pub send_to_pairs :
      (ℕ → Option Bytes)
      → (ℕ → ℕ)
      → ℕ
      → List (ProbeTicket × Candidate)
      → P2pRuntime
      → P2pRuntime × List Datagram
  unfolding send_probe
  send_to_pairs random sent_at i [] r = (r, [])
  send_to_pairs random sent_at i ((t, c) ∷ pairs) r =
      let (r', (sent, result)) = send_probe r t c (random i) (sent_at i) in
      let (r'', more) = send_to_pairs random sent_at (suc i) pairs r' in (r'', sent ++ more)

  unfoldable pub send_probes :
      P2pRuntime → (ℕ → Option Bytes) → (ℕ → ℕ) → ℕ → P2pRuntime × List Datagram
  unfolding probe_pairs send_to_pairs
  send_probes r random sent_at now =
      send_to_pairs random sent_at 0 (probe_pairs r.node_id now r.candidates r.tickets) r

  abbrev pub poll_observed :
      P2pRuntime → Poll → Option (List Candidate) → P2pRuntime × List Datagram
  poll_observed r p none = (r, [])
  poll_observed r p (some cs) =
      send_probes
        (issue_needed_tickets (replace_candidates r cs p.candidates_at) p.answer p.issue_at).0
        p.random p.sent_at p.probe_at

  abbrev pub poll_listed :
      P2pRuntime → Poll → Option (List ProbeTicket) → P2pRuntime × List Datagram
  poll_listed r p none = (r, [])
  poll_listed r p (some ts) = poll_observed (replace_tickets r ts p.tickets_at) p p.observed

  unfoldable pub run_poll_cycle : P2pRuntime → Poll → P2pRuntime × List Datagram
  unfolding replace_tickets replace_candidates issue_needed_tickets send_probes
  run_poll_cycle r p = poll_listed r p p.listed
