-- ===== src/Client/Steps/WellFormed.antt =====
-- What a poll cycle leaves of a well-formed runtime.
use xray_mesh.Base.{
  ℕ, suc, ◌≡◌, refl, sym, subst, arith, false, Option, none, some, List, [], ◌∷◌, Result, ok, err,
  All,
}
use xray_mesh.Base.Entries.{AreEntries, insert-AreEntries, delete-AreEntries, keep_if-AreEntries}
use xray_mesh.Base.Maps.{Map, insert, Unique}
use xray_mesh.Client.Runtime.{P2pRuntime, Candidate, Host, PendingProbe}
use xray_mesh.Client.Runtime.Polls.{
  Poll, fresh_candidates, replace_candidates, keep_unlisted, identified, fresh_tickets,
  replace_tickets, store_issued, issued_to, issue_for_candidates, issue_needed_tickets, probe_pairs,
  probe_wire, send_resolved, send_made, send_probe, send_to_pairs, send_probes, poll_observed,
  poll_listed,
}
use xray_mesh.P2p.Probe.{ProbeFrame}
use xray_mesh.P2p.Secret.{P2pError, ticket_identifier}
use xray_mesh.P2p.Tickets.{ProbeTicket, str_eq}
use xray_mesh.Text.{Bytes, str_dec}
use xray_mesh.Transport.Relay.{UdpAddr}

module _ (host : Host) where
  -- A ticket stands under its own identifier.
  abbrev pub IsIdentified : Bytes × ProbeTicket → Type 0
  IsIdentified (id, t) = ticket_identifier host.crypto t ≡ ok id

  -- A candidate stands under its name, is named, and is another node.
  abbrev pub IsPeer : Bytes → Bytes × Candidate → Type 0
  IsPeer node_id (k, c) = (k ≡ c.node_id) × (str_eq k [] ≡ false) × (str_eq k node_id ≡ false)

  -- A pending probe stands under its nonce, and goes from the node to its ticket's target.
  abbrev pub IsPending : Bytes → Bytes × PendingProbe → Type 0
  IsPending node_id (nonce, p) =
      (nonce ≡ p.probe.nonce) × (p.target ≡ p.ticket.target_node) × (p.ticket.source_node ≡ node_id)

  -- The well-formed states of the runtime of one node.
  pub record IsValid (node_id : Bytes) (r : P2pRuntime) : Type 0 where
    pub named : r.node_id ≡ node_id
    pub tickets : AreEntries str_dec IsIdentified r.tickets
    pub candidates : AreEntries str_dec (IsPeer node_id) r.candidates
    pub pending : AreEntries str_dec (IsPending node_id) r.pending
    pub replays : Unique str_dec r.replays

  -- Polls: candidates and tickets.
  fresh_candidates-AreEntries :
      (node_id : Bytes) (now : ℕ) (cs : List Candidate) (next : Map Bytes Candidate)
      → AreEntries str_dec (IsPeer node_id) next
      → AreEntries str_dec (IsPeer node_id) (fresh_candidates node_id now cs next)
  unfolding fresh_candidates
  fresh_candidates-AreEntries node_id now [] next h = h
  fresh_candidates-AreEntries node_id now (c ∷ cs) next h =
      fresh_candidates-AreEntries node_id now cs _
        (ground (arith, insert-AreEntries str_dec (IsPeer node_id) c.node_id c next))

  fresh_tickets-AreEntries :
      (node_id : Bytes) (now : ℕ) (ts : List ProbeTicket) (next : Map Bytes ProbeTicket)
      → AreEntries str_dec IsIdentified next
      → AreEntries str_dec IsIdentified (fresh_tickets host node_id now ts next)
  unfolding fresh_tickets
  fresh_tickets-AreEntries node_id now [] next h = h
  fresh_tickets-AreEntries node_id now (t ∷ ts) next h =
      fresh_tickets-AreEntries node_id now ts _
        (ground (arith, added (ticket_identifier host.crypto t) refl))
    where
      added :
          (m : Result P2pError Bytes)
          → ticket_identifier host.crypto t ≡ m
          → AreEntries str_dec IsIdentified (identified host t next m)
      added (err e) f = h
      added (ok id) f = insert-AreEntries str_dec IsIdentified id t next f h

  keep_unlisted-AreEntries :
      (now : ℕ) (old next : Map Bytes ProbeTicket)
      → All IsIdentified old
      → AreEntries str_dec IsIdentified next
      → AreEntries str_dec IsIdentified (keep_unlisted now old next)
  unfolding keep_unlisted
  keep_unlisted-AreEntries now [] next g h = h
  keep_unlisted-AreEntries now ((id, t) ∷ old) next g h =
      keep_unlisted-AreEntries now old _ g.1
        (ground (arith, insert-AreEntries str_dec IsIdentified id t next g.0 h))

  module _ (node_id : Bytes) where
    issued_to-IsValid :
        (r : P2pRuntime) (target : Bytes) (now : ℕ) (m : Option ProbeTicket)
        → IsValid node_id r
        → IsValid node_id (issued_to host r target now m).0
    issued_to-IsValid r target now none v = v
    issued_to-IsValid r target now (some t) v = stored (ticket_identifier host.crypto t) refl
      where
        stored :
            (m : Result P2pError Bytes)
            → ticket_identifier host.crypto t ≡ m
            → IsValid node_id (store_issued host r target t now m).0
        stored (err e) f = v
        stored (ok id) f = record {
          named = v.named;
          tickets = insert-AreEntries str_dec IsIdentified id t r.tickets f v.tickets;
          candidates = v.candidates;
          pending = v.pending;
          replays = v.replays;
        }

    issue_for_candidates-IsValid :
        (answer : Bytes → Option ProbeTicket) (now : ℕ) (tickets : Map Bytes ProbeTicket)
        (issued : Map Bytes ℕ) (cs : Map Bytes Candidate) (r : P2pRuntime)
        → IsValid node_id r
        → IsValid node_id (issue_for_candidates host answer now tickets issued cs r).0
    unfolding issue_for_candidates
    issue_for_candidates-IsValid answer now tickets issued [] r v = v
    issue_for_candidates-IsValid answer now tickets issued ((k, c) ∷ cs) r v = ground (
      arith,
      issue_for_candidates-IsValid answer now tickets issued cs r v,
      issue_for_candidates-IsValid answer now tickets issued cs
          (issued_to host r c.node_id now (answer c.node_id)).0
          (issued_to-IsValid r c.node_id now (answer c.node_id) v),
      issued_to-IsValid r c.node_id now (answer c.node_id) v,
    )

    with_pending :
        (r : P2pRuntime) (pending : Map Bytes PendingProbe)
        → IsValid node_id r
        → AreEntries str_dec (IsPending node_id) pending
        → IsValid node_id (record r { pending = pending })
    with_pending r pending v h = record {
      named = v.named;
      tickets = v.tickets;
      candidates = v.candidates;
      pending = h;
      replays = v.replays;
    }

    send_made-IsValid :
        (r : P2pRuntime) (t : ProbeTicket) (c : Candidate) (at : ℕ)
        (m : Result P2pError (ProbeFrame × Bytes))
        → t.source_node ≡ node_id
        → IsValid node_id r
        → IsValid node_id (send_made host r t c at m).0
    send_made-IsValid r t c at (err e) own v = v
    send_made-IsValid r t c at (ok (probe, wire)) own v = resolved (host.resolve c.endpoint)
      where
        p : PendingProbe
        p = record { probe = probe; ticket = t; target = t.target_node; sent_at = at }

        added : AreEntries str_dec (IsPending node_id) (insert str_dec probe.nonce p r.pending)
        added =
            insert-AreEntries str_dec (IsPending node_id) probe.nonce p r.pending (refl, refl, own)
              v.pending

        resolved : (m : Option UdpAddr) → IsValid node_id (send_resolved host r t probe wire m at).0
        resolved none = v
        resolved (some to) = ground (
          arith,
          with_pending r _ v added,
          with_pending r _ v (delete-AreEntries str_dec (IsPending node_id) probe.nonce _ added),
        )

    abbrev IsOwn : ProbeTicket × Candidate → Type 0
    IsOwn (t, c) = t.source_node ≡ node_id

    probe_pairs-IsOwn :
        (now : ℕ) (cs : Map Bytes Candidate) (ts : Map Bytes ProbeTicket)
        → All IsOwn (probe_pairs host node_id now cs ts)
    unfolding probe_pairs
    probe_pairs-IsOwn now cs [] = tt
    probe_pairs-IsOwn now cs ((id, t) ∷ ts) = ground (arith, probe_pairs-IsOwn now cs ts)

    send_to_pairs-IsValid :
        (random : ℕ → Option Bytes) (at : ℕ → ℕ) (i : ℕ) (pairs : List (ProbeTicket × Candidate))
        (r : P2pRuntime)
        → All IsOwn pairs
        → IsValid node_id r
        → IsValid node_id (send_to_pairs host random at i pairs r).0
    unfolding send_to_pairs send_probe
    send_to_pairs-IsValid random at i [] r h v = v
    send_to_pairs-IsValid random at i ((t, c) ∷ pairs) r h v =
        send_to_pairs-IsValid random at (suc i) pairs _ h.1
          (send_made-IsValid r t c (at i) (probe_wire host t (random i)) h.0 v)

    observed-IsValid :
        (r : P2pRuntime) (p : Poll) (m : Option (List Candidate))
        → IsValid node_id r
        → IsValid node_id (poll_observed host r p m).0
    unfolding send_probes replace_candidates issue_needed_tickets
    observed-IsValid r p none v = v
    observed-IsValid r p (some cs) v =
        let s = replace_candidates r cs p.candidates_at in
        let s' = (issue_needed_tickets host s p.answer p.issue_at).0 in
        let w : IsValid node_id s = record {
          named = v.named;
          tickets = v.tickets;
          candidates =
              subst
                (λ n.
                  AreEntries str_dec (IsPeer node_id) (fresh_candidates n p.candidates_at cs []))
                (sym v.named) (fresh_candidates-AreEntries node_id p.candidates_at cs [] (tt, tt));
          pending = v.pending;
          replays = v.replays;
        } in
        let w' : IsValid node_id s' =
          issue_for_candidates-IsValid p.answer p.issue_at s.tickets s.last_issued s.candidates s
            w in
        send_to_pairs-IsValid p.random p.sent_at 0
          (probe_pairs host s'.node_id p.probe_at s'.candidates s'.tickets) s'
          (subst (λ n. All IsOwn (probe_pairs host n p.probe_at s'.candidates s'.tickets))
            (sym w'.named) (probe_pairs-IsOwn p.probe_at s'.candidates s'.tickets))
          w'

    pub listed-IsValid :
        (r : P2pRuntime) (p : Poll) (m : Option (List ProbeTicket))
        → IsValid node_id r
        → IsValid node_id (poll_listed host r p m).0
    unfolding replace_tickets
    listed-IsValid r p none v = v
    listed-IsValid r p (some ts) v =
        observed-IsValid (replace_tickets host r ts p.tickets_at) p p.observed (record {
          named = v.named;
          tickets =
              keep_unlisted-AreEntries p.tickets_at r.tickets
                (fresh_tickets host r.node_id p.tickets_at ts []) v.tickets.1
                (fresh_tickets-AreEntries r.node_id p.tickets_at ts [] (tt, tt));
          candidates = v.candidates;
          pending = keep_if-AreEntries str_dec (IsPending node_id) _ r.pending v.pending;
          replays = v.replays;
        })
