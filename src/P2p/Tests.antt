-- ===== src/P2p/Tests.antt =====
-- A ticket, marks of a selector, and the theorems at them.
use xray_mesh.Base.{◌+◌, ◌≡◌, ◌↔◌, refl, arith, Bool, true, [], ◌∷◌, some, ltb, ok, ℕ_discrete}
use xray_mesh.Base.Maps.{lookup, insert, keep_if, delete, Unique}
use xray_mesh.P2p.Selector.{Selector, path_direct, mark_direct_healthy, mark_direct_failed, select}
use xray_mesh.P2p.Selector.Paths.{select-mark_direct_healthy}
use xray_mesh.P2p.Tickets.{
  ProbeTicket, TicketManager, prune_locked, issue_trimmed, issue, verify, forget_node,
}
use xray_mesh.P2p.Tickets.Live.{IsLive, verify_iff, verify-issue}
use xray_mesh.Telemetry.{P2pCounters, inc_direct_healthy}
use xray_mesh.Text.{Bytes, codes, str_dec}
use xray_mesh.Text.Hex.{encode_hex}
use xray_mesh.Text.Trim.{trim_space}

program : Unit {0}
unfolding ℕ_discrete prune_locked issue_trimmed issue verify forget_node lookup insert keep_if
    delete str_dec encode_hex trim_space inc_direct_healthy mark_direct_healthy mark_direct_failed
    select
program = tt

abbrev no_tickets : TicketManager
no_tickets = record { ttl = 100; tickets = [] }

abbrev ticket_ab : ProbeTicket
ticket_ab = record {
  ticket = codes "ab";
  source_node = codes "x";
  target_node = codes "y";
  issued_at = 10;
  expires_at = 110;
}

abbrev one_ticket : TicketManager
one_ticket = record { ttl = 100; tickets = (codes "ab", ticket_ab) ∷ [] }

issued :
    issue no_tickets (codes " x") (codes "y ") 10 (some (0xab ∷ [])) ≡ (one_ticket, ok ticket_ab)
unfolding program
issued = refl

one_ticket-Unique : Unique str_dec one_ticket.tickets
unfolding program
one_ticket-Unique = (refl, tt)

verify_iff_example : ((verify one_ticket (codes "ab") (codes "y") (codes "x") 50).1 ≡ true) ↔ (
    (t : ProbeTicket) × IsLive one_ticket
      (trim_space (codes "ab"))
      (trim_space (codes "y"))
      (trim_space (codes "x"))
      50
      t)
verify_iff_example = verify_iff one_ticket (codes "ab") (codes "y") (codes "x") 50 one_ticket-Unique

verify-issue_example :
    ((verify one_ticket (codes "ab") (codes " x") (codes "y ") 50).1 ≡ ltb 50 (10 + 100))
    × ((verify one_ticket (codes "ab") (codes "y ") (codes " x") 50).1 ≡ ltb 50 (10 + 100))
verify-issue_example =
    verify-issue no_tickets one_ticket (codes " x") (codes "y ") 10 50 (0xab ∷ []) ticket_ab
      (omega arith, tt) (λ e. cc) tt issued

-- The selector.
abbrev none_direct : Selector
none_direct = record { direct_ttl = 30; direct = [] }

abbrev counters : P2pCounters
counters = record {
  direct_healthy_marks = 0;
  direct_tx = 0;
  direct_rx = 0;
  direct_fallbacks = 0;
  replay_drops = 0;
}

abbrev one_direct : Selector
one_direct = record {
  direct_ttl = 30;
  direct = (codes "x", record { endpoint = codes "e"; healthy_until = 40 }) ∷ [];
}

abbrev any_endpoint : Bytes → Bool
any_endpoint e = true

marked :
    mark_direct_healthy any_endpoint none_direct counters (codes "x ") (codes " e") 10 12
    ≡ ((one_direct, record counters { direct_healthy_marks = 1 }), ok tt)
unfolding program
marked = refl

select-mark_direct_healthy_example : (select one_direct (codes "x") 39).1 ≡ path_direct (codes "e")
unfolding program
select-mark_direct_healthy_example =
    select-mark_direct_healthy any_endpoint none_direct one_direct counters
      (record counters { direct_healthy_marks = 1 }) (codes "x ") (codes " e") (codes "x") 10 12 39
      marked
