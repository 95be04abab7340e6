-- ===== src/P2p/Tickets.antt =====
-- internal/p2p/tickets.go. The clock and the random token are arguments of a call; a token of
-- `none` is an error of the source of randomness.
pub mod Names
pub mod Live
use xray_mesh.Base.{
  ℕ, zero, suc, ◌+◌, ℤ, pos, negsuc, Bool, true, false, not, ◌&&◌, ◌||◌, Option, none, some, List,
  [], ◌∷◌, ltb, ◌==◌, if◌then◌else◌, is_yes, Result, ok, err,
}
use xray_mesh.Base.Maps.{Map, lookup, insert, keep_if}
use xray_mesh.Base.Sort.{sort_by}
use xray_mesh.Text.{Bytes, str_dec, str_lt}
use xray_mesh.Text.Hex.{encode_hex}
use xray_mesh.Text.Trim.{trim_space}

pub data TicketError : Type 0 where
  ticket_node_required ticket_self_pair random_failed : TicketError

pub record ProbeTicket : Type 0 where
  pub ticket : Bytes
  pub source_node : Bytes
  pub target_node : Bytes
  pub issued_at : ℕ
  pub expires_at : ℕ

pub record TicketManager : Type 0 where
  pub ttl : ℕ
  pub tickets : Map Bytes ProbeTicket

-- 30 seconds, in nanoseconds.
abbrev pub default_probe_ticket_ttl : ℕ
default_probe_ticket_ttl = 30_000_000_000

-- A duration that is not positive means the default.
abbrev pub positive_or : ℕ → ℤ → ℕ
positive_or d (negsuc n) = d
positive_or d (pos zero) = d
positive_or d (pos (suc n)) = suc n

unfoldable pub new_ticket_manager : ℤ → TicketManager
new_ticket_manager ttl = record { ttl = positive_or default_probe_ticket_ttl ttl; tickets = [] }

abbrev pub str_eq : Bytes → Bytes → Bool
str_eq s t = is_yes (str_dec s t)

abbrev pub involves : Bytes → ProbeTicket → Bool
involves node t = str_eq t.source_node node || str_eq t.target_node node

-- The pair of nodes of the ticket, in either order.
abbrev pub of_pair : Bytes → Bytes → ProbeTicket → Bool
of_pair a b t =
    (str_eq t.source_node a && str_eq t.target_node b)
    || (str_eq t.source_node b && str_eq t.target_node a)

unfoldable pub prune_locked : ℕ → TicketManager → TicketManager
prune_locked now m = record m { tickets = keep_if (λ _ t. ltb now t.expires_at) m.tickets }

unfoldable pub issue_trimmed :
    TicketManager
    → Bytes
    → Bytes
    → ℕ
    → Option Bytes
    → TicketManager × Result TicketError ProbeTicket
unfolding prune_locked
issue_trimmed m source target now none = (m, err random_failed)
issue_trimmed m source target now (some bytes) =
    let token = encode_hex bytes in
    let t : ProbeTicket = record {
      ticket = token;
      source_node = source;
      target_node = target;
      issued_at = now;
      expires_at = now + m.ttl;
    } in
    let pruned = prune_locked now m in
    (record pruned { tickets = insert str_dec token t pruned.tickets }, ok t)

unfoldable pub issue :
    TicketManager
    → Bytes
    → Bytes
    → ℕ
    → Option Bytes
    → TicketManager × Result TicketError ProbeTicket
issue m source_node target_node now random =
    let source = trim_space source_node in
    let target = trim_space target_node in
    if str_eq source [] || str_eq target []
    then (m, err ticket_node_required)
    else if str_eq source target
    then (m, err ticket_self_pair)
    else issue_trimmed m source target now random

-- By expiry, then by token.
abbrev pub ticket_less : ProbeTicket → ProbeTicket → Bool
ticket_less s t =
    if s.expires_at == t.expires_at then str_lt s.ticket t.ticket else ltb s.expires_at t.expires_at

-- The loop of ListForNode.
unfoldable pub tickets_of : Bytes → Map Bytes ProbeTicket → List ProbeTicket
tickets_of node [] = []
tickets_of node ((_, t) ∷ m) =
    let rest = tickets_of node m in if involves node t then t ∷ rest else rest

unfoldable pub list_for_node : TicketManager → Bytes → ℕ → TicketManager × List ProbeTicket
unfolding prune_locked tickets_of
list_for_node m node_id now =
    let node = trim_space node_id in
    let pruned = prune_locked now m in
    if str_eq node []
    then (m, [])
    else (pruned, sort_by ticket_less (tickets_of node pruned.tickets))

abbrev pub pair_found : Bytes → Bytes → Option ProbeTicket → Bool
pair_found a b none = false
pair_found a b (some t) = of_pair a b t

unfoldable pub verify : TicketManager → Bytes → Bytes → Bytes → ℕ → TicketManager × Bool
unfolding prune_locked
verify m token node_a node_b now =
    let k = trim_space token in
    let a = trim_space node_a in
    let b = trim_space node_b in
    let pruned = prune_locked now m in
    if str_eq k [] || str_eq a [] || str_eq b [] || str_eq a b
    then (m, false)
    else (pruned, pair_found a b (lookup str_dec k pruned.tickets))

unfoldable pub forget_node : TicketManager → Bytes → TicketManager
forget_node m node_id =
    let node = trim_space node_id in
    if str_eq node []
    then m
    else record m { tickets = keep_if (λ _ t. not (involves node t)) m.tickets }

unfoldable pub prune : TicketManager → ℕ → TicketManager
unfolding prune_locked
prune m now = prune_locked now m
