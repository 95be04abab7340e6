-- ===== src/Server/Tickets.antt =====
-- To whom the coordinator gives tickets.
use xray_mesh.Base.{
  ℕ, ◌≡◌, ◌≢◌, refl, inl, inr, arith, ◌||◌, Option, none, some, [], Result, ok, err, Option-cases,
  Bool-cases,
}
use xray_mesh.Mesh.Registry.{Peer, Registry, get, get_by_token}
use xray_mesh.P2p.Tickets as Manager
use xray_mesh.P2p.Tickets.{ProbeTicket, TicketManager, TicketError, str_eq, issue_trimmed}
use xray_mesh.Server.{
  Api, issued, bearer_token, authenticated_peer, issued_at, issue_for, issue_decoded,
  issue_probe_ticket,
}
use xray_mesh.Text.{Bytes}
use xray_mesh.Text.Trim.{trim_space}
use xray_mesh.Transport.Relay.{Platform}

issue_trimmed-nodes :
    (m m' : TicketManager) (source target : Bytes) (now : ℕ) (random : Option Bytes)
    (t : ProbeTicket)
    → issue_trimmed m source target now random ≡ (m', ok t)
    → (t.source_node ≡ source) × (t.target_node ≡ target)
unfolding issue_trimmed
issue_trimmed-nodes m m' source target now none t e = absurd (ground arith)
issue_trimmed-nodes m m' source target now (some b) t e = (ground arith, ground arith)

issue-nodes :
    (m m' : TicketManager) (source target : Bytes) (now : ℕ) (random : Option Bytes)
    (t : ProbeTicket)
    → Manager.issue m source target now random ≡ (m', ok t)
    → (t.source_node ≡ trim_space source) × (t.target_node ≡ trim_space target)
unfolding Manager.issue
issue-nodes m m' source target now random t e =
    elim (Bool-cases (str_eq (trim_space source) [] || str_eq (trim_space target) [])) [
      | inl h ↦ absurd (ground arith)
      | inr h ↦ elim (Bool-cases (str_eq (trim_space source) (trim_space target))) [
        | inl g ↦ absurd (ground arith)
        | inr g ↦
            issue_trimmed-nodes m m' (trim_space source) (trim_space target) now random t
              (ground arith)
      ]
    ]

authenticated_peer-token :
    (r : Registry) (header : Bytes) (p : Peer)
    → authenticated_peer r header ≡ some p
    → get_by_token r (bearer_token header) ≡ some p
unfolding authenticated_peer
authenticated_peer-token r header p e = ground arith

module _ (pf : Platform) (a b : Api pf) (now s : ℕ) (random : Option Bytes) (t : ProbeTicket) where
  -- The ticket is for `source` and another registered node, `target`.
  abbrev pub IsFor : Peer → Bytes → Type 0
  IsFor source target =
      (t.source_node ≡ trim_space source.node_id)
      × (t.target_node ≡ trim_space target)
      × (target ≢ source.node_id)
      × (q : Peer) × (get a.registry target ≡ some q)

  issued_at-nodes :
      (x : TicketManager × Result TicketError ProbeTicket)
      → issued_at pf a x ≡ (b, issued s t)
      → (m : TicketManager) × (x ≡ (m, ok t))
  issued_at-nodes (m, err e) h = absurd (ground arith)
  issued_at-nodes (m, ok u) h = (m, ground arith)

  issue_for-IsFor :
      (m : TicketManager) (source : Peer) (target : Bytes)
      → issue_for pf a m source target now random ≡ (b, issued s t)
      → IsFor source target
  unfolding issue_for
  issue_for-IsFor m source target e = elim (Bool-cases (str_eq target [])) [
    | inl h ↦ absurd (ground arith)
    | inr h ↦ elim (Bool-cases (str_eq target source.node_id)) [
      | inl g ↦ absurd (ground arith)
      | inr g ↦ elim (Option-cases (get a.registry target)) [
        | inl f ↦ absurd (ground arith)
        | inr (q, f) ↦
            let (m', i) =
              issued_at-nodes (Manager.issue m source.node_id target now random) (ground arith) in
            let (x, y) = issue-nodes m m' source.node_id target now random t i in
            (x, y, ground arith, q, f)
      ]
    ]
  ]

  issue_decoded-IsFor :
      (source : Peer) (manager : Option TicketManager) (target_node : Option Bytes)
      → issue_decoded pf a source manager target_node now random ≡ (b, issued s t)
      → (name : Bytes) × (target_node ≡ some name) × IsFor source (trim_space name)
  issue_decoded-IsFor source none target_node e = absurd (ground arith)
  issue_decoded-IsFor source (some m) none e = absurd (ground arith)
  issue_decoded-IsFor source (some m) (some name) e =
      (name, refl, issue_for-IsFor m source (trim_space name) e)

-- A ticket is issued only to a request whose bearer token is the session token of a registered
-- peer, which then is the source of the ticket; its target is the node that the request names,
-- which is registered and is not the source.
pub issue_probe_ticket_source :
    (pf : Platform) (a b : Api pf) (header : Bytes) (target_node : Option Bytes) (now s : ℕ)
    (random : Option Bytes) (t : ProbeTicket)
    → issue_probe_ticket pf a header target_node now random ≡ (b, issued s t)
    → (source : Peer) × (get_by_token a.registry (bearer_token header) ≡ some source)
      × (name : Bytes) × (target_node ≡ some name)
      × (t.source_node ≡ trim_space source.node_id)
      × (t.target_node ≡ trim_space (trim_space name))
      × (trim_space name ≢ source.node_id)
      × (q : Peer) × (get a.registry (trim_space name) ≡ some q)
unfolding issue_probe_ticket
issue_probe_ticket_source pf a b header target_node now s random t e =
    elim (Option-cases (authenticated_peer a.registry header)) [
      | inl h ↦ absurd (ground arith)
      | inr (source, h) ↦
          let (name, f, x) =
            issue_decoded-IsFor pf a b now s random t source a.tickets target_node (ground arith) in
          (
            source,
            authenticated_peer-token a.registry header source h,
            name,
            f,
            x.0,
            x.1,
            x.2,
            x.3,
            x.4,
          )
    ]
