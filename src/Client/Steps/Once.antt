-- ===== src/Client/Steps/Once.antt =====
-- A direct payload and its replay, with other steps of the runtime in between.
use xray_mesh.Base.{
  ℕ, ◌<◌, ◌≡◌, ◌≢◌, refl, ap, ◌∙◌, subst, ◌⊎◌, inl, inr, arith, Bool, true, false, Option, none,
  some, List, [], ◌∷◌, ◌++◌, All-append, Result, ok, err, All,
}
use xray_mesh.Base.Maps.{Unique}
use xray_mesh.Client.Direct.{
  delivered, marked_source, after_replay, keyed, checked_ips, parsed_ip, from_candidate,
  handle_opened, handle_with_ticket, handle_identified, handle_direct_payload,
}
use xray_mesh.Client.Direct.Delivers.{IsAccepted, accepted_rest, handle_direct_payload_iff}
use xray_mesh.Client.Replay.{ReplayCache, bounded_expiry, accept_direct_replay_key}
use xray_mesh.Client.Replay.Once.{Call, call, run, replay_refused}
use xray_mesh.Client.Runtime.{P2pRuntime, Candidate, Host, selection}
use xray_mesh.Client.Steps.{Event, polled, selected, sent, got_probe, got_payload, step, run_events}
use xray_mesh.Client.Steps.Replays.{
  KeepsReplays, send_direct_payload-OnlyPaths, handle_probe_datagram-replays,
  run_poll_cycle-replays,
}
use xray_mesh.Netip.{Addr}
use xray_mesh.P2p.Data.{Opened, direct_payload_ticket_id, direct_payload_replay_key}
use xray_mesh.P2p.Secret.{P2pError}
use xray_mesh.P2p.Selector.{Selector, SelectorError}
use xray_mesh.P2p.Tickets.{ProbeTicket}
use xray_mesh.Packet.{PacketError}
use xray_mesh.Telemetry.{P2pCounters}
use xray_mesh.Text.{Bytes, str_dec}
use xray_mesh.Transport.Relay.{UdpAddr}

-- The time of a payload's arrival is before the given one; other steps may come at any time.
abbrev pub IsBefore : ℕ → Event → Type 0
IsBefore expiry (got_payload b source local now) = now < expiry
IsBefore expiry (polled p) = Unit
IsBefore expiry (selected node_id now) = Unit
IsBefore expiry (sent to payload now select_at random) = Unit
IsBefore expiry (got_probe b source now) = Unit

-- The step changes only the replay cache, the paths and the counters.
abbrev pub OnlyPayload : P2pRuntime → P2pRuntime → Type 0
OnlyPayload r r' =
    r' ≡ record r { replays = r'.replays; selector = r'.selector; counters = r'.counters }

module _ (host : Host) where
  -- What a payload's arrival does to the replay cache: at most one call of it, at that time.
  abbrev pub Calls : P2pRuntime → ℕ → P2pRuntime → Type 0
  Calls r now r' =
      OnlyPayload r r'
      × (KeepsReplays r r'
          ⊎ ((key : Bytes) × (expires_at : ℕ) × (r'.replays
                ≡ (accept_direct_replay_key r.replays key expires_at now).0)))

  marked_source_replays :
      (r : P2pRuntime) (text : Bytes)
      (m : (Selector × P2pCounters) × Result SelectorError (Unit {0}))
      → KeepsReplays r (marked_source host r text m).0
  marked_source_replays r text ((s, c), err e) = refl
  marked_source_replays r text ((s, c), ok u) = refl

  after_replay_replays :
      (r : P2pRuntime) (o : Opened) (source : UdpAddr) (now : ℕ) (m : ReplayCache × Bool)
      → (after_replay host r o source now m).0.replays ≡ m.0
  after_replay_replays r o source now (replays, false) = refl
  after_replay_replays r o source now (replays, true) =
      marked_source_replays (record r { replays = replays }) o.payload _

  marked_source_rest :
      (r : P2pRuntime) (text : Bytes)
      (m : (Selector × P2pCounters) × Result SelectorError (Unit {0}))
      → OnlyPayload r (marked_source host r text m).0
  marked_source_rest r text ((s, c), err e) = refl
  marked_source_rest r text ((s, c), ok u) = refl

  after_replay_rest :
      (r : P2pRuntime) (o : Opened) (source : UdpAddr) (now : ℕ) (m : ReplayCache × Bool)
      → OnlyPayload r (after_replay host r o source now m).0
  after_replay_rest r o source now (replays, false) = refl
  after_replay_rest r o source now (replays, true) =
      marked_source_rest (record r { replays = replays }) o.payload _

  module _ (r : P2pRuntime) (b : Bytes) (source : UdpAddr) (local : Addr) (now : ℕ) where
    keyed-Calls :
        (t : ProbeTicket) (o : Opened) (m : Result P2pError Bytes)
        → Calls r now (keyed host r t o source now m).0
    keyed-Calls t o (err e) = (refl, inl refl)
    keyed-Calls t o (ok key) = (
      after_replay_rest r o source now _,
      inr (key, t.expires_at, after_replay_replays r o source now _),
    )

    checked_ips-Calls :
        (t : ProbeTicket) (o : Opened) (expected : Addr) (m : Result PacketError (Addr × Addr))
        → Calls r now (checked_ips host r b t o source now expected local m).0
    checked_ips-Calls t o expected (err e) = (refl, inl refl)
    checked_ips-Calls t o expected (ok (src, dst)) =
        ground (arith, keyed-Calls t o (direct_payload_replay_key b))

    parsed_ip-Calls :
        (t : ProbeTicket) (o : Opened) (m : Option Addr)
        → Calls r now (parsed_ip host r b t o source now local m).0
    parsed_ip-Calls t o none = (refl, inl refl)
    parsed_ip-Calls t o (some ip) = checked_ips-Calls t o ip _

    from_candidate-Calls :
        (t : ProbeTicket) (o : Opened) (m : Option Candidate)
        → Calls r now (from_candidate host r b t o source now local m).0
    from_candidate-Calls t o none = (refl, inl refl)
    from_candidate-Calls t o (some c) = parsed_ip-Calls t o _

    handle_opened-Calls :
        (t : ProbeTicket) (m : Result P2pError Opened)
        → Calls r now (handle_opened host r b t source now local m).0
    handle_opened-Calls t (err e) = (refl, inl refl)
    handle_opened-Calls t (ok o) = from_candidate-Calls t o _

    handle_with_ticket-Calls :
        (m : Option ProbeTicket) → Calls r now (handle_with_ticket host r b source now local m).0
    handle_with_ticket-Calls none = (refl, inl refl)
    handle_with_ticket-Calls (some t) = handle_opened-Calls t _

    handle_identified-Calls :
        (m : Result P2pError Bytes) → Calls r now (handle_identified host r b source now local m).0
    handle_identified-Calls (err e) = (refl, inl refl)
    handle_identified-Calls (ok id) = handle_with_ticket-Calls _

    pub handle_direct_payload-Calls :
        Calls r now (handle_direct_payload host r b source local now).0
    unfolding handle_direct_payload
    handle_direct_payload-Calls = handle_identified-Calls (direct_payload_ticket_id b)

    -- The call that a delivered payload made.
    accepted_call :
        (payload : Bytes) (a : IsAccepted host r b source local now payload)
        → (handle_direct_payload host r b source local now).0.replays
          ≡ (accept_direct_replay_key r.replays a.key a.t.expires_at now).0
    accepted_call payload a =
        ap (λ m. m.0.replays) (accepted_rest host r b source local now payload a)
        ∙ after_replay_replays r a.o source now _

  -- The steps as calls of the replay cache.
  step_calls :
      (r : P2pRuntime) (e : Event) (expiry : ℕ)
      → IsBefore expiry e
      → (cs : List Call) × All (λ c. c.now < expiry) cs
        × ((step host r e).replays ≡ run r.replays cs)
  unfolding step run selection
  step_calls r (polled p) expiry h = ([], tt, run_poll_cycle-replays host r p)
  step_calls r (selected id now) expiry h = ([], tt, refl)
  step_calls r (sent to payload now at random) expiry h =
      ([], tt, ap (λ s. s.replays) (send_direct_payload-OnlyPaths host r to payload now at random))
  step_calls r (got_probe b source now) expiry h =
      ([], tt, handle_probe_datagram-replays host r b source now)
  step_calls r (got_payload b source local now) expiry h =
      elim (handle_direct_payload-Calls r b source local now).1 [
        | inl e ↦ ([], tt, e)
        | inr (key, expires_at, e) ↦
            (record { key = key; expires_at = expires_at; now = now } ∷ [], (h, tt), e)
      ]

  run-append : (m : ReplayCache) (cs ds : List Call) → run (run m cs) ds ≡ run m (cs ++ ds)
  unfolding run
  run-append m [] ds = refl
  run-append m (c ∷ cs) ds = run-append (call m c).0 cs ds

  events_calls :
      (r : P2pRuntime) (es : List Event) (expiry : ℕ)
      → All (IsBefore expiry) es
      → (cs : List Call) × All (λ c. c.now < expiry) cs
        × ((run_events host r es).replays ≡ run r.replays cs)
  unfolding run_events run
  events_calls r [] expiry h = ([], tt, refl)
  events_calls r (e ∷ es) expiry h =
      let (cs, before, f) = step_calls r e expiry h.0 in
      let (ds, after, g) = events_calls (step host r e) es expiry h.1 in
      (
        cs ++ ds,
        All-append (λ c. c.now < expiry) cs ds before after,
        g ∙ ap (λ m. run m ds) f ∙ run-append r.replays cs ds,
      )

  -- A payload that was taken in is never delivered again, whatever sources and texts are claimed:
  -- neither at once nor after polls, probes, sends and other payloads, at any time before the expiry
  -- of its ticket, or 30 seconds from its arrival if the ticket has none. The cache holds each key
  -- once.
  pub payload_delivered_once :
      (r : P2pRuntime) (b : Bytes) (source again : UdpAddr) (local there : Addr) (now later : ℕ)
      (payload text : Bytes) (es : List Event)
      → Unique str_dec r.replays
      → (a : IsAccepted host r b source local now payload)
      → All (IsBefore (bounded_expiry a.t.expires_at now)) es
      → later < bounded_expiry a.t.expires_at now
      → (handle_direct_payload host
          (run_events host (handle_direct_payload host r b source local now).0 es)
          b
          again
          there
          later).1
        ≢ delivered text
  payload_delivered_once r b source again local there now later payload text es u a h lt d =
      let s = (handle_direct_payload host r b source local now).0 in
      let a' =
        (handle_direct_payload_iff host (run_events host s es) b again there later text).0 d in
      let (cs, before, f) = events_calls s es (bounded_expiry a.t.expires_at now) h in
      let c : Call = record { key = a.key; expires_at = a.t.expires_at; now = now } in
      let refused = replay_refused r.replays c cs a'.t.expires_at later u a.fresh before lt in
      let cache : (run_events host s es).replays ≡ run (call r.replays c).0 cs =
        f ∙ ap (λ m. run m cs) (accepted_call r b source local now payload a) in
      let same : a'.key ≡ a.key = (let k = a.keyed in let k' = a'.keyed in cc) in
      let taken : (accept_direct_replay_key (run_events host s es).replays a'.key a'.t.expires_at
            later).1
          ≡ true =
        a'.fresh in
      let impossible : (accept_direct_replay_key (run (call r.replays c).0 cs) a.key a'.t.expires_at
            later).1
          ≡ true =
        subst (λ m. (accept_direct_replay_key m a.key a'.t.expires_at later).1 ≡ true) cache
          (subst
            (λ k.
              (accept_direct_replay_key (run_events host s es).replays k a'.t.expires_at later).1
              ≡ true)
            same taken) in
      cc
