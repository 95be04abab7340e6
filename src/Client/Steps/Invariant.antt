-- ===== src/Client/Steps/Invariant.antt =====
-- What holds of a runtime after every sequence of steps.
use xray_mesh.Client.Steps.WellFormed.{IsPending, IsValid, listed-IsValid}
use xray_mesh.Base.{ℕ, refl, sym, subst, inl, inr, List, [], ◌∷◌}
use xray_mesh.Base.Entries.{delete-AreEntries}
use xray_mesh.Base.Maps.{Unique}
use xray_mesh.Client.Acks.{IsAck, handle_probe_datagram_changes}
use xray_mesh.Client.Replay.Once.{call-Unique}
use xray_mesh.Client.Runtime.{P2pRuntime, Host, new_runtime, selection}
use xray_mesh.Client.Runtime.Polls.{run_poll_cycle}
use xray_mesh.Client.Steps.{Event, polled, selected, sent, got_probe, got_payload, step, run_events}
use xray_mesh.Client.Steps.Once.{OnlyPayload, handle_direct_payload-Calls}
use xray_mesh.Client.Steps.Replays.{OnlyPaths, send_direct_payload-OnlyPaths}
use xray_mesh.Telemetry.{P2pCounters}
use xray_mesh.Text.{Bytes, str_dec}
use xray_mesh.Transport.Relay.{UdpAddr}

module _ (host : Host) where
  module _ (node_id : Bytes) where
    -- The other steps.
    of_paths :
        {r r' : P2pRuntime} → OnlyPaths r r' → IsValid host node_id r → IsValid host node_id r'
    of_paths e v = subst (IsValid host node_id) (sym e) (record {
      named = v.named;
      tickets = v.tickets;
      candidates = v.candidates;
      pending = v.pending;
      replays = v.replays;
    })

    of_payload :
        {r r' : P2pRuntime}
        → OnlyPayload r r'
        → Unique str_dec r'.replays
        → IsValid host node_id r
        → IsValid host node_id r'
    of_payload e u v = subst (IsValid host node_id) (sym e) (record {
      named = v.named;
      tickets = v.tickets;
      candidates = v.candidates;
      pending = v.pending;
      replays = u;
    })

    of_ack :
        {r r' : P2pRuntime} {b : Bytes} {source : UdpAddr} {now : ℕ}
        → IsAck host r b source now r'
        → IsValid host node_id r
        → IsValid host node_id r'
    of_ack a v = subst (IsValid host node_id) (sym a.left) (record {
      named = v.named;
      tickets = v.tickets;
      candidates = v.candidates;
      pending = delete-AreEntries str_dec (IsPending host node_id) a.frame.nonce _ v.pending;
      replays = v.replays;
    })

    step-IsValid :
        (r : P2pRuntime) (e : Event) → IsValid host node_id r → IsValid host node_id (step host r e)
    unfolding step selection run_poll_cycle
    step-IsValid r (polled p) v = listed-IsValid host node_id r p p.listed v
    step-IsValid r (selected id now) v = of_paths refl v
    step-IsValid r (sent to payload now at random) v =
        of_paths (send_direct_payload-OnlyPaths host r to payload now at random) v
    step-IsValid r (got_probe b source now) v =
        elim (handle_probe_datagram_changes host r b source now) [
          | inl e ↦ subst (IsValid host node_id) (sym e) v
          | inr a ↦ of_ack a v
        ]
    step-IsValid r (got_payload b source local now) v =
        let (only, calls) = handle_direct_payload-Calls host r b source local now in
        elim calls [
          | inl e ↦ of_payload only (subst (Unique str_dec) (sym e) v.replays) v
          | inr (key, expires_at, e) ↦
              of_payload only
                (subst (Unique str_dec) (sym e) (
                  call-Unique r.replays (record { key = key; expires_at = expires_at; now = now })
                    v.replays))
                v
        ]

    run_events_from :
        (r : P2pRuntime) (es : List Event)
        → IsValid host node_id r
        → IsValid host node_id (run_events host r es)
    unfolding run_events
    run_events_from r [] v = v
    run_events_from r (e ∷ es) v = run_events_from (step host r e) es (step-IsValid r e v)

    -- After every sequence of polls, selections, sends and datagrams, from the new runtime on, each
    -- ticket stands under its own identifier, each candidate is another node and stands under its
    -- name, each pending probe stands under its nonce, goes to its ticket's target and comes from
    -- this node, and each key stands once in these maps and in the replay cache.
    pub run_events-IsValid :
        (counters : P2pCounters) (es : List Event)
        → IsValid host node_id (run_events host (new_runtime node_id counters) es)
    unfolding new_runtime
    run_events-IsValid counters es = run_events_from (new_runtime node_id counters) es (record {
      named = refl;
      tickets = (tt, tt);
      candidates = (tt, tt);
      pending = (tt, tt);
      replays = tt;
    })
