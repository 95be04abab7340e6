-- ===== src/P2p/Selector/Paths.antt =====
-- Which path Select chooses.
use xray_mesh.Base.{
  ℕ, ◌+◌, ◌≡◌, sym, ap, ◌∙◌, arith, Bool, false, Option, none, some, ltb, ◌==◌, if◌then◌else◌, ok,
  ite,
}
use xray_mesh.Base.Maps.{lookup, insert, lookup-insert, lookup-delete}
use xray_mesh.P2p.Selector.{
  DirectState, Selector, Selection, path_relay, path_direct, mark_direct_healthy,
  mark_direct_failed, select,
}
use xray_mesh.Telemetry.{P2pCounters}
use xray_mesh.Text.{Bytes, str_dec}
use xray_mesh.Text.Trim.{trim_space}

-- The choice for what is stored of a node.
abbrev pub choice : ℕ → Option DirectState → Selection
choice now none = path_relay
choice now (some d) = if ltb now d.healthy_until then path_direct d.endpoint else path_relay

pub select-choice :
    (s : Selector) (node_id : Bytes) (now : ℕ)
    → (select s node_id now).1 ≡ choice now (lookup str_dec (trim_space node_id) s.direct)
unfolding select
select-choice s node_id now = ground arith

-- What the mark stores, if it is accepted.
marked :
    (is_addr_port : Bytes → Bool) (s s' : Selector) (c c' : P2pCounters) (node_id endpoint : Bytes)
    (at now : ℕ)
    → mark_direct_healthy is_addr_port s c node_id endpoint at now ≡ ((s', c'), ok tt)
    → s' ≡ record s {
      direct =
          insert str_dec
            (trim_space node_id)
            (record {
              endpoint = trim_space endpoint;
              healthy_until = (if at == 0 then now else at) + s.direct_ttl;
            })
            s.direct;
    }
unfolding mark_direct_healthy
marked is_addr_port s s' c c' node_id endpoint at now e = ground arith

mark_law :
    (node other : Bytes) (later : ℕ) (d : DirectState) (s : Selector)
    → choice later (lookup str_dec other (insert str_dec node d s.direct))
      ≡ ite
          (str_dec node other)
          (if ltb later d.healthy_until then path_direct d.endpoint else path_relay)
          (choice later (lookup str_dec other s.direct))
mark_law node other later d s = ground (arith, lookup-insert str_dec node other d s.direct)

-- After an accepted mark the node's path is the trimmed endpoint until the mark's time to live has
-- passed, and the relay from then on; the choice for every other node is as before.
pub select-mark_direct_healthy :
    (is_addr_port : Bytes → Bool) (s s' : Selector) (c c' : P2pCounters)
    (node_id endpoint other : Bytes) (at now later : ℕ)
    → mark_direct_healthy is_addr_port s c node_id endpoint at now ≡ ((s', c'), ok tt)
    → (select s' other later).1
      ≡ ite
          (str_dec (trim_space node_id) (trim_space other))
          (if ltb later ((if at == 0 then now else at) + s.direct_ttl)
            then path_direct (trim_space endpoint)
            else path_relay)
          (select s other later).1
select-mark_direct_healthy is_addr_port s s' c c' node_id endpoint other at now later e =
    rw (marked is_addr_port s s' c c' node_id endpoint at now e) (
      select-choice _ other later
      ∙ mark_law (trim_space node_id) (trim_space other) later _ s
      ∙ ap (ite (str_dec (trim_space node_id) (trim_space other)) _)
          (sym (select-choice s other later)))

-- After a failure the node's path is the relay; the choice for every other node is as before.
pub select-mark_direct_failed :
    (s : Selector) (node_id other : Bytes) (now : ℕ)
    → (select (mark_direct_failed s node_id) other now).1
      ≡ ite (str_dec (trim_space node_id) (trim_space other)) path_relay (select s other now).1
unfolding mark_direct_failed
select-mark_direct_failed s node_id other now = ground (
  arith,
  select-choice (mark_direct_failed s node_id) other now,
  select-choice s other now,
  lookup-delete str_dec (trim_space node_id) (trim_space other) s.direct,
)

-- A choice, though it may delete an expired mark, changes no choice at the same time or later.
pub select-select :
    (s : Selector) (node_id other : Bytes) (now later : ℕ)
    → ltb later now ≡ false
    → (select (select s node_id now).0 other later).1 ≡ (select s other later).1
select-select s node_id other now later le =
    select-choice _ other later ∙ kept_choice ∙ sym (select-choice s other later)
  where
    kept_choice :
        choice later (lookup str_dec (trim_space other) (select s node_id now).0.direct)
        ≡ choice later (lookup str_dec (trim_space other) s.direct)
    kept_choice =
        unfold select in
        ground (arith, lookup-delete str_dec (trim_space node_id) (trim_space other) s.direct)
