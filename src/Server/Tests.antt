-- ===== src/Server/Tests.antt =====
-- Coordinators with one and two peers, and the theorems at them.
use xray_mesh.Base.{
  ◌-◌, ◌≡◌, ◌≢◌, refl, true, [], ◌∷◌, some, none, ltb, if◌then◌else◌, ok, ℕ_discrete,
}
use xray_mesh.Base.Maps.{lookup, insert, delete, keep_if}
use xray_mesh.Base.Sort.{sort_by}
use xray_mesh.Mesh.Allocator.{
  add_ipv4, allocate, allocate_below, allocate_new, last_offset, new_allocator, scan,
}
use xray_mesh.Mesh.Registry.{
  Peer, Registry, get, get_by_token, new_registry, register_at, register_leased, register_trimmed,
}
use xray_mesh.Mesh.Registry.Invariant.{IsValid}
use xray_mesh.Mesh.Registry.Register.{IsFresh, new_registry-IsValid, register_at-IsValid}
use xray_mesh.Netip.{Prefix, prefix, from4, addr_dec, block, masked}
use xray_mesh.P2p.Tickets.{ProbeTicket, issue, issue_trimmed, prune_locked}
use xray_mesh.Server.{
  Api, issued, authenticated_peer, bearer_token, issue_for, issue_probe_ticket, sweep,
}
use xray_mesh.Server.Sweep.{sweep_lem}
use xray_mesh.Server.Tickets.{issue_probe_ticket_source}
use xray_mesh.Text.{Bytes, codes, has_prefix, str_dec, str_lt}
use xray_mesh.Text.Hex.{encode_hex}
use xray_mesh.Text.Trim.{trim_space}
use xray_mesh.Transport.Relay.{Platform, Relay}
use xray_mesh.Transport.Whole.{whole_floats}

program : Unit {0}
unfolding ℕ_discrete lookup insert delete keep_if sort_by str_dec addr_dec str_lt has_prefix
    trim_space encode_hex masked block add_ipv4 last_offset scan allocate_below allocate_new
    allocate new_allocator new_registry register_leased register_trimmed register_at get
    get_by_token prune_locked issue_trimmed issue bearer_token authenticated_peer issue_for
    issue_probe_ticket
program = tt

abbrev pf : Platform
pf = record { floats = whole_floats; sha256 = λ b. b; write_ok = λ to b. true }

abbrev net : Prefix
net = prefix (from4 (10, 66, 0, 0)) 29

abbrev empty : Registry
empty = record {
  allocator = record { prefix = net; next = 2; by_node = []; used = [] };
  prefix = net;
  peers = [];
  by_ip = [];
  by_token = [];
}

new_empty : new_registry net ≡ ok empty
unfolding program
new_empty = refl

abbrev alpha : Peer
alpha = record {
  node_id = codes "a";
  virtual_ip = from4 (10, 66, 0, 2);
  session_token = codes "01";
  last_seen = 50;
}

abbrev beta : Peer
beta = record {
  node_id = codes "b";
  virtual_ip = from4 (10, 66, 0, 3);
  session_token = codes "02";
  last_seen = 90;
}

unfoldable one : Registry
unfolding register_at
one = (register_at empty (codes "a") 50 (some (1 ∷ []))).0

empty-IsValid : IsValid empty
empty-IsValid = new_registry-IsValid net empty new_empty

empty-IsFresh : IsFresh empty (some (1 ∷ []))
unfolding lookup
empty-IsFresh = λ b e. refl

one-IsValid : IsValid one
unfolding one
one-IsValid = register_at-IsValid empty (codes "a") 50 (some (1 ∷ [])) empty-IsValid empty-IsFresh

abbrev no_relay : Relay pf
no_relay = record {
  endpoints =
      (
        codes "a",
        record { addr = record { ip = from4 (192, 0, 2, 1); port = 9 }; observed_at = 50 },
      )
      ∷ [];
  discovery = [];
  options = record { rate = 20; burst = 40; window = 0 };
}

-- One peer, last seen at 50, and leases of 30.
abbrev coordinator : Api pf
coordinator = record {
  registry = one;
  relay = no_relay;
  tickets = none;
  heartbeat_interval = 10;
  lease_ttl = 30;
}

alpha_found : get one (codes "a") ≡ some alpha
unfolding program one
alpha_found = refl

sweep_lem_example :
    let b = sweep pf coordinator 100 101 in
    let alive = ltb (100 - 30) 50 in
    (get b.registry (codes "a") ≡ (if alive then some alpha else none))
    × (lookup str_dec (codes "a") b.relay.endpoints
        ≡ (if alive then lookup str_dec (codes "a") coordinator.relay.endpoints else none))
    × (lookup str_dec (codes "a") b.relay.discovery
        ≡ (if alive then lookup str_dec (codes "a") coordinator.relay.discovery else none))
sweep_lem_example = sweep_lem pf coordinator 100 101 (codes "a") alpha one-IsValid alpha_found

-- Two peers, and a manager of tickets.
abbrev peers : Registry
peers = record empty {
  peers = (codes "a", alpha) ∷ (codes "b", beta) ∷ [];
  by_token = (codes "01", codes "a") ∷ (codes "02", codes "b") ∷ [];
}

abbrev issuer : Api pf
issuer = record {
  registry = peers;
  relay = no_relay;
  tickets = some (record { ttl = 100; tickets = [] });
  heartbeat_interval = 10;
  lease_ttl = 30;
}

abbrev ticket_ab : ProbeTicket
ticket_ab = record {
  ticket = codes "07";
  source_node = codes "a";
  target_node = codes "b";
  issued_at = 60;
  expires_at = 160;
}

ticket_given :
    issue_probe_ticket pf issuer (codes "Bearer 01") (some (codes " b")) 60 (some (7 ∷ [])) ≡ (
      record issuer {
        tickets = some (record { ttl = 100; tickets = (codes "07", ticket_ab) ∷ [] });
      },
      issued 201 ticket_ab,
    )
unfolding program
ticket_given = refl

issue_probe_ticket_source_example :
    (source : Peer) × (get_by_token peers (bearer_token (codes "Bearer 01")) ≡ some source)
    × (name : Bytes) × (some (codes " b") ≡ some name)
    × (ticket_ab.source_node ≡ trim_space source.node_id)
    × (ticket_ab.target_node ≡ trim_space (trim_space name))
    × (trim_space name ≢ source.node_id)
    × (q : Peer) × (get peers (trim_space name) ≡ some q)
issue_probe_ticket_source_example =
    issue_probe_ticket_source pf issuer
      (record issuer {
        tickets = some (record { ttl = 100; tickets = (codes "07", ticket_ab) ∷ [] });
      })
      (codes "Bearer 01") (some (codes " b")) 60 201 (some (7 ∷ [])) ticket_ab ticket_given
