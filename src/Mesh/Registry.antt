-- ===== src/Mesh/Registry.antt =====
-- internal/mesh/registry.go and internal/mesh/peer.go. A time is a number of nanoseconds, 0 the
-- zero Time. The random bytes of a session token are an argument, `none` an error of the source of
-- randomness. The mutex makes each method one step.
pub mod Invariant
pub mod Register
pub mod Expire
pub mod Lookup
use xray_mesh.Base.{
  ℕ, Bool, Option, none, some, List, [], ◌∷◌, ◌++◌, map, ltb, ite, if◌then◌else◌, Result, ok, err,
  ◌>>=◌,
}
use xray_mesh.Base.Maps.{Map, lookup, insert, delete}
use xray_mesh.Base.Sort.{sort_by}
use xray_mesh.Mesh.Allocator.{Allocator, AllocatorError, new_allocator, allocate, release}
use xray_mesh.Netip.{Addr, Prefix, addr_dec, masked}
use xray_mesh.Text.{Bytes, str_dec, str_lt}
use xray_mesh.Text.Hex.{encode_hex}
use xray_mesh.Text.Trim.{trim_space}

pub record Peer : Type 0 where
  pub node_id : Bytes
  pub virtual_ip : Addr
  pub session_token : Bytes
  pub last_seen : ℕ

-- What a list of peers shows: no session token. (The address is printed by the encoder.)
pub record PeerView : Type 0 where
  pub node_id : Bytes
  pub virtual_ip : Addr
  pub last_seen : ℕ

unfoldable pub view : Peer → PeerView
view p = record { node_id = p.node_id; virtual_ip = p.virtual_ip; last_seen = p.last_seen }

pub record RegistrationView : Type 0 where
  pub node_id : Bytes
  pub virtual_ip : Addr
  pub network_prefix : Prefix
  pub session_token : Bytes
  pub heartbeat_interval_seconds : ℕ
  pub lease_ttl_seconds : ℕ

unfoldable pub registration : Peer → Prefix → RegistrationView
registration p network = record {
  node_id = p.node_id;
  virtual_ip = p.virtual_ip;
  network_prefix = network;
  session_token = p.session_token;
  heartbeat_interval_seconds = 0;
  lease_ttl_seconds = 0;
}

pub record Registry : Type 0 where
  pub allocator : Allocator
  pub prefix : Prefix
  pub peers : Map Bytes Peer
  pub by_ip : Map Addr Bytes
  pub by_token : Map Bytes Bytes

pub data RegistryError : Type 0 where
  invalid_node_id random_failed : RegistryError
  no_address : AllocatorError → RegistryError

unfoldable pub new_registry : Prefix → Result AllocatorError Registry
new_registry p = do
  a ← new_allocator p
  ok (record { allocator = a; prefix = masked p; peers = []; by_ip = []; by_token = [] })

-- The known peer with a new LastSeen.
abbrev pub seen : Registry → Bytes → Peer → ℕ → Registry
seen r node_id p now = record r {
  peers = insert str_dec node_id (record p { last_seen = now }) r.peers;
}

abbrev pub enter : Registry → Allocator → Peer → Registry
enter r a p = record r {
  allocator = a;
  peers = insert str_dec p.node_id p r.peers;
  by_ip = insert addr_dec p.virtual_ip p.node_id r.by_ip;
  by_token = insert str_dec p.session_token p.node_id r.by_token;
}

-- The peer is entered under a new token; without one the address is given back.
unfoldable pub register_leased :
    Registry
    → Bytes
    → ℕ
    → Option Bytes
    → Allocator × Result AllocatorError Addr
    → Registry × Result RegistryError Peer
register_leased r node_id now random (a, err e) = (record r { allocator = a }, err (no_address e))
register_leased r node_id now none (a, ok ip) =
    (record r { allocator = (release a node_id).0 }, err random_failed)
register_leased r node_id now (some bytes) (a, ok ip) =
    let p : Peer = record {
      node_id = node_id;
      virtual_ip = ip;
      session_token = encode_hex bytes;
      last_seen = now;
    } in
    (enter r a p, ok p)

unfoldable pub register_trimmed :
    Registry → Bytes → ℕ → Option Bytes → Registry × Result RegistryError Peer
register_trimmed r node_id now random = elim (lookup str_dec node_id r.peers) [
  | some p ↦ (seen r node_id p now, ok (record p { last_seen = now }))
  | none ↦ register_leased r node_id now random (allocate r.allocator node_id)
]

unfoldable pub register_at :
    Registry → Bytes → ℕ → Option Bytes → Registry × Result RegistryError Peer
register_at r node_id now random =
    ite (str_dec (trim_space node_id) []) (r, err invalid_node_id)
      (register_trimmed r (trim_space node_id) now random)

unfoldable pub get : Registry → Bytes → Option Peer
get r node_id = lookup str_dec node_id r.peers

unfoldable pub get_by_virtual_ip : Registry → Addr → Option Peer
get_by_virtual_ip r ip = elim (lookup addr_dec ip r.by_ip) [
  | none ↦ none
  | some node_id ↦ lookup str_dec node_id r.peers
]

unfoldable pub get_by_token : Registry → Bytes → Option Peer
get_by_token r token = elim (lookup str_dec token r.by_token) [
  | none ↦ none
  | some node_id ↦ lookup str_dec node_id r.peers
]

abbrev pub touch_found : Registry → Bytes → ℕ → Option Peer → Registry × Option Peer
touch_found r node_id now none = (r, none)
touch_found r node_id now (some p) = (seen r node_id p now, some (record p { last_seen = now }))

unfoldable pub touch_by_token : Registry → Bytes → ℕ → Registry × Option Peer
touch_by_token r token now = elim (lookup str_dec token r.by_token) [
  | none ↦ (r, none)
  | some node_id ↦ touch_found r node_id now (lookup str_dec node_id r.peers)
]

-- One expired peer is struck from every map.
unfoldable pub expire : Registry → Bytes → Peer → Registry
expire r node_id p = record r {
  allocator = (release r.allocator node_id).0;
  peers = delete str_dec node_id r.peers;
  by_ip = delete addr_dec p.virtual_ip r.by_ip;
  by_token = delete str_dec p.session_token r.by_token;
}

-- The loop over the peers as they are at its start; it deletes only the entry that it visits.
unfoldable pub expire_loop : ℕ → Map Bytes Peer → Registry → List Peer → Registry × List Peer
unfolding expire
expire_loop cutoff [] r expired = (r, expired)
expire_loop cutoff ((node_id, p) ∷ rest) r expired =
    expire_loop cutoff rest (if ltb cutoff p.last_seen then r else expire r node_id p)
      (if ltb cutoff p.last_seen then expired else expired ++ p ∷ [])

abbrev pub by_node_id : Peer → Peer → Bool
by_node_id p q = str_lt p.node_id q.node_id

unfoldable pub expire_before : Registry → ℕ → Registry × List Peer
unfolding expire_loop
expire_before r cutoff =
    let (r', expired) = expire_loop cutoff r.peers r [] in (r', sort_by by_node_id expired)

unfoldable pub list : Registry → List Peer
list r = sort_by by_node_id (map (λ e. e.1) r.peers)
