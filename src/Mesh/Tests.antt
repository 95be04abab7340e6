-- ===== src/Mesh/Tests.antt =====
-- Runs of the allocator and the registry, and the theorems at them.
use xray_mesh.Base.{
  ◌+◌, ◌*◌, ◌^◌, ◌≡◌, ◌↔◌, refl, none, some, [], ◌∷◌, arith, ok, err, true, ℕ_discrete,
}
use xray_mesh.Base.Maps.{lookup, insert, delete}
use xray_mesh.Base.Sort.{sort_by}
use xray_mesh.Mesh.Allocator.{
  Allocator, pool_exhausted, new_allocator, allocate, release, add_ipv4, allocate_new,
  allocate_below, scan, last_offset,
}
use xray_mesh.Mesh.Allocator.History.{
  allocates, releases, step, run, run_distinct, release_reuse, host_in_pool,
}
use xray_mesh.Mesh.Allocator.Invariant as PoolInvariant
use xray_mesh.Mesh.Allocator.Laws.{IsFull, Grant, allocate_grants, allocate_exhausted_iff}
use xray_mesh.Mesh.Registry.{
  Peer, Registry, new_registry, register_at, register_trimmed, register_leased, get, get_by_token,
  touch_by_token, expire, expire_loop, expire_before,
}
use xray_mesh.Mesh.Registry.Expire.{expire_before-IsValid, get-expire_before}
use xray_mesh.Mesh.Registry.Invariant as PeerInvariant
use xray_mesh.Mesh.Registry.Lookup.{Found, register_finds}
use xray_mesh.Mesh.Registry.Register.{new_registry-IsValid, IsFresh, register_at-IsValid}
use xray_mesh.Netip.{Addr, Prefix, prefix, from4, addr_dec, masked, block, contains}
use xray_mesh.Text.{Bytes, codes, str_dec, str_lt}
use xray_mesh.Text.Hex.{encode_hex}
use xray_mesh.Text.Trim.{trim_space}

program : Unit {0}
unfolding ℕ_discrete new_allocator masked block add_ipv4 last_offset scan allocate_below
    allocate_new allocate release new_registry register_leased register_trimmed register_at
    touch_by_token expire expire_loop expire_before get get_by_token trim_space encode_hex lookup
    insert delete str_dec addr_dec str_lt sort_by
program = tt

-- 10.66.0.0/30 leaves one host address.
abbrev net : Prefix
net = prefix (from4 (10, 66, 0, 0)) 30

abbrev alpha : Bytes
alpha = codes "alpha"

abbrev beta : Bytes
beta = codes "beta"

abbrev fresh_pool : Allocator
fresh_pool = record { prefix = net; next = 2; by_node = []; used = [] }

abbrev lease_ip : Addr
lease_ip = from4 (10, 66, 0, 2)

abbrev full_pool : Allocator
full_pool = record fresh_pool {
  next = 3;
  by_node = (alpha, lease_ip) ∷ [];
  used = (lease_ip, alpha) ∷ [];
}

new_pool : new_allocator (prefix (from4 (10, 66, 0, 3)) 30) ≡ ok fresh_pool
unfolding program
new_pool = refl

first_lease : allocate fresh_pool alpha ≡ (full_pool, ok lease_ip)
unfolding program
first_lease = refl

second_lease : allocate full_pool beta ≡ (full_pool, err pool_exhausted)
unfolding program
second_lease = refl

fresh_pool-IsValid : PoolInvariant.IsValid fresh_pool
fresh_pool-IsValid = PoolInvariant.new_allocator-IsValid (prefix (from4 (10, 66, 0, 3)) 30) new_pool

full_pool-IsValid : PoolInvariant.IsValid full_pool
unfolding program
full_pool-IsValid = PoolInvariant.allocate-IsValid fresh_pool alpha fresh_pool-IsValid

full_pool-IsFull : IsFull full_pool
full_pool-IsFull = ((allocate_exhausted_iff full_pool beta full_pool-IsValid).0 second_lease).1

allocate_grants_example :
    Grant fresh_pool alpha lease_ip full_pool
    × (allocate full_pool alpha ≡ (full_pool, ok lease_ip))
allocate_grants_example =
    allocate_grants fresh_pool full_pool alpha lease_ip fresh_pool-IsValid first_lease

allocate_exhausted_iff_example :
    (allocate full_pool beta ≡ (full_pool, err pool_exhausted))
    ↔ ((lookup str_dec beta full_pool.by_node ≡ none) × IsFull full_pool)
allocate_exhausted_iff_example = allocate_exhausted_iff full_pool beta full_pool-IsValid

run_distinct_example : alpha ≡ alpha
unfolding program run step
run_distinct_example =
    run_distinct (prefix (from4 (10, 66, 0, 3)) 30) fresh_pool
      (allocates alpha ∷ allocates beta ∷ releases beta ∷ []) alpha alpha lease_ip new_pool refl
      refl

release_reuse_example : (allocate (release full_pool alpha).0 beta).1 ≡ ok lease_ip
unfolding program
release_reuse_example =
    release_reuse full_pool alpha beta lease_ip full_pool-IsValid full_pool-IsFull refl refl

host_in_pool_example : contains fresh_pool.prefix lease_ip ≡ true
unfolding program
host_in_pool_example =
    (host_in_pool (10 * 2 ^ 24 + 66 * 2 ^ 16 + 3) 30 fresh_pool 2 (omega arith) new_pool
      (omega arith)).0

-- The registry, with one peer.
abbrev no_peers : Registry
no_peers = record { allocator = fresh_pool; prefix = net; peers = []; by_ip = []; by_token = [] }

abbrev seed : Bytes
seed = 0xab ∷ 1 ∷ []

abbrev alpha_peer : Peer
alpha_peer = record {
  node_id = alpha;
  virtual_ip = lease_ip;
  session_token = codes "ab01";
  last_seen = 1000;
}

abbrev one_peer : Registry
one_peer = record {
  allocator = full_pool;
  prefix = net;
  peers = (alpha, alpha_peer) ∷ [];
  by_ip = (lease_ip, alpha) ∷ [];
  by_token = (codes "ab01", alpha) ∷ [];
}

new_peers : new_registry net ≡ ok no_peers
unfolding program
new_peers = refl

registered : register_at no_peers (codes " alpha\n") 1000 (some seed) ≡ (one_peer, ok alpha_peer)
unfolding program
registered = refl

no_peers-IsValid : PeerInvariant.IsValid no_peers
no_peers-IsValid = new_registry-IsValid net no_peers new_peers

no_peers-IsFresh : IsFresh no_peers (some seed)
unfolding lookup
no_peers-IsFresh = λ b e. refl

register_at-IsValid_example : PeerInvariant.IsValid one_peer
unfolding program
register_at-IsValid_example =
    register_at-IsValid no_peers (codes " alpha\n") 1000 (some seed) no_peers-IsValid
      no_peers-IsFresh

register_finds_example :
    Found one_peer alpha_peer
    × (alpha ≡ trim_space (codes " alpha\n"))
    × (alpha_peer.last_seen ≡ 1000)
register_finds_example =
    register_finds no_peers one_peer (codes " alpha\n") 1000 (some seed) alpha_peer no_peers-IsValid
      no_peers-IsFresh registered

expire_before-IsValid_example : PeerInvariant.IsValid (expire_before one_peer 1000).0
expire_before-IsValid_example = expire_before-IsValid one_peer 1000 register_at-IsValid_example

get-expire_before_example : get (expire_before one_peer 1000).0 alpha ≡ none
unfolding program
get-expire_before_example = get-expire_before one_peer 1000 alpha register_at-IsValid_example
