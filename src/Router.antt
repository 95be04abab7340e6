-- ===== src/Router.antt =====
-- internal/router: the class of a packet by its destination.
mod Tests
use xray_mesh.Base.{
  ℕ, ◌≡◌, ◌≢◌, ◌⊎◌, ◌↔◌, refl, inl, inr, Bool, true, false, not, ◌&&◌, ◌||◌, arith, if◌then◌else◌,
  is_yes,
}
use xray_mesh.Netip.{
  Addr, no_addr, v4, v6, no_prefix, prefix, addr_dec, addr_IsValid, Bytes4, from4, Prefix,
  prefix_IsValid, contains,
}
use xray_mesh.Text.{Bytes}

pub record Packet : Type 0 where
  pub source : Addr
  pub destination : Addr
  pub payload : Bytes

pub data Class : Type 0 where
  class_unknown class_peer class_internet class_discovery : Class

-- 224.0.0.251 and 239.255.255.250.
abbrev pub mdns_ipv4 : Addr
mdns_ipv4 = from4 (224, 0, 0, 251)

abbrev pub ssdp_ipv4 : Addr
ssdp_ipv4 = from4 (239, 255, 255, 250)

unfoldable pub classify : Prefix → Packet → Class
classify mesh_prefix p =
    if not (addr_IsValid p.destination)
    then class_unknown
    else if is_yes (addr_dec p.destination mdns_ipv4) || is_yes (addr_dec p.destination ssdp_ipv4)
    then class_discovery
    else if prefix_IsValid mesh_prefix && contains mesh_prefix p.destination
    then class_peer
    else class_internet

contains-valid :
    (mesh : Prefix) (d : Addr)
    → contains mesh d ≡ true
    → (prefix_IsValid mesh ≡ true) × (d ≢ no_addr)
unfolding contains
contains-valid no_prefix d e = absurd (ground arith)
contains-valid (prefix no_addr n) d e = absurd (ground arith)
contains-valid (prefix (v4 a) n) no_addr e = absurd (ground arith)
contains-valid (prefix (v4 a) n) (v4 d) e = (refl, λ h. cc)
contains-valid (prefix (v4 a) n) (v6 d) e = absurd (ground arith)
contains-valid (prefix (v6 a) n) no_addr e = absurd (ground arith)
contains-valid (prefix (v6 a) n) (v4 d) e = absurd (ground arith)
contains-valid (prefix (v6 a) n) (v6 d) e = (refl, λ h. cc)

-- The class of every packet: unknown exactly for the zero destination, discovery exactly for the
-- two multicast groups, peer exactly for the other addresses of the mesh prefix, and Internet for
-- the rest. A group inside the mesh prefix is still discovery.
pub classify_lem :
    (mesh : Prefix) (p : Packet)
    → let d = p.destination in
      ((classify mesh p ≡ class_unknown) ↔ (d ≡ no_addr))
      × ((classify mesh p ≡ class_discovery) ↔ ((d ≡ mdns_ipv4) ⊎ (d ≡ ssdp_ipv4)))
      × ((classify mesh p ≡ class_peer)
          ↔ ((contains mesh d ≡ true) × (d ≢ mdns_ipv4) × (d ≢ ssdp_ipv4)))
      × ((classify mesh p ≡ class_internet)
          ↔ ((d ≢ no_addr) × (contains mesh d ≡ false) × (d ≢ mdns_ipv4) × (d ≢ ssdp_ipv4)))
unfolding classify
classify_lem mesh p = (
  (λ e. ground arith, λ e. ground arith),
  (
    λ e. elim (addr_dec p.destination mdns_ipv4) [ yes h ↦ inl h | no h ↦ inr (ground arith) ],
    λ e. ground arith,
  ),
  (λ e. ground arith, λ e. ground (arith, contains-valid mesh p.destination)),
  (λ e. ground (arith, contains-valid mesh p.destination), λ e. ground arith),
)
