-- ===== src/Mesh.antt =====
-- internal/mesh: the leases of virtual addresses and the registry of peers.
pub mod Allocator
pub mod Registry
mod Tests
