-- ===== src/P2p.antt =====
-- internal/p2p: tickets, probes, direct payloads and the choice of the path.
pub mod Tickets
pub mod Selector
pub mod Secret
pub mod Plain
pub mod Probe
pub mod Data
mod Tests
