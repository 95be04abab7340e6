-- ===== src/Client.antt =====
-- cmd/client: the runtime of probes and direct payloads, the packet pump, the protected prefixes, the
-- program's checks and the heartbeat.
pub mod Runtime
pub mod Direct
pub mod Steps
pub mod Pump
pub mod Protected
pub mod Program
pub mod Acks
pub mod Replay
pub mod Heartbeat
mod Tests
