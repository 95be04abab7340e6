-- ===== src/Transport.antt =====
-- internal/transport: the frames of the relay and the relay.
pub mod Frame
pub mod Floats
pub mod Whole
pub mod Relay
mod Tests
