-- ===== src/Xray.antt =====
-- internal/xray: the routes of the full tunnel, the supervisor of the proxy's process.
pub mod Routes
pub mod Profile
pub mod Process
