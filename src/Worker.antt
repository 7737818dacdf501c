-- ===== src/Worker.antt =====
-- The worker's side of a lease.
pub mod Heartbeat
pub mod Held
pub mod Tests
