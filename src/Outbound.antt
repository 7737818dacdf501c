-- ===== src/Outbound.antt =====
-- Requests to providers: src/infrastructure/outbound-http.
pub mod Bounded
pub mod Client
pub mod Reading
pub mod Circuit
pub mod Safe
pub mod Hops
pub mod Tests
pub mod SafeTests
