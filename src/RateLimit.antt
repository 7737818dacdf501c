-- ===== src/RateLimit.antt =====
-- Rate limiting: src/application/ports/rate-limiter.ts and its implementation in memory.
pub mod Port
pub mod Memory
pub mod Window
pub mod Size
pub mod Tests
