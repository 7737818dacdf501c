-- ===== src/RateLimit/Port.antt =====
-- src/application/ports/rate-limiter.ts.
use recruiting_os.Common.{String, Clock, Bool, ℕ}

pub record RateLimitResult : Type 0 where
  pub allowed : Bool
  pub remaining : ℕ
  pub reset_at : ℕ

-- A rate limiter over a state of its own.
pub record RateLimiter (S : Type 0) : Type 0 where
  pub consume : String → ℕ → ℕ → Clock → S → RateLimitResult × S
