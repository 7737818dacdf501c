-- ===== src/Resolver.antt =====
-- The resolver: src/resolver.ts turns the claims of an organization into its opportunities.
pub mod Host
pub mod Score
pub mod Application
pub mod Events
pub mod Resolve
pub mod Listed
pub mod Unique
pub mod Choice
pub mod Tests
