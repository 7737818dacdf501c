-- ===== src/Credentials.antt =====
-- The credentials of the connectors, as they are stored and as the vault hands them out.
pub mod Repository
pub mod Vault
pub mod RoundTrip
pub mod Tests
