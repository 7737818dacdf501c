-- ===== src/Auth.antt =====
-- Who may do what: identities, sessions and roles.
pub mod Roles
pub mod Tables
pub mod Repository
pub mod Session
pub mod Access
pub mod Machine
pub mod Revoked
pub mod Revocation
pub mod Tests
