-- ===== src/Catalog.antt =====
-- What is known of the organizations: src/store.ts without its sources, jobs and identities.
pub mod Rows
pub mod Organizations
pub mod Claims
pub mod Opportunities
pub mod Connectors
pub mod Overrides
pub mod Known
pub mod Cursors
pub mod Merged
pub mod Replaced
pub mod Apart
pub mod Tests
