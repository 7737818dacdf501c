-- ===== src/Privacy.antt =====
-- Export and erasure of an account: src/infrastructure/privacy/sqlite-privacy-repository.ts.
pub mod Rows
pub mod Export
pub mod Erase
pub mod Account
pub mod Transaction
pub mod Forgotten
pub mod Erased
pub mod Refused
pub mod Kept
pub mod Origins
pub mod Orphans
pub mod Tests
