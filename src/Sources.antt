-- ===== src/Sources.antt =====
-- Sources and their versions, as `Store` of src/store.ts stages and settles them.
pub mod Rows
pub mod Stage
pub mod Settle
pub mod Begin
pub mod Written
pub mod Staging
pub mod Writes
pub mod Machine
pub mod Content
pub mod Stuck
pub mod Tests
