-- ===== src/Gate.antt =====
-- What stands before every handler: the `onRequest` hook of src/http/app.ts.
pub mod Paths
pub mod Hook
pub mod Protected
pub mod Metrics
pub mod Tests
