-- ===== src/Ingestion.antt =====
-- Ingestion: src/ingest.ts puts staging, extraction, claims and resolution together.
pub mod Source
pub mod Links
pub mod Attempt
pub mod Outcome
pub mod Bounds
pub mod Tests
