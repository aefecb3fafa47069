-- ===== src/Validation.antt =====
-- ingestion/fineract_ingest/validation.py: the row gate and the expectations of a batch.
pub mod Records
pub mod Expectations
pub mod Gate
