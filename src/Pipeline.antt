-- ===== src/Pipeline.antt =====
-- ingestion/fineract_ingest/pipeline.py: fetch, map and validate, load, record.
pub mod World
pub mod Batch
pub mod Fetch
pub mod Checks
pub mod Work
pub mod Entity
pub mod Run
pub mod Atomic
pub mod Quiet
pub mod Undo
pub mod AllOrNothing
pub mod AfterCommit
pub mod Dedup
pub mod Conserve
pub mod KeyChecks
pub mod Reload
pub mod Isolation
pub mod FailFast
pub mod Completes
