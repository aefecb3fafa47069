-- ===== src/Loader.antt =====
-- ingestion/fineract_ingest/loader.py. PostgreSQL is the state of `Store` with the SQL statements of
-- the source as functions on it; which statements and commits fail is a parameter. A failed commit
-- leaves the committed state as it was, and a rollback ends the transaction.
pub mod Store
pub mod Upsert
pub mod Control
pub mod Uncommitted
pub mod Quiet
pub mod Reference
pub mod Chunks
pub mod Cells
pub mod Refinement
pub mod Stored
pub mod Counts
pub mod Again
pub mod Status
pub mod Watermarks
