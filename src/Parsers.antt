-- ===== src/Parsers.antt =====
-- ingestion/fineract_ingest/parsers.py: JSON to typed values. `Scan` has the parts of Python's text
-- functions that it calls, `Scalars` the parse functions, `Nested` the access to nested records,
-- and `Hash` the change detection and the chunks.
pub mod Scan
pub mod Scalars
pub mod Dates
pub mod Nested
pub mod Hash
pub mod Chunked
pub mod RoundTrip
pub mod Split
