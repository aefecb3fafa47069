-- ===== src/Mock.antt =====
-- The mock of the Fineract API, ingestion/fineract_ingest/mock_server.py: the paging and the handler
-- of its requests over any dataset. The dataset's random contents are a parameter.
pub mod Page
pub mod Handler
pub mod Faults
pub mod Serving
pub mod Crawl
