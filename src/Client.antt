-- ===== src/Client.antt =====
-- The HTTP client of ingestion/fineract_ingest/client.py: the rate limiter, the back-off, `get` with
-- its retries, the normalising of pages and the page walk.
-- What `requests` answers is a parameter: the reply to the n-th request of a process, which is any
-- function, so that a server may change between two requests. Times are microseconds, and the
-- random number of the jitter is in thousandths. The log calls are left out.
pub mod Types
pub mod Transport
pub mod Pages
pub mod Retries
pub mod Pacing
pub mod Walk
pub mod Keeps
