-- ===== src/Tests.antt =====
-- The theorems at concrete inputs, and runs of the definitions on small inputs.
mod Samples
mod Crawl
mod Loads
mod Batches
mod Commands
mod Parsing
mod Models
mod Mocked
mod Scraping
mod Orchestration
mod Endings
mod Scheduled
mod Configured
mod Maintained
mod Built
