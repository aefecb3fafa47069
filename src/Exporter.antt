-- ===== src/Exporter.antt =====
-- The Prometheus exporter, observability/exporter/pipeline_exporter: the executors, the collectors and
-- the scrape. The Prometheus client library is an interface, `GaugeOps`.
pub mod Sources
pub mod Samples
pub mod Rows
pub mod Collectors
pub mod Gauges
pub mod Scrape
pub mod Labels
pub mod Declared
pub mod Readings
pub mod Isolation
