-- ===== src/Config.antt =====
-- The settings of the ingestion (ingestion/fineract_ingest/config.py) and of the exporter
-- (observability/exporter/pipeline_exporter/config.py), read from the environment.
pub mod Env
pub mod Settings
pub mod Exporter
