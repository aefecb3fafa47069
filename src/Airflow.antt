-- ===== src/Airflow.antt =====
-- The Airflow plugins of orchestration/plugins/fineract: hooks, sensors and operators. Airflow itself
-- and what the services answer are parameters.
pub mod Hooks
pub mod Gate
pub mod Verdicts
pub mod Connect
pub mod Sensors
pub mod Escaping
pub mod Dbt
pub mod Dag
pub mod Runs
pub mod Metrics
pub mod Ingest
pub mod Publish
pub mod Maintenance
pub mod Slots
pub mod CaughtUp
pub mod Backfill
pub mod Shrunk
