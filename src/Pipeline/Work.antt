-- ===== src/Pipeline/Work.antt =====
-- The "single atomic unit of work" of `run_entity` in ingestion/fineract_ingest/pipeline.py: rows,
-- rejects, expectations, watermark and run, up to the commit and with it.
use fineract_analytics_platf.Prelude.{ℕ, none}
use fineract_analytics_platf.Entities.Spec.{EntitySpec}
use fineract_analytics_platf.Loader.Store.{LoadResult, success, Tx, ◌>>=◌, ◌>>◌, pure, commit}
use fineract_analytics_platf.Loader.Upsert.{upsert}
use fineract_analytics_platf.Loader.Control.{
  finish_run, Closing, update_watermark, record_rejects, record_expectations,
}
use fineract_analytics_platf.Pipeline.World.{Setting}
use fineract_analytics_platf.Pipeline.Batch.{cursor_value}
use fineract_analytics_platf.Pipeline.Checks.{Checked}

abbrev pub succeeded : LoadResult → ℕ → ℕ → Closing
succeeded result requests retries = record {
  status = success;
  result = result;
  api_requests = requests;
  api_retries = retries;
  error_message = none;
}

-- The writes, and the counts that they give. The counts of the client do not change meanwhile.
unfoldable pub write_batch : Setting → EntitySpec → ℕ → Checked → ℕ → ℕ → Tx LoadResult
write_batch s spec run_id c requests retries = do
  loaded ← upsert s.faults s.batch_size spec.table spec.primary_key c.batch.rows
  rejected ← record_rejects s.faults c.batch.rejects
  let result = record loaded { rows_rejected = rejected }
  record_expectations s.faults spec.name c.expectations
  update_watermark s.faults spec.name (cursor_value spec c.batch.rows) loaded.rows_read
  finish_run s.faults run_id (succeeded result requests retries)
  pure result

unfoldable pub unit_of_work : Setting → EntitySpec → ℕ → Checked → ℕ → ℕ → Tx LoadResult
unit_of_work s spec run_id c requests retries = do
  result ← write_batch s spec run_id c requests retries
  commit s.faults
  pure result
