-- ===== src/Pipeline/Entity.antt =====
-- `run_entity` of ingestion/fineract_ingest/pipeline.py.
use fineract_analytics_platf.Prelude.{
  ℕ, ◌-◌, String, Bool, Option, none, some, List, [], if◌then◌else◌, length,
}
use fineract_analytics_platf.Outcome.{Exception, Outcome, ok, raised}
use fineract_analytics_platf.Client.Types.{Client}
use fineract_analytics_platf.Entities.Spec.{EntitySpec}
use fineract_analytics_platf.Entities.Registry.{get_entity}
use fineract_analytics_platf.Validation.Expectations.{ExpectationResult}
use fineract_analytics_platf.Loader.Store.{
  LoadResult, load_result, Status, success, failed, skipped, commit, rollback,
}
use fineract_analytics_platf.Loader.Control.{start_run, finish_run, Closing, table_count}
use fineract_analytics_platf.Pipeline.World.{
  World, Setting, EntityOutcome, Job, ◌>>=◌, ◌>>◌, pure, on_connection, record_load,
}
use fineract_analytics_platf.Pipeline.Checks.{Checked, check_batch}
use fineract_analytics_platf.Pipeline.Work.{unit_of_work}
use fineract_analytics_platf.Pipeline.Fetch.{fetch_records}

abbrev pub outcome : String → Status → LoadResult → List ExpectationResult → EntityOutcome
outcome entity status result expectations = record {
  entity = entity;
  status = status;
  result = result;
  expectations = expectations;
  error = none;
}

-- The counters of the client before the load.
pub record Before : Type 0 where
  pub requests : ℕ
  pub retries : ℕ

abbrev pub before_of : Client → Before
before_of c = record { requests = c.request_count; retries = c.retry_count }

abbrev pub closing : Status → LoadResult → Option Exception → Closing
closing status result e = record {
  status = status;
  result = result;
  api_requests = 0;
  api_retries = 0;
  error_message = e;
}

abbrev pub requests_of : Before → World → ℕ
requests_of before w = w.client.request_count - before.requests

abbrev pub retries_of : Before → World → ℕ
retries_of before w = w.client.retry_count - before.retries

module _ (s : Setting) (spec : EntitySpec) (run_id : ℕ) (before : Before) where
  -- A dry run writes nothing but the end of the run.
  unfoldable pub skip_write : Checked → Job EntityOutcome
  skip_write c w =
      let result = record (load_result spec.name) {
        rows_read = length c.batch.rows;
        rows_rejected = length c.batch.rejects;
      } in
      (on_connection (rollback s.rollback_fails)
          >> (on_connection (finish_run s.faults run_id (closing skipped result none))
              >> on_connection (commit s.faults))
          >> pure (outcome spec.name skipped result c.expectations))
        w

  -- What follows the commit: the metrics, with the count of the table.
  unfoldable pub report : Checked → LoadResult → Job EntityOutcome
  report c result w =
      (on_connection (table_count s.faults spec.table) >>= λ n.
      record_load (record {
        entity = spec.name;
        result = result;
        api_requests = requests_of before w;
        api_retries = retries_of before w;
        status = success;
        table_rows = some n;
      })
      >> pure (outcome spec.name success result c.expectations))
        w

  unfoldable pub write_and_report : Checked → Job EntityOutcome
  write_and_report c w =
      (on_connection (unit_of_work s spec run_id c (requests_of before w) (retries_of before w))
          >>= report c)
        w

  -- The body of the `try`.
  unfoldable pub try_load : Option ℕ → Bool → Job EntityOutcome
  try_load limit dry_run = do
    raws ← fetch_records s spec limit
    checked ← (λ w. (check_batch s spec raws, w))
    if dry_run then skip_write checked else write_and_report checked

  -- `try: finish_run; commit` and `except: rollback`, inside the handler.
  abbrev pub closed : Outcome (Unit {0}) × World → Outcome (Unit {0}) × World
  closed (ok _, w) = (ok tt, w)
  closed (raised _, w) = on_connection (rollback s.rollback_fails) w

  -- The handler up to the metrics: a rollback that fails raises out of it.
  unfoldable pub undo : Exception → Job (Unit {0})
  undo e = on_connection (rollback s.rollback_fails) >> (λ w. closed (
      (on_connection (finish_run s.faults run_id (closing failed (load_result spec.name) (some e)))
          >> on_connection (commit s.faults))
        w))

  -- The rest of the handler.
  unfoldable pub report_failed : Exception → Job EntityOutcome
  report_failed e =
      (λ w.
        record_load
          (record {
            entity = spec.name;
            result = load_result spec.name;
            api_requests = requests_of before w;
            api_retries = retries_of before w;
            status = failed;
            table_rows = none;
          })
          w)
      >> pure (record {
        entity = spec.name;
        status = failed;
        result = load_result spec.name;
        expectations = [];
        error = some e;
      })

  -- The handler.
  unfoldable pub fail_load : Exception → Job EntityOutcome
  fail_load e = undo e >>= λ _. report_failed e

  abbrev pub handled : Outcome EntityOutcome × World → Outcome EntityOutcome × World
  handled (ok o, w) = (ok o, w)
  handled (raised e, w) = fail_load e w

-- `start_run` stands before the `try`: what it raises goes on.
unfoldable pub load_entity : Setting → Option ℕ → Bool → EntitySpec → Job EntityOutcome
load_entity s limit dry_run spec = on_connection (start_run s.faults spec.name) >>= λ run_id. (λ w.
    handled s spec run_id (before_of w.client)
      (try_load s spec run_id (before_of w.client) limit dry_run w))

unfoldable pub run_entity : Setting → Option ℕ → Bool → String → Job EntityOutcome
run_entity s limit dry_run name = (λ w. (get_entity name, w)) >>= load_entity s limit dry_run
