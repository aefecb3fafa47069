-- ===== src/Tests/Loads.antt =====
-- Tests of the loader and the pipeline.
use fineract_analytics_platf.Prelude.{refl, false, none, [], ◌∷◌}
use fineract_analytics_platf.Prelude.Int.{pos}
use fineract_analytics_platf.Values.{Cell, cell_eq}
use fineract_analytics_platf.Entities.Registry.{offices}
use fineract_analytics_platf.Loader.Store.{Connection, LoadResult, load_result, execute, commit}
use fineract_analytics_platf.Outcome.{Outcome}
use fineract_analytics_platf.Loader.Upsert.{
  upsert, upsert_chunks, upsert_chunk, upsert_statement, upsert_row,
}
use fineract_analytics_platf.Loader.Control.{
  record_rejects, insert_rejects, record_expectations, update_watermark, finish_run,
}
use fineract_analytics_platf.Parsers.Hash.{chunked, slices}
use fineract_analytics_platf.Pipeline.Checks.{Checked}
use fineract_analytics_platf.Pipeline.Work.{write_batch, unit_of_work}
use fineract_analytics_platf.Pipeline.Atomic.{Atomic, unit_of_work-Atomic}
use fineract_analytics_platf.Pipeline.AllOrNothing.{AllOrNothing, load_entity-AllOrNothing}
use fineract_analytics_platf.Pipeline.AfterCommit.{LostReport, write_and_report-LostReport}
use fineract_analytics_platf.Pipeline.Entity.{Before, handled, write_and_report, load_entity}
use fineract_analytics_platf.Loader.Quiet.{SameData-refl}
use fineract_analytics_platf.Tests.Samples.{db, connection, failing_at, world}

abbrev checked : Checked
checked = record {
  batch = record {
    rows = (("office_id", Cell.int (pos 1)) ∷ ("_payload_hash", Cell.text []) ∷ []) ∷ [];
    rejects = [];
    seen = Cell.int (pos 1) ∷ [];
  };
  expectations = [];
}

-- The commit, the fourth statement, fails.
unit_of_work-Atomic_example :
    Atomic
      (write_batch (failing_at 3) offices 1 checked 0 0)
      connection
      (unit_of_work (failing_at 3) offices 1 checked 0 0 connection)
unit_of_work-Atomic_example = unit_of_work-Atomic (failing_at 3) offices 1 checked 0 0 connection

-- The first statement of the load of the offices fails.
load_entity-AllOrNothing_example :
    AllOrNothing
      (failing_at 2)
      offices
      connection
      (load_entity (failing_at 2) none false offices world)
load_entity-AllOrNothing_example =
    load_entity-AllOrNothing (failing_at 2) offices none false world (SameData-refl db)

abbrev before : Before
before = record { requests = 0; retries = 0 }

abbrev landed : Outcome LoadResult × Connection
landed = unit_of_work (failing_at 4) offices 1 checked 0 0 connection

abbrev one_inserted : LoadResult
one_inserted = record (load_result "oltp.offices") { rows_read = 1; rows_inserted = 1 }

-- One row is committed, and the statement after the commit fails.
write_and_report-LostReport_example : LostReport "offices" landed.1.committed (
    handled
      (failing_at 4)
      offices
      1
      before
      (write_and_report (failing_at 4) offices 1 before checked world))
unfolding unit_of_work write_batch upsert chunked upsert_chunks upsert_chunk upsert_statement
    upsert_row record_rejects insert_rejects record_expectations update_watermark finish_run execute
    commit cell_eq slices
write_and_report-LostReport_example =
    write_and_report-LostReport (failing_at 4) offices 1 before checked world one_inserted landed.1
      (λ n. refl) refl refl
