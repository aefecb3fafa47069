-- ===== src/Tests/Scheduled.antt =====
-- A run of the ingestion's task of the DAG.
use fineract_analytics_platf.Prelude.{◌≡◌, refl, true, false, none, List, [], ◌∷◌}
use fineract_analytics_platf.Outcome.{ok}
use fineract_analytics_platf.Pipeline.World.{Setting, EntityOutcome}
use fineract_analytics_platf.Airflow.Ingest.{Params, run_ingestion, limit_of, run_ingestion-ok}
use fineract_analytics_platf.Tests.Samples.{failing_at, busy, world}
use fineract_analytics_platf.Client.Transport.{
  min_interval, wait, received, decoded, receive, send, header_key, attempt_once, attempts, get,
  authenticate,
}
use fineract_analytics_platf.Client.Pages.{
  page_items, items_of, is_complete, set_param, page_params, after_page, on_page, pages, only_page,
  iter_pages, iter_items,
}
use fineract_analytics_platf.Pipeline.Run.{run_all, run}
use fineract_analytics_platf.Pipeline.FailFast.{Follows}
use fineract_analytics_platf.Pipeline.Completes.{run-Follows}
use fineract_analytics_platf.Pipeline.Entity.{
  try_load, undo, report_failed, fail_load, skip_write, load_entity, run_entity,
}
use fineract_analytics_platf.Pipeline.Fetch.{fetch_records, fetch_flat, walk}
use fineract_analytics_platf.Pipeline.Checks.{check_batch}
use fineract_analytics_platf.Pipeline.Batch.{accept, map_and_validate_from, map_and_validate}
use fineract_analytics_platf.Loader.Control.{insert_run, start_run, close_run, finish_run}
use fineract_analytics_platf.Loader.Store.{execute, commit, rollback}
use fineract_analytics_platf.Entities.Registry.{get_entity}
use fineract_analytics_platf.Validation.Expectations.{
  tally, check_not_null, check_unique, evaluate_one, evaluate_expectations, summarise,
}
use fineract_analytics_platf.Cli.{exit_code, cmd_ingest, main, is_failed}

-- A source with no offices, and no failing statement.
abbrev empty_source : Setting
empty_source = record (failing_at 99) { server = busy 0 }

abbrev dry : Params
dry = record { dry_run = true; parent_limit = none }

dry_run_ends : (run_ingestion empty_source [] dry "staff" world).0 ≡ ok tt
unfolding run_ingestion skip_write try_load undo report_failed fail_load fetch_records fetch_flat
    walk min_interval wait received decoded receive send header_key attempt_once attempts get
    authenticate page_items items_of is_complete set_param page_params after_page on_page pages
    only_page iter_pages iter_items run_all run load_entity run_entity check_batch accept
    map_and_validate_from map_and_validate insert_run start_run close_run finish_run execute commit
    rollback get_entity tally check_not_null check_unique evaluate_one evaluate_expectations
    summarise exit_code cmd_ingest main
dry_run_ends = refl

run_ingestion-ok_example :
    (o : EntityOutcome) × ((run_entity empty_source (limit_of none) true "staff" (record world {
      client = authenticate empty_source.server empty_source.config world.client;
    })).0
      ≡ ok o)
    × (is_failed o.status ≡ false)
run_ingestion-ok_example = run_ingestion-ok empty_source [] dry "staff" world dry_run_ends

-- Two entities, each of which can start, with the fields of the world that the first leaves.
run-Follows_example :
    (os : List EntityOutcome) × ((run empty_source
        ("staff" ∷ "offices" ∷ [])
        none
        true
        false
        world).0
      ≡ ok os)
    × Follows false ("staff" ∷ "offices" ∷ []) os
unfolding run_entity skip_write try_load undo report_failed fail_load fetch_records fetch_flat walk
    min_interval wait received decoded receive send header_key attempt_once attempts get
    authenticate page_items items_of is_complete set_param page_params after_page on_page pages
    only_page iter_pages iter_items load_entity check_batch accept map_and_validate_from
    map_and_validate insert_run start_run close_run finish_run execute commit rollback get_entity
    tally check_not_null check_unique evaluate_one evaluate_expectations summarise
run-Follows_example =
    run-Follows empty_source none true ("staff" ∷ "offices" ∷ []) false world (λ n. refl)
      ((_, refl, refl, (_, refl)), ((_, refl, refl, (_, refl)), tt))
