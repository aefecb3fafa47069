-- ===== src/Tests/Commands.antt =====
-- Tests of the command line and the watermarks.
use fineract_analytics_platf.Prelude.{
  ◌≡◌, refl, String, true, false, none, some, List, [], ◌∷◌, map, All, str_eq,
}
use fineract_analytics_platf.Prelude.Int.{pos}
use fineract_analytics_platf.Values.{Cell}
use fineract_analytics_platf.Outcome.{ok, raised, database}
use fineract_analytics_platf.Entities.Registry.{offices, get_entity}
use fineract_analytics_platf.Loader.Store.{load_result, success, execute, Watermark}
use fineract_analytics_platf.Loader.Control.{start_run, advance}
use fineract_analytics_platf.Loader.Status.{find_watermark}
use fineract_analytics_platf.Loader.Watermarks.{IsAdvanced, advance-find}
use fineract_analytics_platf.Pipeline.World.{EntityOutcome}
use fineract_analytics_platf.Cli.{health, status, list_entities, heartbeat, ingest, exit_code, main}
use fineract_analytics_platf.Cli.ExitCodes.{IsDone, health_end, exit_code-zero, main-codes}
use fineract_analytics_platf.Cli.Statements.{clear}
use fineract_analytics_platf.Client.Transport.{authenticate}
use fineract_analytics_platf.Client.Pages.{health_check}
use fineract_analytics_platf.Cli.Unreported.{main-raised}
use fineract_analytics_platf.Tests.Samples.{failing_at, world}

abbrev succeeded : String → EntityOutcome
succeeded name = record {
  entity = name;
  status = success;
  result = load_result name;
  expectations = [];
  error = none;
}

abbrev two : List EntityOutcome
two = succeeded "offices" ∷ succeeded "staff" ∷ []

exit_code-zero_example :
    (map (λ (o : EntityOutcome). o.entity) two ≡ "offices" ∷ "staff" ∷ [])
    × All (λ (o : EntityOutcome). IsDone o.status) two
unfolding exit_code
exit_code-zero_example =
    exit_code-zero true ("offices" ∷ "staff" ∷ []) two (refl, (refl, tt)) (tt, (tt, tt)) refl

-- The statement number 3 fails, which is in `status` alone.
main-codes_example :
    ((main (failing_at 3) [] health world).0
      ≡ health_end
          (health_check
            (failing_at 3).server
            (failing_at 3).config
            (authenticate (failing_at 3).server (failing_at 3).config world.client)).0
          (clear (failing_at 3).faults world.connection.clock 2))
    × ((main (failing_at 3) [] status world).0 ≡ ok 2)
    × ((main (failing_at 3) [] heartbeat world).0 ≡ ok 0)
    × ((main (failing_at 3) [] list_entities world).0 ≡ ok 0)
main-codes_example = main-codes (failing_at 3) [] world

-- The first statement fails.
main-raised_example :
    (main
      (failing_at 0)
      []
      (ingest (record {
        entities = "offices" ∷ [];
        parent_limit = none;
        dry_run = false;
        fail_fast = false;
      }))
      world).0
    ≡ raised database
unfolding get_entity start_run execute
main-raised_example =
    main-raised (failing_at 0) offices "offices" database [] [] none false false world refl refl

abbrev loaded_before : List Watermark
loaded_before =
    record {
      entity = "clients";
      last_cursor = some (Cell.int (pos 7));
      last_row_count = 7;
      total_rows_loaded = 9;
    }
    ∷ []

advance-find_example :
    IsAdvanced "clients" none 3
      (find_watermark "clients" loaded_before)
      (find_watermark "clients" (advance "clients" none 3 loaded_before))
    × ((other : String)
        → str_eq "clients" other ≡ false
        → find_watermark other (advance "clients" none 3 loaded_before)
          ≡ find_watermark other loaded_before)
advance-find_example = advance-find "clients" none 3 loaded_before
