-- ===== src/Pipeline/Run.antt =====
-- `IngestionPipeline.run` of ingestion/fineract_ingest/pipeline.py. The push of the metrics and the log
-- calls are left out.
use fineract_analytics_platf.Prelude.{
  ℕ, String, Bool, true, false, not, ◌&&◌, Option, List, [], ◌∷◌, if◌then◌else◌,
}
use fineract_analytics_platf.Client.Transport.{authenticate}
use fineract_analytics_platf.Entities.Registry.{default_order}
use fineract_analytics_platf.Loader.Store.{Status, success, skipped}
use fineract_analytics_platf.Pipeline.World.{Setting, EntityOutcome, Job, ◌>>=◌, pure}
use fineract_analytics_platf.Pipeline.Entity.{run_entity}

abbrev pub is_success : Status → Bool
is_success success = true
is_success _ = false

abbrev pub is_skipped : Status → Bool
is_skipped skipped = true
is_skipped _ = false

-- `list(entities) if entities else list(DEFAULT_ORDER)`
abbrev pub selected : List String → List String
selected [] = default_order
selected (e ∷ es) = e ∷ es

-- `fail_fast and not outcome.ok and outcome.status != "skipped"`
abbrev pub aborts : Bool → EntityOutcome → Bool
aborts fail_fast o = fail_fast && not (is_success o.status) && not (is_skipped o.status)

abbrev pub add_outcome : EntityOutcome → List EntityOutcome → Job (List EntityOutcome)
add_outcome o os = pure (o ∷ os)

-- The loop over the selected entities, for any way to run one.
unfoldable pub run_all :
    (String → Job EntityOutcome) → Bool → List String → Job (List EntityOutcome)
run_all load fail_fast [] = pure []
run_all load fail_fast (name ∷ names) = load name >>= λ o.
    let rest = run_all load fail_fast names >>= add_outcome o in
    if aborts fail_fast o then pure (o ∷ []) else rest

unfoldable pub run : Setting → List String → Option ℕ → Bool → Bool → Job (List EntityOutcome)
run s entities limit dry_run fail_fast w =
    run_all (run_entity s limit dry_run) fail_fast (selected entities)
      (record w { client = authenticate s.server s.config w.client })
