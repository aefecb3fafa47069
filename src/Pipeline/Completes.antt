-- ===== src/Pipeline/Completes.antt =====
-- When `IngestionPipeline.run` of ingestion/fineract_ingest/pipeline.py returns.
use fineract_analytics_platf.Prelude.{ℕ, ◌≡◌, ap, ◌∙◌, String, Bool, Option, List, [], ◌∷◌}
use fineract_analytics_platf.Outcome.{ok}
use fineract_analytics_platf.Entities.Spec.{EntitySpec}
use fineract_analytics_platf.Entities.Registry.{get_entity}
use fineract_analytics_platf.Client.Transport.{authenticate}
use fineract_analytics_platf.Loader.Control.{start_run}
use fineract_analytics_platf.Pipeline.World.{World, Setting, EntityOutcome, after}
use fineract_analytics_platf.Pipeline.Entity.{load_entity, run_entity}
use fineract_analytics_platf.Pipeline.Run.{run, selected}
use fineract_analytics_platf.Pipeline.FailFast.{Follows, Returns, run_all-Follows}
use fineract_analytics_platf.Pipeline.Isolation.{load_entity-returns}
use fineract_analytics_platf.Pipeline.Undo.{RollsBack}

module _ (s : Setting) (limit : Option ℕ) (dry_run : Bool) where
  -- Each name is one of the registry, and its run can be recorded at its start, in the world that the
  -- loads before have left.
  abbrev pub CanStart : List String → World → Type 0
  CanStart [] w = Unit
  CanStart (name ∷ names) w =
      ((spec : EntitySpec) × (get_entity name ≡ ok spec)
        × (spec.name ≡ name)
        × ((run_id : ℕ) × ((start_run s.faults spec.name w.connection).0 ≡ ok run_id)))
      × CanStart names (run_entity s limit dry_run name w).1

  run_entity-returns :
      (name : String) (spec : EntitySpec) (w : World) (run_id : ℕ)
      → RollsBack s
      → get_entity name ≡ ok spec
      → spec.name ≡ name
      → (start_run s.faults spec.name w.connection).0 ≡ ok run_id
      → (o : EntityOutcome) × ((run_entity s limit dry_run name w).0 ≡ ok o) × (o.entity ≡ name)
  unfolding run_entity
  run_entity-returns name spec w run_id r g same h =
      let (o, e, named) = load_entity-returns s spec limit dry_run w run_id r h in
      (o, ap (λ q. (after (q, w) (load_entity s limit dry_run)).0) g ∙ e, named ∙ same)

  CanStart-Returns :
      (names : List String) (w : World)
      → RollsBack s
      → CanStart names w
      → Returns (run_entity s limit dry_run) names w
  CanStart-Returns [] w r h = tt
  CanStart-Returns (name ∷ names) w r ((spec, g, same, (run_id, h)), rest) = (
    run_entity-returns name spec w run_id r g same h,
    CanStart-Returns names (run_entity s limit dry_run name w).1 r rest,
  )

  -- Where each selected entity is one of the registry and its run can be recorded at its start, and no
  -- rollback fails, the run returns, whatever the server answers and whatever else fails, and its
  -- outcomes are those of the selected entities in their order: of all of them, or of those up to the
  -- first that aborts the run.
  pub run-Follows :
      (entities : List String) (fail_fast : Bool) (w : World)
      → RollsBack s
      → CanStart (selected entities) (record w { client = authenticate s.server s.config w.client })
      → (os : List EntityOutcome) × ((run s entities limit dry_run fail_fast w).0 ≡ ok os)
        × Follows fail_fast (selected entities) os
  unfolding run
  run-Follows entities fail_fast w r h =
      run_all-Follows (run_entity s limit dry_run) fail_fast (selected entities)
        (record w { client = authenticate s.server s.config w.client })
        (CanStart-Returns (selected entities) _ r h)
