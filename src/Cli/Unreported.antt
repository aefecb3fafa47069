-- ===== src/Cli/Unreported.antt =====
-- The `ingest` command of ingestion/fineract_ingest/cli.py, where the database fails before the first
-- entity.
use fineract_analytics_platf.Prelude.{ℕ, ◌≡◌, ap, ◌∙◌, String, Bool, Option, List, ◌∷◌}
use fineract_analytics_platf.Outcome.{Exception, Outcome, ok, raised}
use fineract_analytics_platf.Entities.Spec.{EntitySpec}
use fineract_analytics_platf.Entities.Registry.{get_entity}
use fineract_analytics_platf.Loader.Control.{start_run}
use fineract_analytics_platf.Loader.Status.{Slot}
use fineract_analytics_platf.Pipeline.World.{
  World, Setting, EntityOutcome, Job, after, on_connection,
}
use fineract_analytics_platf.Pipeline.Entity.{load_entity, run_entity}
use fineract_analytics_platf.Pipeline.Run.{run, run_all}
use fineract_analytics_platf.Cli.{ingest, main, cmd_ingest}

module _ {A B : Type 0} where
  after-raised :
      (p : Outcome A × World) (f : A → Job B) (e : Exception)
      → p.0 ≡ raised e
      → (after p f).0 ≡ raised e
  after-raised p f e h = ap (λ o. (after (o, p.1) f).0) h

module _ (s : Setting) (spec : EntitySpec) (name : String) (e : Exception) where
  load_entity-raised :
      (limit : Option ℕ) (dry_run : Bool) (w : World)
      → (start_run s.faults spec.name w.connection).0 ≡ raised e
      → (load_entity s limit dry_run spec w).0 ≡ raised e
  unfolding load_entity
  load_entity-raised limit dry_run w h =
      after-raised (on_connection (start_run s.faults spec.name) w) _ e h

  run_entity-raised :
      (limit : Option ℕ) (dry_run : Bool) (w : World)
      → get_entity name ≡ ok spec
      → (start_run s.faults spec.name w.connection).0 ≡ raised e
      → (run_entity s limit dry_run name w).0 ≡ raised e
  unfolding run_entity
  run_entity-raised limit dry_run w g h =
      ap (λ o. (after (o, w) (load_entity s limit dry_run)).0) g
      ∙ load_entity-raised limit dry_run w h

  run_all-raised :
      (load : String → Job EntityOutcome) (fail_fast : Bool) (names : List String) (w : World)
      → (load name w).0 ≡ raised e
      → (run_all load fail_fast (name ∷ names) w).0 ≡ raised e
  unfolding run_all
  run_all-raised load fail_fast names w h = after-raised (load name w) _ e h

  -- Where the first entity is one of the registry and the statements that record its run raise, the
  -- `ingest` command raises the same in place of an exit code.
  pub main-raised :
      (slots : List Slot) (names : List String) (limit : Option ℕ) (dry_run fail_fast : Bool)
      (w : World)
      → get_entity name ≡ ok spec
      → (start_run s.faults spec.name w.connection).0 ≡ raised e
      → (main s slots
          (ingest (record {
            entities = name ∷ names;
            parent_limit = limit;
            dry_run = dry_run;
            fail_fast = fail_fast;
          }))
          w).0
        ≡ raised e
  unfolding main cmd_ingest run
  main-raised slots names limit dry_run fail_fast w g h = after-raised _ _ e (
      run_all-raised (run_entity s limit dry_run) fail_fast names _
        (run_entity-raised limit dry_run _ g h))
