-- ===== src/Airflow/Ingest.antt =====
-- `_run_ingestion` of orchestration/dags/fineract_analytics_pipeline.py over the command line of
-- ingestion/fineract_ingest/cli.py.
use fineract_analytics_platf.Prelude.{
  ℕ, zero, suc, ◌≡◌, refl, ap, ◌∙◌, inl, inr, String, Bool, false, Option, none, some, List, [],
  ◌∷◌, ◌==◌, if◌then◌else◌, Bool-cases, arith,
}
use fineract_analytics_platf.Outcome.{Outcome, ok, raised, runtime_error}
use fineract_analytics_platf.Client.Transport.{authenticate}
use fineract_analytics_platf.Loader.Status.{Slot}
use fineract_analytics_platf.Pipeline.World.{
  World, Setting, EntityOutcome, Job, after, ◌>>=◌, pure, raise,
}
use fineract_analytics_platf.Pipeline.Entity.{run_entity}
use fineract_analytics_platf.Pipeline.Run.{run, run_all}
use fineract_analytics_platf.Cli.{is_failed, Command, ingest, main, cmd_ingest, exit_code}

-- The arguments of a run of the DAG, as far as the task reads them.
pub record Params : Type 0 where
  pub dry_run : Bool
  pub parent_limit : Option ℕ

-- `if context["params"].get("parent_limit")`
abbrev pub limit_of : Option ℕ → Option ℕ
limit_of none = none
limit_of (some zero) = none
limit_of (some (suc n)) = some (suc n)

abbrev pub check_code : ℕ → Job (Unit {0})
check_code n = if n == 0 then pure tt else raise runtime_error

abbrev pub command_for : Params → String → Command
command_for params entity = ingest (record {
  entities = entity ∷ [];
  parent_limit = limit_of params.parent_limit;
  dry_run = params.dry_run;
  fail_fast = false;
})

-- _run_ingestion
unfoldable pub run_ingestion : Setting → List Slot → Params → String → Job (Unit {0})
run_ingestion s slots params entity = main s slots (command_for params entity) >>= check_code

module _ {A B : Type 0} where
  after-inv :
      (p : Outcome A × World) (f : A → Job B) (b : B)
      → (after p f).0 ≡ ok b
      → (a : A) × (p.0 ≡ ok a) × ((f a p.1).0 ≡ ok b)
  after-inv (ok a, w) f b e = (a, refl, e)
  after-inv (raised x, w) f b e = absurd cc

abbrev from_ok : {A : Type 0} → A → Outcome A → A
from_ok a (ok b) = b
from_ok a (raised e) = a

ok_code : (n : ℕ) (v w : World) → (check_code n w).0 ≡ ok tt → (check_code n v).0 ≡ ok tt
ok_code n v w h = ground arith

code-not_failed :
    (o : EntityOutcome) (w : World)
    → (check_code (exit_code (o ∷ [])) w).0 ≡ ok tt
    → is_failed o.status ≡ false
unfolding exit_code
code-not_failed o w h = elim (Bool-cases (is_failed o.status)) [
  | inl y ↦ absurd (raised-not_ok (rw y at h))
  | inr n ↦ n
]
  where
    raised-not_ok : Path (Outcome (Unit {0})) (raised runtime_error) (ok tt) → ⊥
    raised-not_ok e = cc

-- The task of an entity succeeds only if the load of that entity has returned, with a status that is
-- not `failed`, whatever the parameters of the run.
pub run_ingestion-ok :
    (s : Setting) (slots : List Slot) (params : Params) (entity : String) (w : World)
    → (run_ingestion s slots params entity w).0 ≡ ok tt
    → (o : EntityOutcome) × ((run_entity s
          (limit_of params.parent_limit)
          params.dry_run
          entity
          (record w { client = authenticate s.server s.config w.client })).0
        ≡ ok o)
      × (is_failed o.status ≡ false)
unfolding run_ingestion main cmd_ingest run run_all exit_code
run_ingestion-ok s slots params entity w h =
    let start : World = record w { client = authenticate s.server s.config w.client } in
    let load = run_entity s (limit_of params.parent_limit) params.dry_run in
    let (code, e, zero_) = after-inv (main s slots (command_for params entity) w) check_code tt h in
    let (os, f, g) =
      after-inv (run_all load false (entity ∷ []) start) (λ os. pure (exit_code os)) code e in
    let (o, i, j) = after-inv (load entity start) _ os f in
    let same : exit_code (o ∷ []) ≡ code =
      ap (λ r. exit_code (from_ok [] r)) j ∙ ap (from_ok 0) g in
    (o, i, code-not_failed o w (ap (λ (n : ℕ). (check_code n w).0) same ∙ ok_code code w _ zero_))
