-- ===== src/Airflow/Runs.antt =====
-- How a run of the DAG of orchestration/dags/fineract_analytics_pipeline.py ends. Airflow's scheduler
-- is an interface, with what its documentation says of the trigger rules.
use mathlib.Core.Path.{subst}
use fineract_analytics_platf.Prelude.{
  ◌≡◌, sym, ap, ◌∙◌, ◌⊎◌, inl, List, [], ◌∷◌, map, All, All-split,
}
use fineract_analytics_platf.Airflow.Dag.{
  TriggerRule, all_success, all_done, none_failed_min_one_success, Task, Node, dbt_source_freshness,
  dbt_test, publish_dbt_results, publish_pipeline_metrics, data_quality_gate, finish,
  load_and_transform, test_and_publish, dag,
}

pub data State : Type 0 where
  success failed upstream_failed skipped : State

abbrev pub IsBroken : State → Type 0
IsBroken failed = Unit
IsBroken upstream_failed = Unit
IsBroken _ = ⊥

abbrev pub Some : (State → Type 0) → List State → Type 0
Some P [] = ⊥
Some P (s ∷ ss) = P s ⊎ Some P ss

abbrev pub IsSuccess : State → Type 0
IsSuccess s = s ≡ success

-- `ends rule upstream own` is the state of a task with this rule, where its upstream tasks have ended
-- so and the task itself, if it runs, ends with `own`.
pub record Scheduler : Type 0 where
  pub ends : TriggerRule → List State → State → State
  pub all_done-runs : (ups : List State) (own : State) → ends all_done ups own ≡ own
  pub all_success-runs :
      (ups : List State) (own : State) → All IsSuccess ups → ends all_success ups own ≡ own
  pub all_success-blocked :
      (ups : List State) (own : State)
      → Some IsBroken ups
      → ends all_success ups own ≡ upstream_failed
  pub min_one-runs :
      (ups : List State) (own : State)
      → All (λ s. IsBroken s → ⊥) ups
      → Some IsSuccess ups
      → ends none_failed_min_one_success ups own ≡ own
  pub min_one-blocked :
      (ups : List State) (own : State)
      → Some IsBroken ups
      → ends none_failed_min_one_success ups own ≡ upstream_failed

-- A run: each task's state follows from those of its upstream tasks.
abbrev pub Follows : Scheduler → (Task → State) → (Task → State) → Node → Type 0
Follows a own state n = state n.task ≡ a.ends n.trigger_rule (map state n.upstream) (own n.task)

abbrev pub IsRun : Scheduler → (Task → State) → (Task → State) → Type 0
IsRun a own state = All (Follows a own state) dag

-- The states of `data_quality_gate` and of `finish` do not depend on the ingestion, on the wait for the
-- change data capture, on the models or on the tests: they are the same in any two runs in which the two
-- tasks that publish, the quality gate and `finish` end in the same way when they run, whatever the
-- other tasks have done in each.
pub finish-regardless :
    (a : Scheduler) (own own' state state' : Task → State)
    → IsRun a own state
    → IsRun a own' state'
    → own publish_dbt_results ≡ own' publish_dbt_results
    → own publish_pipeline_metrics ≡ own' publish_pipeline_metrics
    → own data_quality_gate ≡ own' data_quality_gate
    → own finish ≡ own' finish
    → (state data_quality_gate ≡ state' data_quality_gate) × (state finish ≡ state' finish)
unfolding dag test_and_publish
finish-regardless a own own' state state' run run' results metrics gate finish_ =
    let late = (All-split (Follows a own state) load_and_transform test_and_publish run).1 in
    let late' = (All-split (Follows a own' state') load_and_transform test_and_publish run').1 in
    let published =
      late.1.1.0 ∙ a.all_done-runs _ _ ∙ results ∙ sym (late'.1.1.0 ∙ a.all_done-runs _ _) in
    let measured =
      late.1.1.1.0 ∙ a.all_done-runs _ _ ∙ metrics ∙ sym (late'.1.1.1.0 ∙ a.all_done-runs _ _) in
    let gated =
      late.1.1.1.1.0
      ∙ ap
          (λ r.
            a.ends all_success (r ∷ state publish_pipeline_metrics ∷ []) (own data_quality_gate))
          published
      ∙ ap (λ m. a.ends all_success (state' publish_dbt_results ∷ m ∷ []) (own data_quality_gate))
          measured
      ∙ ap (a.ends all_success (state' publish_dbt_results ∷ state' publish_pipeline_metrics ∷ []))
          gate
      ∙ sym late'.1.1.1.1.0 in
    (
      gated,
      late.1.1.1.1.1.0
          ∙ ap (λ g. a.ends none_failed_min_one_success (g ∷ []) (own finish)) gated
          ∙ ap (a.ends none_failed_min_one_success (state' data_quality_gate ∷ [])) finish_
          ∙ sym late'.1.1.1.1.1.0,
    )

-- Where the check of the sources' freshness fails, which is to be no more than a warning, the tests do
-- not run, and the end of the run is as before.
pub dbt_test-blocked :
    (a : Scheduler) (own state : Task → State)
    → IsRun a own state
    → own dbt_source_freshness ≡ failed
    → state dbt_test ≡ upstream_failed
unfolding dag test_and_publish
dbt_test-blocked a own state run h =
    let late = (All-split (Follows a own state) load_and_transform test_and_publish run).1 in
    let broken = late.0 ∙ a.all_done-runs _ _ ∙ h in
    late.1.0 ∙ a.all_success-blocked _ _ (inl (subst IsBroken (sym broken) tt))
