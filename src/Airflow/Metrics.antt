-- ===== src/Airflow/Metrics.antt =====
-- `publish_pipeline_metrics` of orchestration/dags/fineract_analytics_pipeline.py. The push goes to
-- another service, and whether it arrives changes nothing.
use mathlib.Core.Path.{subst}
use fineract_analytics_platf.Prelude.{
  ◌≡◌, sym, ap, ◌∙◌, inl, inr, String, Bool, false, Option, none, some, List, map, select, str_eq,
  All-split,
}
use fineract_analytics_platf.Prelude.Int.{ℤ, pos, sub_ℤ}
use fineract_analytics_platf.Outcome.{Outcome, ok, raised, type_error, ◌>>=◌}
use fineract_analytics_platf.Airflow.Dag.{
  Task, publish_pipeline_metrics, data_quality_gate, finish, dag, load_and_transform,
  test_and_publish,
}
use fineract_analytics_platf.Airflow.Runs.{
  State, success, failed, upstream_failed, IsBroken, Scheduler, Follows, IsRun,
}

-- A `datetime` with a time zone or without, in microseconds.
pub data Moment : Type 0 where
  aware naive : ℤ → Moment

-- a - b
unfoldable pub minus : Moment → Moment → Outcome ℤ
minus (aware a) (aware b) = ok (sub_ℤ a b)
minus (naive a) (naive b) = ok (sub_ℤ a b)
minus _ _ = raised type_error

pub record TaskInstance : Type 0 where
  pub task_id : String
  pub state : Option String

pub record DagRun : Type 0 where
  pub start_date : Option Moment
  pub end_date : Option Moment
  pub task_instances : List TaskInstance

abbrev or_now : Option Moment → ℤ → Moment
or_now none now = naive now
or_now (some m) now = m

abbrev duration_of : Option Moment → Option Moment → ℤ → Outcome ℤ
duration_of none end_date now = ok (pos 0)
duration_of (some start) end_date now = minus (or_now end_date now) start

-- ti.state == "failed"
abbrev is_failed : Option String → Bool
is_failed none = false
is_failed (some s) = str_eq s "failed"

pub record Published : Type 0 where
  pub duration : ℤ
  pub failed_tasks : List String
  pub finished_at : ℤ

-- publish_pipeline_metrics, with the two answers of `datetime.utcnow()`, which have no time zone;
-- `timestamp` is that of such a `datetime`.
unfoldable pub publish_metrics : (ℤ → ℤ) → ℤ → ℤ → DagRun → Outcome Published
publish_metrics timestamp now later run = duration_of run.start_date run.end_date now >>= λ d.
    ok (record {
      duration = d;
      failed_tasks =
          map (λ (t : TaskInstance). t.task_id)
            (select (λ (t : TaskInstance). is_failed t.state) run.task_instances);
      finished_at = timestamp later;
    })

-- How a task ends whose function returns or raises.
abbrev pub ending {ℓ} : {A : Type ℓ} → Outcome A → State
ending (ok a) = success
ending (raised e) = failed

publish_metrics-running :
    (timestamp : ℤ → ℤ) (now later start : ℤ) (run : DagRun)
    → run.start_date ≡ some (aware start)
    → run.end_date ≡ none
    → publish_metrics timestamp now later run ≡ raised type_error
unfolding publish_metrics minus
publish_metrics-running timestamp now later start run h k = bind-raised _ (
    ap (λ s. duration_of s run.end_date now) h ∙ ap (λ e. duration_of (some (aware start)) e now) k)
  where
    bind-raised :
        {r : Outcome ℤ} (f : ℤ → Outcome Published)
        → r ≡ raised type_error
        → (r >>= f) ≡ raised type_error
    bind-raised f e = ap (λ q. q >>= f) e

-- While the run goes on it has no end, and its start has a time zone: then the task that publishes the
-- metrics raises, since the clock that it reads has none. Whatever the other tasks do, the quality gate
-- does not run, and the run does not end well.
pub data_quality_gate-blocked :
    (a : Scheduler) (own state : Task → State)
    → IsRun a own state
    → (timestamp : ℤ → ℤ) (now later start : ℤ) (run : DagRun) → run.start_date ≡ some (aware start)
    → run.end_date ≡ none
    → own publish_pipeline_metrics ≡ ending (publish_metrics timestamp now later run)
    → (state data_quality_gate ≡ upstream_failed) × (state finish ≡ upstream_failed)
unfolding dag test_and_publish
data_quality_gate-blocked a own state runs timestamp now later start run h k e =
    let late = (All-split (Follows a own state) load_and_transform test_and_publish runs).1 in
    let raises = publish_metrics-running timestamp now later start run h k in
    let measured : state publish_pipeline_metrics ≡ failed =
      late.1.1.1.0 ∙ a.all_done-runs _ _ ∙ e ∙ ap (λ (r : Outcome Published). ending r) raises in
    let gated =
      late.1.1.1.1.0 ∙ a.all_success-blocked _ _ (inr (inl (subst IsBroken (sym measured) tt))) in
    (gated, late.1.1.1.1.1.0 ∙ a.min_one-blocked _ _ (inl (subst IsBroken (sym gated) tt)))
