-- ===== src/Tests/Orchestration.antt =====
-- Tests of the Airflow plugins and of the DAG.
use fineract_analytics_platf.Prelude.{
  ℕ, zero, suc, ◌≡◌, ◌↔◌, refl, String, Bool, true, false, none, some, [], ◌∷◌, arith,
}
use fineract_analytics_platf.Prelude.Int.{pos}
use fineract_analytics_platf.Values.{
  Value, int, array, object, nil, cons, Fields, end, field, Text, chars, fin,
}
use fineract_analytics_platf.Outcome.{ok}
use fineract_analytics_platf.Airflow.Hooks.{no_answer}
use fineract_analytics_platf.Airflow.Gate.{Check, compare, execute_gate}
use fineract_analytics_platf.Airflow.Verdicts.{Decides, holding, failing, execute_gate-Decides}
use fineract_analytics_platf.Airflow.Sensors.{Observed, poke_caught_up}
use fineract_analytics_platf.Airflow.CaughtUp.{IsCaughtUp, poke_caught_up_iff}
use fineract_analytics_platf.Airflow.Connect.{
  status, is_running, poke_connector, tasks_of, states_of, join, restart_failed_tasks, restart,
}
use fineract_analytics_platf.Airflow.Escaping.{escape, escape_all, unescape, guard, unescape-escape}
use fineract_analytics_platf.Airflow.Dbt.{DbtTask, rendered, build_command}
use fineract_analytics_platf.Airflow.Publish.{layer_of}

-- A check whose query fails, of a gate with one check.
abbrev no_duplicates : Bool → Check
no_duplicates blocking = record {
  name = "no_duplicate_loans";
  query = "SELECT count() - countDistinct(loan_id) FROM fineract_marts.fct_loan";
  comparison = "==";
  threshold = fin (pos 0) 0;
  blocking = blocking;
}

execute_gate-Decides_example :
    Decides 1
      (holding (λ n. no_answer) 0 (no_duplicates true ∷ []))
      (failing (λ n. no_answer) 0 (no_duplicates true ∷ []))
      (execute_gate (λ n. no_answer) (no_duplicates true ∷ []))
unfolding compare
execute_gate-Decides_example =
    execute_gate-Decides (λ n. no_answer) (no_duplicates true ∷ []) ((λ x t. (_, refl)), tt)

-- One entity with seven rows on both sides, and a quiet stream.
abbrev counted : Value
counted =
    object (field "entity" (Value.text (chars "clients")) (field "live_keys" (int (pos 7)) end))

abbrev caught_up : Observed
caught_up = record {
  live_keys = ok (counted ∷ []);
  freshness = ok [];
  source_rows = λ n. ok (int (pos 7));
}

poke_caught_up_iff_example :
    (poke_caught_up caught_up 0 300 ("clients" ∷ []) ≡ ok true)
    ↔ IsCaughtUp caught_up 0 300 ("clients" ∷ [])
poke_caught_up_iff_example = poke_caught_up_iff caught_up 0 300 ("clients" ∷ [])

unescape-escape_example :
    unescape (escape (b'a' ∷ b'\'' ∷ b'\\' ∷ [])) ≡ some (b'a' ∷ b'\'' ∷ b'\\' ∷ [])
unfolding escape_all guard
unescape-escape_example = unescape-escape (b'a' ∷ b'\'' ∷ b'\\' ∷ []) (omega arith)

abbrev repeated : ℕ → Text → Text
repeated zero t = t
repeated (suc n) t = b'a' ∷ repeated n t

-- A quote at the limit is cut behind its backslash, which then takes the quote that ends the literal.
cut_quote : unescape (escape (repeated 1999 (b'\'' ∷ []))) ≡ none
unfolding escape escape_all guard
cut_quote = refl

abbrev staging : DbtTask
staging = record {
  command = "run";
  select_ = some "tag:staging";
  exclude = none;
  vars = none;
  full_refresh = rendered "False";
  target = "dev";
  fail_fast = false;
  warn_error = false;
  project_dir = "/opt/airflow/dbt";
  profiles_dir = "/opt/airflow/dbt";
}

-- The rendered text of a false parameter asks for a full refresh.
false_refreshes :
    build_command staging
    ≡ "dbt" ∷ "--no-use-colors" ∷ "run" ∷ "--project-dir" ∷ "/opt/airflow/dbt" ∷ "--profiles-dir"
      ∷ "/opt/airflow/dbt" ∷ "--target" ∷ "dev" ∷ "--select" ∷ "tag:staging" ∷ "--full-refresh" ∷ []
unfolding build_command
false_refreshes = refl

abbrev state_object : String → Fields → Value
state_object s fs = object (field "state" (Value.text (chars s)) fs)

-- A running connector with a failed task, which is restarted.
abbrev half_running : Value
half_running = object (
    field "connector" (state_object "RUNNING" end) (
      field "tasks"
        (array (
          cons (state_object "RUNNING" (field "id" (int (pos 0)) end))
            (cons (state_object "FAILED" (field "id" (int (pos 1)) end)) nil)))
        end))

restarts :
    poke_connector (λ n. true) true (status half_running) (status half_running)
    ≡ (ok false, int (pos 1) ∷ [])
unfolding poke_connector is_running tasks_of states_of join restart_failed_tasks restart chars
restarts = refl

layers :
    (layer_of (chars "test.marts.x") ≡ "marts") × (layer_of (chars "model.p.stg_a") ≡ "staging")
unfolding layer_of chars
layers = (refl, refl)
