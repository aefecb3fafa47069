-- ===== src/Airflow/Dbt.antt =====
-- `DbtOperator` of orchestration/plugins/fineract/operators.py: the command line and the summary of
-- the results. The process that runs dbt is a parameter, as its exit code.
use fineract_analytics_platf.Prelude.{
  ℕ, String, Bool, true, false, ◌||◌, Option, none, some, List, [], ◌∷◌, ◌++◌, ◌==◌, str_eq,
  if◌then◌else◌, count_if, length, take, select, map,
}
use fineract_analytics_platf.Values.{Value, null, array, object, Items, end, text_eq, chars, items}
use fineract_analytics_platf.Outcome.{
  Outcome, ok, raised, type_error, attribute_error, airflow_fail, ◌>>=◌,
}
use fineract_analytics_platf.Exporter.Samples.{traverse}
use fineract_analytics_platf.Airflow.Connect.{get_or}

-- A parameter that may be a template: a Boolean, or the text that Airflow has rendered.
pub data Flag : Type 0 where
  flag : Bool → Flag
  rendered : String → Flag

abbrev pub is_set : Flag → Bool
is_set (flag b) = b
is_set (rendered s) = if str_eq s "" then false else true

-- The settings of the operator; `vars` is the JSON of a dict that is not empty.
pub record DbtTask : Type 0 where
  pub command : String
  pub select_ : Option String
  pub exclude : Option String
  pub vars : Option String
  pub full_refresh : Flag
  pub target : String
  pub fail_fast : Bool
  pub warn_error : Bool
  pub project_dir : String
  pub profiles_dir : String

-- `if value: argv += [name, value]`
abbrev option_words : String → Option String → List String
option_words name none = []
option_words name (some v) = if str_eq v "" then [] else name ∷ v ∷ []

abbrev flag_words : String → Bool → List String
flag_words name b = if b then name ∷ [] else []

-- DbtOperator._build_command
unfoldable pub build_command : DbtTask → List String
build_command t =
    "dbt" ∷ flag_words "--warn-error" t.warn_error
    ++ ("--no-use-colors" ∷ t.command ∷ "--project-dir" ∷ t.project_dir ∷ "--profiles-dir"
        ∷ t.profiles_dir ∷ "--target" ∷ t.target ∷ [])
    ++ option_words "--select" t.select_
    ++ option_words "--exclude" t.exclude
    ++ option_words "--vars" t.vars
    ++ flag_words "--full-refresh" (is_set t.full_refresh)
    ++ flag_words "--fail-fast" t.fail_fast

-- What `run_results.json` holds: no file, no JSON, or JSON.
pub data Artefact : Type 0 where
  missing : Artefact
  unparseable : Artefact
  parsed : Value → Artefact

-- The summary, without the rounded `elapsed`
pub record Counts : Type 0 where
  pub invocation_id : Value
  pub nodes : ℕ
  pub success : ℕ
  pub warn : ℕ
  pub error : ℕ
  pub skipped : ℕ
  pub failed_nodes : List Value

pub data Summary : Type 0 where
  no_results : Summary
  unparseable_results : Summary
  counts : Counts → Summary

abbrev is_word : String → Value → Bool
is_word s (Value.text t) = text_eq t (chars s)
is_word s _ = false

abbrev pub is_good : Value → Bool
is_good s = is_word "success" s || is_word "pass" s

abbrev pub is_bad : Value → Bool
is_bad s = is_word "error" s || is_word "fail" s

abbrev pub elements : Value → Outcome (List Value)
elements (array vs) = ok (items vs)
elements (object end) = ok []
elements (Value.text []) = ok []
elements (object _) = raised attribute_error
elements (Value.text _) = raised attribute_error
elements _ = raised type_error

-- r.get("status") and r.get("unique_id")
unfoldable pub result_of : Value → Outcome (Value × Value)
result_of r = get_or "status" null r >>= λ s. get_or "unique_id" null r >>= λ u. ok (s, u)

abbrev pub counts_of : Value → List (Value × Value) → Counts
counts_of invocation_id rs = record {
  invocation_id = invocation_id;
  nodes = length rs;
  success = count_if (λ r. is_good r.0) rs;
  warn = count_if (λ r. is_word "warn" r.0) rs;
  error = count_if (λ r. is_bad r.0) rs;
  skipped = count_if (λ r. is_word "skipped" r.0) rs;
  failed_nodes = take 20 (map (λ r. r.1) (select (λ r. is_bad r.0) rs));
}

-- DbtOperator._summarise_run_results
unfoldable pub summarise : Artefact → Outcome Summary
summarise missing = ok no_results
summarise unparseable = ok unparseable_results
summarise (parsed payload) = do
  results ← get_or "results" (array Items.nil) payload >>= elements
  metadata ← get_or "metadata" (object end) payload
  invocation_id ← get_or "invocation_id" null metadata
  rs ← traverse result_of results
  ok (counts (counts_of invocation_id rs))

-- DbtOperator.execute, with the exit code of the process
unfoldable pub execute_dbt : DbtTask → ℕ → Artefact → Outcome Summary
execute_dbt t code artefact =
    summarise artefact >>= λ s. if code == 0 then ok s else raised (airflow_fail (t.command ∷ []))
