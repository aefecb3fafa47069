-- ===== src/Airflow/Publish.antt =====
-- `PublishDbtResultsOperator` of orchestration/plugins/fineract/operators.py. A row is the list of the
-- texts between the quotes or commas of its tuple; `Formats` is how Python writes the numbers.
use fineract_analytics_platf.Prelude.{
  String, Bool, ◌||◌, Option, none, some, List, [], ◌∷◌, ◌++◌, ◌==◌, if◌then◌else◌, take,
}
use fineract_analytics_platf.Prelude.Int.{pos}
use fineract_analytics_platf.Values.{Value, fin, null, array, object, Items, end, Text, chars}
use fineract_analytics_platf.Parsers.Nested.{truthy}
use fineract_analytics_platf.Parsers.Scalars.{Library, str_of, int_of}
use fineract_analytics_platf.Parsers.Scan.{str_of_int}
use fineract_analytics_platf.Outcome.{
  Outcome, ok, raised, type_error, value_error, airflow_skip, ◌>>=◌,
}
use fineract_analytics_platf.Exporter.Samples.{traverse}
use fineract_analytics_platf.Airflow.Connect.{get_or, begins, contains}
use fineract_analytics_platf.Airflow.Dbt.{Artefact, missing, unparseable, parsed, elements}
use fineract_analytics_platf.Airflow.Escaping.{escape}
use fineract_analytics_platf.Airflow.Hooks.{Answer, execute}

-- `round(x, 4)` in a format string, where `none` is the `TypeError` of what is no number
pub record Formats : Type 0 where
  pub library : Library
  pub round4 : Value → Option Text

-- f".{layer}." in unique_id or unique_id.startswith(f"test.{layer}")
abbrev names_layer : String → Text → Bool
names_layer layer t =
    contains (b'.' ∷ chars layer ++ b'.' ∷ []) t || begins (chars "test." ++ chars layer) t

-- PublishDbtResultsOperator._layer_of
unfoldable pub layer_of : Text → String
layer_of t =
    if names_layer "staging" t
    then "staging"
    else if names_layer "intermediate" t
    then "intermediate"
    else if names_layer "marts" t
    then "marts"
    else if names_layer "ml" t
    then "ml"
    else if contains (chars "stg_") t
    then "staging"
    else if contains (chars "int_") t
    then "intermediate"
    else if begins (chars "test.") t
    then "tests"
    else "other"

-- unique_id.split(".")[-1], where `last` is what stands behind the last point so far
unfoldable pub last_part : Text → Text → Text
last_part last [] = last
last_part last (c ∷ t) = if c == b'.' then last_part [] t else last_part (last ++ c ∷ []) t

-- The texts that every row begins with: the invocation, the run and the time.
pub record Stamp : Type 0 where
  pub invocation_id : Text
  pub dag_run_id : Text
  pub executed_at : Text

abbrev text_or_type_error : Value → Outcome Text
text_or_type_error (Value.text t) = ok t
text_or_type_error _ = raised type_error

abbrev or_type_error : Option Text → Outcome Text
or_type_error none = raised type_error
or_type_error (some t) = ok t

-- `int(value or 0)`, written
abbrev whole : Value → Outcome Text
whole v = (if truthy v then int_of v else ok (pos 0)) >>= λ n. ok (str_of_int n)

abbrev zero : Value
zero = Value.float (fin (pos 0) 0)

-- `value or ""`
abbrev or_empty : Value → Value
or_empty v = if truthy v then v else Value.text []

-- A tuple of the INSERT for tests, or of that for models.
pub data PublishedRow : Type 0 where
  test_row model_row : List Text → PublishedRow

-- The tail of a test's tuple, behind its name.
unfoldable pub test_tail : Formats → Text → Text → Value → Text → Text → Value → Outcome (List Text)
test_tail f id name status timing text failures = whole failures >>= λ n. ok (
    escape name
    ∷ chars (layer_of id)
    ∷ str_of f.library status
    ∷ chars "error"
    ∷ n
    ∷ timing
    ∷ text
    ∷ [])

-- The tail of a model's tuple, behind its name.
unfoldable pub model_tail : Formats → Text → Value → Text → Text → Value → Outcome (List Text)
model_tail f id status timing text adapter = do
  materialization ← get_or "materialization" (Value.text []) adapter
  affected ← get_or "rows_affected" null adapter >>= whole
  ok (
      chars (layer_of id)
      ∷ escape (str_of f.library materialization)
      ∷ str_of f.library status
      ∷ affected
      ∷ timing
      ∷ text
      ∷ [])

-- The body of the loop over the results.
unfoldable pub row_of : Formats → Stamp → Value → Outcome PublishedRow
row_of f stamp result = do
  id ← get_or "unique_id" (Value.text []) result >>= text_or_type_error
  status ← get_or "status" (Value.text (chars "unknown")) result
  timing ← get_or "execution_time" zero result >>= λ v. or_type_error (f.round4 v)
  message ← get_or "message" null result
  failures ← get_or "failures" null result
  adapter ← get_or "adapter_response" (object end) result
  let name = last_part [] id in
      let first : List Text =
        stamp.invocation_id ∷ stamp.dag_run_id ∷ stamp.executed_at ∷ escape id ∷ escape name ∷ [] in
      let text = escape (str_of f.library (or_empty message)) in
      if begins (chars "test.") id
      then (test_tail f id name status timing text failures >>= λ r. ok (test_row (first ++ r)))
      else (model_tail f id status timing text adapter >>= λ r. ok (model_row (first ++ r)))

abbrev pub test_rows : List PublishedRow → List (List Text)
test_rows [] = []
test_rows (test_row r ∷ rs) = r ∷ test_rows rs
test_rows (model_row r ∷ rs) = test_rows rs

abbrev pub model_rows : List PublishedRow → List (List Text)
model_rows [] = []
model_rows (test_row r ∷ rs) = model_rows rs
model_rows (model_row r ∷ rs) = r ∷ model_rows rs

-- text.replace("T", " ")
unfoldable pub without_t : Text → Text
without_t [] = []
without_t (c ∷ t) = (if c == b'T' then b' ' else c) ∷ without_t t

-- What is inserted, and the summary.
pub record Published : Type 0 where
  pub tests : List (List Text)
  pub models : List (List Text)
  pub invocation_id : Value

-- An INSERT of some rows, if there are any.
abbrev insert : List (List Text) → Answer → Outcome (Unit {0})
insert [] a = ok tt
insert (r ∷ rs) a = execute a >>= λ _. ok tt

-- PublishDbtResultsOperator.execute, with the run's id and the answers to its two inserts
unfoldable pub publish : Formats → Text → Answer → Answer → Artefact → Outcome Published
publish f dag_run_id to_tests to_models missing = raised airflow_skip
publish f dag_run_id to_tests to_models unparseable = raised value_error
publish f dag_run_id to_tests to_models (parsed payload) = do
  metadata ← get_or "metadata" (object end) payload
  invocation_id ← get_or "invocation_id" (Value.text (chars "unknown")) metadata
  generated_at ← get_or "generated_at" (Value.text []) metadata >>= text_or_type_error
  results ← get_or "results" (array Items.nil) payload >>= elements
  rows ←
      traverse
        (row_of f (record {
          invocation_id = str_of f.library invocation_id;
          dag_run_id = dag_run_id;
          executed_at = without_t (take 23 generated_at);
        }))
        results
  _ ← insert (test_rows rows) to_tests
  _ ← insert (model_rows rows) to_models
  ok (record { tests = test_rows rows; models = model_rows rows; invocation_id = invocation_id })
