-- ===== src/Dbt/SchemaTests.antt =====
-- `collect_schema_tests` of scripts/validate_dbt_sql.py. The documents come as the YAML library loads
-- them. `str` and the `re.sub` that takes the name out of a `ref` are parameters.
use fineract_analytics_platf.Prelude.{
  Option, none, some, List, [], ◌∷◌, ◌++◌, map, concat, if◌then◌else◌,
}
use fineract_analytics_platf.Values.{
  Value, array, object, Items, Fields, field, end, get_field?, items, Text, text_eq, chars,
}
use fineract_analytics_platf.Outcome.{Outcome, ok, raised, type_error, ◌>>=◌}
use fineract_analytics_platf.Parsers.Nested.{truthy}
use fineract_analytics_platf.Exporter.Sources.{item}
use fineract_analytics_platf.Exporter.Samples.{traverse}
use fineract_analytics_platf.Airflow.Connect.{get_or, is_state}
use fineract_analytics_platf.Airflow.Backfill.{or_else}
use fineract_analytics_platf.Dbt.Order.{Model}
use fineract_analytics_platf.Dbt.Build.{relation, Check, count_of, zero_rows}

abbrev empty_list : Value
empty_list = array Items.nil

abbrev keys : Fields → List Value
keys end = []
keys (field k v fs) = Value.text (chars k) ∷ keys fs

-- What a `for` goes through.
abbrev iterate : Value → Outcome (List Value)
iterate (array vs) = ok (items vs)
iterate (object fs) = ok (keys fs)
iterate (Value.text t) = ok (map (λ c. Value.text (c ∷ [])) t)
iterate _ = raised type_error

abbrev find_named : Text → List Model → Option Model
find_named t [] = none
find_named t (m ∷ ms) =
    let rest = find_named t ms in if text_eq t (chars m.name) then some m else rest

-- models.get(name)
abbrev get_model : List Model → Value → Outcome (Option Model)
get_model models (Value.text t) = ok (find_named t models)
get_model models (array vs) = raised type_error
get_model models (object fs) = raised type_error
get_model models _ = ok none

-- v.get("data_tests", []) or v.get("tests", []) or []
unfoldable pub tests_of : Value → Outcome Value
tests_of v = get_or "data_tests" empty_list v >>= λ a.
    if truthy a then ok a else (get_or "tests" empty_list v >>= λ b. ok (or_else b empty_list))

module _ (str ref_name : Value → Text) (models : List Model) where
  abbrev where_clause : Model → Text → Text → List Check
  where_clause m label condition =
      record {
        name = label;
        query = count_of (relation m ++ chars " WHERE " ++ condition);
        expected = zero_rows;
      }
      ∷ []

  abbrev label : Model → Text → Text → Text
  label m column kind = chars m.name ++ b'.' ∷ column ++ b'.' ∷ kind

  abbrev quoted_values : List Value → Text
  quoted_values [] = []
  quoted_values (v ∷ []) = b'\'' ∷ str v ++ b'\'' ∷ []
  quoted_values (v ∷ w ∷ vs) = b'\'' ∷ str v ++ chars "', " ++ quoted_values (w ∷ vs)

  abbrev not_null_test : Model → Text → List Check
  not_null_test m column =
      where_clause m (label m column (chars "not_null")) (column ++ chars " IS NULL")

  abbrev unique_test : Model → Text → List Check
  unique_test m column =
      record {
        name = label m column (chars "unique");
        query = chars "SELECT count() - countDistinct(" ++ column ++ chars ") FROM " ++ relation m;
        expected = zero_rows;
      }
      ∷ []

  unfoldable pub accepted_values : Model → Text → Value → Outcome (List Check)
  accepted_values m column accepted = item "values" accepted >>= iterate >>= λ vs. ok (
      where_clause m (label m column (chars "accepted_values")) (
        column
        ++ chars " IS NOT NULL AND toString("
        ++ column
        ++ chars ") NOT IN ("
        ++ quoted_values vs
        ++ chars ")"))

  abbrev join_query : Model → Model → Text → Text → Text
  join_query m target column key =
      count_of (relation m)
      ++ chars " a LEFT JOIN "
      ++ relation target
      ++ chars " b ON a."
      ++ column
      ++ chars " = b."
      ++ key
      ++ chars " WHERE a."
      ++ column
      ++ chars " IS NOT NULL AND b."
      ++ key
      ++ chars " IS NULL"

  abbrev to_target : Model → Text → Value → Option Model → Outcome (List Check)
  to_target m column spec none = ok []
  to_target m column spec (some target) = item "field" spec >>= λ key. ok (
      record {
        name = label m column (chars "relationships");
        query = join_query m target column (str key);
        expected = zero_rows;
      }
      ∷ [])

  unfoldable pub relationships : Model → Text → Value → Outcome (List Check)
  relationships m column spec = get_or "to" (Value.text []) spec >>= λ to.
      to_target m column spec (find_named (ref_name to) models)

  abbrev dict_test : Model → Text → Fields → Outcome (List Check)
  dict_test m column fs = elim (get_field? fs "accepted_values") [
    | some accepted ↦ accepted_values m column accepted
    | none ↦ elim (get_field? fs "relationships") [
      | some spec ↦ relationships m column spec
      | none ↦ ok []
    ]
  ]

  -- The chain of tests on one entry of a column
  unfoldable pub check_of : Model → Text → Value → Outcome (List Check)
  check_of m column (object fs) = dict_test m column fs
  check_of m column test =
      if is_state "not_null" test
      then ok (not_null_test m column)
      else if is_state "unique" test
      then ok (unique_test m column)
      else ok []

  unfoldable pub checks_of_column : Model → Value → Outcome (List Check)
  checks_of_column m column = do
    name ← item "name" column
    tests ← tests_of column >>= iterate
    checks ← traverse (check_of m (str name)) tests
    ok (concat checks)

  -- The loop over the tests of the model itself does nothing but go through them.
  abbrev checks_of_model : Value → Option Model → Outcome (List Check)
  checks_of_model entry none = ok []
  checks_of_model entry (some m) = do
    _ ← tests_of entry >>= iterate
    columns ← get_or "columns" empty_list entry
    cs ← iterate (or_else columns empty_list)
    checks ← traverse (checks_of_column m) cs
    ok (concat checks)

  unfoldable pub checks_of_entry : Value → Outcome (List Check)
  checks_of_entry entry = do
    name ← get_or "name" Value.null entry
    m ← get_model models name
    checks_of_model entry m

  unfoldable pub checks_of_document : Value → Outcome (List Check)
  checks_of_document document = do
    entries ← get_or "models" empty_list (or_else document (object end))
    es ← iterate (or_else entries empty_list)
    checks ← traverse checks_of_entry es
    ok (concat checks)

  unfoldable pub collect_schema_tests : List Value → Outcome (List Check)
  collect_schema_tests documents =
      traverse checks_of_document documents >>= λ checks. ok (concat checks)
