-- ===== src/Tests/Built.antt =====
-- Tests of the build of the dbt project.
use fineract_analytics_platf.Prelude.{ℕ, suc, ◌≡◌, refl, false, [], ◌∷◌, leb, if◌then◌else◌}
use fineract_analytics_platf.Values.{
  Value, array, object, Items, cons, Fields, field, end, Text, chars,
}
use fineract_analytics_platf.Outcome.{ok, raised, runtime_error}
use fineract_analytics_platf.Parsers.Scan.{strip, lstrip, rstrip}
use fineract_analytics_platf.Parsers.Split.{split_on, stripped_parts}
use fineract_analytics_platf.Dbt.Order.{marts, Model}
use fineract_analytics_platf.Dbt.Engine.{
  Engine, lstrip_quotes, rstrip_quotes, split_lines, split_statements,
}
use fineract_analytics_platf.Dbt.Build.{
  Jinja, Check, build_model, build_models, run_checks, run_singular_tests, validate, zero_rows,
  relation,
}
use fineract_analytics_platf.Dbt.Verdict.{validate_iff}
use fineract_analytics_platf.Dbt.SchemaTests.{
  collect_schema_tests, checks_of_document, checks_of_entry, checks_of_column, tests_of, check_of,
}

-- A `--` line is left out, and the last statement has no end.
statements_read :
    split_statements
      (b'-' ∷ b'-' ∷ b';' ∷ 10 ∷ b'A' ∷ 10 ∷ b'B' ∷ b';' ∷ 13 ∷ 10 ∷ b' ' ∷ b'C' ∷ [])
    ≡ (b'A' ∷ 10 ∷ b'B' ∷ []) ∷ (b'C' ∷ []) ∷ []
unfolding split_statements split_lines stripped_parts split_on strip lstrip rstrip
statements_read = refl

-- A separator in a literal splits the statement.
literal_is_split : split_statements (b'\'' ∷ b';' ∷ b'\'' ∷ []) ≡ (b'\'' ∷ []) ∷ (b'\'' ∷ []) ∷ []
unfolding split_statements split_lines stripped_parts split_on strip lstrip rstrip
literal_is_split = refl

abbrev loans : Model
loans = record { name = "fct_loan"; layer = marts; refs = [] }

abbrev plain : Jinja
plain m = ok (b'x' ∷ [], [])

-- Four statements for the one model, then counts of no rows.
abbrev counting : Engine ℕ
counting q n = (ok (if leb 4 n then b'0' ∷ [] else []), suc n)

abbrev not_null : Check
not_null = record { name = []; query = b'q' ∷ []; expected = zero_rows }

validate_iff_example :
    (validate counting plain false (loans ∷ []) (ok (not_null ∷ [])) (loans ∷ []) 0).0 ≡ ok 0
unfolding build_model build_models run_checks strip lstrip rstrip lstrip_quotes rstrip_quotes
validate_iff_example =
    (validate_iff counting plain (loans ∷ []) (ok (not_null ∷ [])) (loans ∷ []) 0).1 (record {
      built = ((b'x' ∷ [], []), refl, refl, tt);
      tests = not_null ∷ [];
      read = refl;
      passed = (refl, tt);
      empty = ((b'x' ∷ [], []), refl, refl, tt);
    })

-- A failing query is a failing test.
failing_query :
    (validate
      (λ q n. if leb 4 n then (raised runtime_error, suc n) else (ok [], suc n))
      plain
      false
      (loans ∷ [])
      (ok (not_null ∷ []))
      []
      0).0
    ≡ ok 1
unfolding validate build_model build_models run_checks run_singular_tests strip lstrip rstrip
    lstrip_quotes rstrip_quotes
failing_query = refl

-- A document with a test of the whole model and a test of a column.
abbrev one : Value → Value
one v = array (cons v Items.nil)

abbrev tested_column : Fields
tested_column =
    field "name" (Value.text (b'i' ∷ b'd' ∷ []))
      (field "tests" (one (Value.text (chars "not_null"))) end)

abbrev tested_model : Fields
tested_model = field "name" (Value.text (chars "fct_loan")) (
    field "data_tests" (one (Value.text (chars "unique")))
      (field "columns" (one (object tested_column)) end))

abbrev text_of : Value → Text
text_of (Value.text t) = t
text_of _ = []

-- Only the test of the column is collected.
model_tests_skipped :
    collect_schema_tests text_of text_of
      (loans ∷ [])
      (object (field "models" (one (object tested_model)) end) ∷ [])
    ≡ ok (
        record {
          name = chars "fct_loan.id.not_null";
          query = chars "SELECT count() FROM fineract_marts.fct_loan WHERE id IS NULL";
          expected = zero_rows;
        }
        ∷ [])
unfolding collect_schema_tests checks_of_document checks_of_entry checks_of_column tests_of check_of
    relation chars
model_tests_skipped = refl
