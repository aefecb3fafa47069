-- ===== src/Dbt/Build.antt =====
-- The build of the models and the tests of `main` in scripts/validate_dbt_sql.py. What is printed is
-- left out. Jinja with the macros is a parameter: the text of a model and its references, sorted, or
-- the exception.
use fineract_analytics_platf.Prelude.{
  ℕ, zero, suc, ◌+◌, String, Bool, true, false, List, [], ◌∷◌, ◌++◌, if◌then◌else◌,
}
use fineract_analytics_platf.Values.{Text, text_eq, chars}
use fineract_analytics_platf.Outcome.{Outcome, ok, raised, runtime_error}
use fineract_analytics_platf.Parsers.Scan.{strip}
use fineract_analytics_platf.Dbt.Order.{Layer, staging, intermediate, marts, ml, Model}
use fineract_analytics_platf.Dbt.Engine.{Script, Engine, pure, after, ◌>>=◌, lift, scalar}

abbrev pub Jinja : Type 0
Jinja = Model → Outcome (Text × List String)

-- LAYER_DATABASE
abbrev pub layer_database : Layer → Text
layer_database staging = chars "fineract_staging"
layer_database intermediate = chars "fineract_intermediate"
layer_database marts = chars "fineract_marts"
layer_database ml = chars "fineract_ml"

-- Model.relation
unfoldable pub relation : Model → Text
relation m = layer_database m.layer ++ b'.' ∷ chars m.name

abbrev pub count_of : Text → Text
count_of t = chars "SELECT count() FROM " ++ t

abbrev create_table : Model → Text → Text
create_table m sql =
    chars "CREATE TABLE " ++ relation m ++ chars " ENGINE = MergeTree ORDER BY tuple() AS " ++ sql

abbrev qualified_columns : Model → Text
qualified_columns m =
    chars "SELECT name FROM system.columns WHERE database = '"
    ++ layer_database m.layer
    ++ chars "' AND table = '"
    ++ chars m.name
    ++ chars "' AND position(name, '.') > 0"

abbrev unless_any : {S : Type 0} → Text → Script S (Unit {0})
unless_any [] = pure tt
unless_any (c ∷ t) = lift (raised runtime_error)

-- The body of the `try` in the loop over the models.
unfoldable pub build_model : {S : Type 0} → Engine S → Model → Text → Script S (Unit {0})
build_model e m sql = e (chars "DROP TABLE IF EXISTS " ++ relation m) >>= λ _.
    e (create_table m sql) >>= λ _. scalar e (count_of (relation m)) >>= λ _.
    e (qualified_columns m) >>= λ bad. unless_any (strip bad)

abbrev pub go_on : {S : Type 0} → Outcome (Unit {0}) × S → Script S Bool → Outcome Bool × S
go_on (ok _, s) rest = rest s
go_on (raised x, s) rest = (ok false, s)

-- The loop over the models: whether all were built. The template is rendered outside the `try`.
unfoldable pub build_models : {S : Type 0} → Engine S → Jinja → List Model → Script S Bool
build_models e jinja [] s = (ok true, s)
build_models e jinja (m ∷ ms) s =
    after (jinja m, s) (λ p s. go_on (build_model e m p.0 s) (build_models e jinja ms))

-- A test of the schema: its name, its query, and the answer that passes.
pub record Check : Type 0 where
  pub name : Text
  pub query : Text
  pub expected : Text

abbrev pub failure : Text → Outcome Text → ℕ
failure expected (ok observed) = if text_eq observed expected then 0 else 1
failure expected (raised x) = 1

-- The loop over the tests of the schema: the number of failures.
unfoldable pub run_checks : {S : Type 0} → Engine S → List Check → S → ℕ × S
run_checks e [] s = (0, s)
run_checks e (c ∷ cs) s =
    let p = scalar e c.query s in
    let rest = run_checks e cs p.1 in (failure c.expected p.0 + rest.0, rest.1)

abbrev pub zero_rows : Text
zero_rows = b'0' ∷ []

-- The count of a singular test
abbrev pub failing_rows : Text → Text
failing_rows sql = count_of (b'(' ∷ sql ++ chars ") AS t")

-- run_singular_tests: the number of failures
unfoldable pub run_singular_tests : {S : Type 0} → Engine S → Jinja → List Model → Script S ℕ
run_singular_tests e jinja [] = pure 0
run_singular_tests e jinja (t ∷ ts) = lift (jinja t) >>= λ p.
    scalar e (failing_rows p.0) >>= λ count.
    run_singular_tests e jinja ts >>= λ n. pure (failure zero_rows (ok count) + n)

abbrev pub code_of : ℕ → ℕ
code_of zero = 0
code_of (suc n) = 1

-- `main` behind its checks of the schema.
abbrev pub run_tests : {S : Type 0} → Engine S → Jinja → List Model → List Check → Script S ℕ
run_tests e jinja singular cs s =
    let p = run_checks e cs s in
    after (run_singular_tests e jinja singular p.1) (λ n. pure (code_of (p.0 + n)))

-- `main` from the first model on.
unfoldable pub validate :
    {S : Type 0}
    → Engine S
    → Jinja
    → Bool
    → List Model
    → Outcome (List Check)
    → List Model
    → Script S ℕ
validate e jinja skip_tests ordered checks singular s =
    after (build_models e jinja ordered s) (λ built.
      if built
      then (if skip_tests then pure 0 else (lift checks >>= run_tests e jinja singular))
      else pure 1)
