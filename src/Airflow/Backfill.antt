-- ===== src/Airflow/Backfill.antt =====
-- The tasks of orchestration/dags/fineract_backfill.py. `confirm` and the others are the parameters
-- of the run. What they print is left out.
use fineract_analytics_platf.Prelude.{
  ℕ, suc, String, Bool, true, false, ◌==◌, none, some, List, [], ◌∷◌, map, if◌then◌else◌,
}
use fineract_analytics_platf.Prelude.Int.{ℤ, ltb_ℤ, sub_ℤ}
use fineract_analytics_platf.Values.{
  Value, null, Fields, get_field, get_field?, Text, text_eq, chars,
}
use fineract_analytics_platf.Parsers.Nested.{truthy}
use fineract_analytics_platf.Outcome.{
  Outcome, ok, raised, value_error, runtime_error, type_error, ◌>>=◌,
}
use fineract_analytics_platf.Loader.Status.{Slot}
use fineract_analytics_platf.Pipeline.World.{Setting, Job, after, pure, raise}
use fineract_analytics_platf.Cli.{Command, ingest, main}
use fineract_analytics_platf.Cli.Arguments.{entity_names}
use fineract_analytics_platf.Airflow.Hooks.{pg_scalar}
use fineract_analytics_platf.Airflow.Connect.{is_state}
use fineract_analytics_platf.Airflow.Sensors.{count_or_zero}

pub record Config : Type 0 where
  pub reingest : Bool
  pub entities : Value
  pub rebuild : Bool
  pub select : Value

-- v or default
abbrev pub or_else : Value → Value → Value
or_else v default = if truthy v then v else default

abbrev entities_or_all : Fields → Value
entities_or_all fs = elim (get_field? fs "entities") [
  | none ↦ Value.text (chars "all")
  | some v ↦ v
]

-- validate_parameters
unfoldable pub validate_parameters : Fields → Outcome Config
validate_parameters params =
    if is_state "REBUILD" (get_field params "confirm")
    then ok (record {
      reingest = truthy (get_field params "reingest_source");
      entities = entities_or_all params;
      rebuild = truthy (get_field params "rebuild_models");
      select = or_else (get_field params "dbt_select") null;
    })
    else raised value_error

abbrev pub Counts : Type 0
Counts = List (String × ℤ)

-- The count of each table, where `answers n` are the rows of the n-th query.
unfoldable pub counts_of : (ℕ → Outcome (List (List Value))) → ℕ → List String → Outcome Counts
counts_of answers n [] = ok []
counts_of answers n (t ∷ ts) = count_or_zero (pg_scalar (answers n)) >>= λ a.
    counts_of answers (suc n) ts >>= λ rest. ok ((t, a) ∷ rest)

-- snapshot_before
unfoldable pub snapshot_before : (ℕ → Outcome (List (List Value))) → Outcome Counts
snapshot_before answers = counts_of answers 0 (
    "clients" ∷ "loans" ∷ "loan_transactions" ∷ "savings_accounts" ∷ "offices" ∷ "staff"
    ∷ "loan_products" ∷ "savings_products" ∷ [])

-- The list of `main(argv)`: of `--all` it is empty. `as_name` is the string of a text.
abbrev names_for : (Text → String) → Value → Outcome (List String)
names_for as_name (Value.text t) =
    if text_eq t (chars "all") then ok [] else ok (map as_name (entity_names t))
names_for as_name v = raised type_error

abbrev full_load : List String → Command
full_load names =
    ingest (record { entities = names; parent_limit = none; dry_run = false; fail_fast = false })

abbrev check_code : ℕ → Job Bool
check_code n = if n == 0 then pure true else raise runtime_error

abbrev run_names : Setting → List Slot → Outcome (List String) → Job Bool
run_names s slots (ok names) w = after (main s slots (full_load names) w) check_code
run_names s slots (raised e) w = (raised e, w)

-- reingest: whether the source was read again
unfoldable pub reingest : Setting → List Slot → (Text → String) → Config → Job Bool
reingest s slots as_name config =
    if config.reingest then run_names s slots (names_for as_name config.entities) else pure false

-- build_dbt_arguments
unfoldable pub build_dbt_arguments : Config → Value
build_dbt_arguments config = or_else config.select (Value.text (chars "fqn:*"))

-- The tables with fewer rows than before. The keys of `before` are distinct, and `after` has them in
-- the same order.
unfoldable pub shrunk : Counts → Counts → List String
shrunk ((t, b) ∷ before) ((_, a) ∷ after) =
    let rest = shrunk before after in if ltb_ℤ a b then t ∷ rest else rest
shrunk _ _ = []

unfoldable pub deltas : Counts → Counts → Counts
deltas ((t, b) ∷ before) ((_, a) ∷ after) = (t, sub_ℤ a b) ∷ deltas before after
deltas _ _ = []

pub record Verified : Type 0 where
  pub before : Counts
  pub after : Counts
  pub delta : Counts

abbrev pub unless_shrunk : Counts → Counts → List String → Outcome Verified
unless_shrunk before after [] =
    ok (record { before = before; after = after; delta = deltas before after })
unless_shrunk before after (t ∷ ts) = raised runtime_error

-- verify_after
unfoldable pub verify_after : (ℕ → Outcome (List (List Value))) → Counts → Outcome Verified
verify_after answers before = counts_of answers 0 (map (λ p. p.0) before) >>= λ after.
    unless_shrunk before after (shrunk before after)
