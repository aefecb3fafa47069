-- ===== src/Dbt/Script.antt =====
-- `discover_models`, the schema's names and `main` of scripts/validate_dbt_sql.py. The files come in
-- their order with what is read of them.
use fineract_analytics_platf.Prelude.{
  ℕ, String, Bool, true, false, Option, none, some, List, [], ◌∷◌, ◌++◌, select, str_eq,
  if◌then◌else◌,
}
use fineract_analytics_platf.Values.{Text, chars}
use fineract_analytics_platf.Outcome.{Outcome, ok, raised, value_error, runtime_error, ◌>>=◌}
use fineract_analytics_platf.Dbt.Order.{
  Layer, staging, intermediate, marts, ml, Model, find_model, Order, order, unfinished,
  topological_order,
}
use fineract_analytics_platf.Dbt.Engine.{
  Script, Engine, after, scalar, run_statements, InitFile, create_raw_layer,
}
use fineract_analytics_platf.Dbt.Build.{Jinja, Check, layer_database, validate}

-- layer in LAYER_DATABASE
abbrev layer_named : String → Option Layer
layer_named folder =
    if str_eq folder "staging"
    then some staging
    else if str_eq folder "intermediate"
    then some intermediate
    else if str_eq folder "marts"
    then some marts
    else if str_eq folder "ml"
    then some ml
    else none

-- models[name] = model, of a dict
abbrev set_model : Model → List Model → List Model
set_model m [] = m ∷ []
set_model m (n ∷ ns) = if str_eq n.name m.name then m ∷ ns else n ∷ set_model m ns

-- A file below the models: its stem, and the first part of its path.
pub record SqlFile : Type 0 where
  pub stem : String
  pub folder : String

abbrev with_file : SqlFile → Option Layer → List Model → List Model
with_file f none models = models
with_file f (some layer) models =
    set_model (record { name = f.stem; layer = layer; refs = [] }) models

abbrev discover_from : List SqlFile → List Model → List Model
discover_from [] models = models
discover_from (f ∷ fs) models = discover_from fs (with_file f (layer_named f.folder) models)

unfoldable pub discover_models : List SqlFile → List Model
discover_models fs = discover_from fs []

-- The first pass, which renders each model to find its references.
unfoldable pub find_refs : Jinja → List Model → Outcome (List Model)
find_refs jinja [] = ok []
find_refs jinja (m ∷ ms) =
    jinja m >>= λ p. find_refs jinja ms >>= λ rest. ok (record m { refs = p.1 } ∷ rest)

abbrev with_model : Option Model → List Model → List Model
with_model none ms = ms
with_model (some m) ms = m ∷ ms

-- models[name] for each name of the order
abbrev models_of : List Model → List String → List Model
models_of models [] = []
models_of models (n ∷ ns) = with_model (find_model n models) (models_of models ns)

-- The order always ends; the exception stands for a walk that does not.
abbrev ordered_models : List Model → Order → Outcome (List Model)
ordered_models models (order names) = ok (models_of models names)
ordered_models models (Order.value_error name) = raised value_error
ordered_models models unfinished = raised runtime_error

abbrev same_layer : Layer → Layer → Bool
same_layer staging staging = true
same_layer intermediate intermediate = true
same_layer marts marts = true
same_layer ml ml = true
same_layer _ _ = false

-- [m for m in ordered if m.layer == args.layer], if there is such an argument
abbrev of_layer : Option Layer → List Model → List Model
of_layer none ms = ms
of_layer (some layer) ms = select (λ (m : Model). same_layer m.layer layer) ms

-- What the script reads. `seed_raw` has the statements of `seed_raw_layer`, and `seeds` those that
-- `load_seeds` makes of the CSV files. The models stand in the order of their names.
pub record Project : Type 0 where
  pub init_files : List InitFile
  pub seed_raw : List Text
  pub seeds : List Text
  pub models : List Model
  pub checks : Outcome (List Check)
  pub singular : List Model

pub record Options : Type 0 where
  pub layer : Option Layer
  pub skip_tests : Bool

abbrev create_databases : List Text
create_databases =
    (chars "CREATE DATABASE IF NOT EXISTS " ++ layer_database staging)
    ∷ (chars "CREATE DATABASE IF NOT EXISTS " ++ layer_database intermediate)
    ∷ (chars "CREATE DATABASE IF NOT EXISTS " ++ layer_database marts)
    ∷ (chars "CREATE DATABASE IF NOT EXISTS " ++ layer_database ml)
    ∷ []

module _ {S : Type 0} (e : Engine S) (jinja : Jinja) (stub : Text → Text) where
  abbrev build_ordered : Options → Project → List Model → Script S ℕ
  build_ordered o project ms s = after (run_statements e create_databases s) (λ _ s.
      after (run_statements e project.seeds s)
        (λ _. validate e jinja o.skip_tests (of_layer o.layer ms) project.checks project.singular))

  -- The references are known, or a template has failed.
  abbrev with_refs : Options → Project → Outcome (List Model) → Script S ℕ
  with_refs o project (raised x) s = (ok 1, s)
  with_refs o project (ok models) s =
      after (ordered_models models (topological_order models), s) (build_ordered o project)

  unfoldable pub main : Options → Project → Script S ℕ
  main o project s = after (scalar e (chars "SELECT version()") s) (λ _ s.
      after (create_raw_layer e stub project.init_files s) (λ _ s.
        after (run_statements e project.seed_raw s)
          (λ _. with_refs o project (find_refs jinja project.models))))
