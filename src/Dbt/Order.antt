-- ===== src/Dbt/Order.antt =====
-- `topological_order` of scripts/validate_dbt_sql.py. The models stand in the order of `sorted(models)`
-- and the references of each in the order of `sorted(refs)`. What is put at the end of `ordered` there
-- stands at the front here, and the list is turned round at the end.
use fineract_analytics_platf.Prelude.{
  ℕ, zero, suc, String, Bool, not, Option, none, some, List, [], ◌∷◌, ◌++◌, length, map, any,
  select, str_eq, if◌then◌else◌,
}

-- LAYER_DATABASE
pub data Layer : Type 0 where
  staging intermediate marts ml : Layer

pub record Model : Type 0 where
  pub name : String
  pub layer : Layer
  pub refs : List String

-- name in names
abbrev pub has : String → List String → Bool
has name = any (λ n. str_eq n name)

-- models.get(name)
abbrev pub find_model : String → List Model → Option Model
find_model name [] = none
find_model name (m ∷ ms) =
    let rest = find_model name ms in if str_eq m.name name then some m else rest

pub record Walk : Type 0 where
  pub ordered : List String
  pub seen : List String
  pub visiting : List String

-- How a visit ends; `circular` is its `ValueError`.
pub data Visit : Type 0 where
  done : Walk → Visit
  circular : String → Visit
  out_of_fuel : Visit

abbrev pub and_then : Visit → (Walk → Visit) → Visit
and_then (done w) f = f w
and_then (circular n) f = circular n
and_then out_of_fuel f = out_of_fuel

-- for dependency in ...: visit(dependency)
abbrev pub each : (String → Walk → Visit) → List String → Walk → Visit
each visit [] w = done w
each visit (n ∷ ns) w = and_then (visit n w) (each visit ns)

-- visiting.discard(name)
abbrev pub discard : String → List String → List String
discard name = select (λ n. not (str_eq n name))

-- The end of a visit.
abbrev pub leave : String → Walk → Visit
leave name w = done (record {
  ordered = name ∷ w.ordered;
  seen = name ∷ w.seen;
  visiting = discard name w.visiting;
})

-- The rest of a visit, of a name that is a model or not.
abbrev pub enter : (String → Walk → Visit) → String → Option Model → Walk → Visit
enter visit name none w = done w
enter visit name (some m) w =
    if has name w.visiting
    then circular name
    else and_then (each visit m.refs (record w { visiting = name ∷ w.visiting })) (leave name)

unfoldable pub visit : ℕ → List Model → String → Walk → Visit
visit zero models name w = out_of_fuel
visit (suc fuel) models name w =
    if has name w.seen then done w else enter (visit fuel models) name (find_model name models) w

abbrev pub start : Walk
start = record { ordered = []; seen = []; visiting = [] }

abbrev pub names_of : List Model → List String
names_of = map (λ (m : Model). m.name)

unfoldable pub walk_models : List Model → Visit
walk_models models = each (visit (suc (length models)) models) (names_of models) start

abbrev pub reversed : List String → List String
reversed [] = []
reversed (n ∷ ns) = reversed ns ++ n ∷ []

pub data Order : Type 0 where
  order : List String → Order
  value_error : String → Order
  unfinished : Order

abbrev pub order_of : Visit → Order
order_of (done w) = order (reversed w.ordered)
order_of (circular n) = value_error n
order_of out_of_fuel = unfinished

unfoldable pub topological_order : List Model → Order
topological_order models = order_of (walk_models models)
