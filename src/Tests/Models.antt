-- ===== src/Tests/Models.antt =====
-- Tests of the order of the dbt models.
use fineract_analytics_platf.Prelude.{
  ℕ, ◌≡◌, refl, String, List, [], ◌∷◌, str_eq, if◌then◌else◌, arith,
}
use fineract_analytics_platf.Dbt.Order.{
  staging, intermediate, marts, Model, Walk, done, order, value_error, visit, walk_models,
  topological_order,
}
use fineract_analytics_platf.Dbt.Dependencies.{IsOrder, walk_models-IsOrder}
use fineract_analytics_platf.Dbt.Acyclic.{walk_models-acyclic}

abbrev models : List Model
models =
    record { name = "fct_loan"; layer = marts; refs = "int_loan" ∷ "raw" ∷ "stg_loan" ∷ [] }
    ∷ record { name = "int_loan"; layer = intermediate; refs = "stg_loan" ∷ [] }
    ∷ record { name = "stg_loan"; layer = staging; refs = [] }
    ∷ []

abbrev rank : String → ℕ
rank n = if str_eq n "fct_loan" then 2 else if str_eq n "int_loan" then 1 else 0

walk_models-IsOrder_example : IsOrder models (walk_models models)
walk_models-IsOrder_example = walk_models-IsOrder models

walk_models-acyclic_example : (w : Walk) × (walk_models models ≡ done w)
walk_models-acyclic_example =
    walk_models-acyclic rank models
      ((omega arith, (omega arith, (omega arith, tt))), ((omega arith, tt), (tt, tt)))

ordered_models : topological_order models ≡ order ("stg_loan" ∷ "int_loan" ∷ "fct_loan" ∷ [])
unfolding topological_order walk_models visit
ordered_models = refl

circular_models :
    topological_order (
      record { name = "a"; layer = marts; refs = "b" ∷ [] }
      ∷ record { name = "b"; layer = marts; refs = "a" ∷ [] }
      ∷ [])
    ≡ value_error "a"
unfolding topological_order walk_models visit
circular_models = refl
