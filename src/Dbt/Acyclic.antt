-- ===== src/Dbt/Acyclic.antt =====
-- `topological_order` of scripts/validate_dbt_sql.py on models without circular references.
use mathlib.Core.Path.{subst}
use fineract_analytics_platf.Prelude.{
  ℕ, zero, suc, ◌<◌, ◌≡◌, refl, sym, ap, ◌∙◌, inl, inr, String, false, none, some, List, [], ◌∷◌,
  length, All, All-map, str_eq, str_eq_true, Bool-cases, Option-cases, arith,
}
use fineract_analytics_platf.Dbt.Order.{
  Model, has, find_model, Walk, Visit, done, circular, out_of_fuel, and_then, each, discard, leave,
  visit, start, names_of, walk_models,
}
use fineract_analytics_platf.Dbt.Fuel.{unvisited, unvisited_less, unvisited-length, discard-cons}

-- A visit that ends without an exception, with the visits under way that it began with.
abbrev Succeeds : List String → Visit → Type 0
Succeeds v (done w) = w.visiting ≡ v
Succeeds v (circular n) = ⊥
Succeeds v out_of_fuel = ⊥

each-Succeeds :
    (f : String → Walk → Visit) (v : List String) (ns : List String) (w : Walk)
    → All (λ n. (u : Walk) → u.visiting ≡ v → Succeeds v (f n u)) ns
    → w.visiting ≡ v
    → Succeeds v (each f ns w)
each-Succeeds f v [] w hs e = e
each-Succeeds f v (n ∷ ns) w hs e =
    then-Succeeds v (f n w) (each f ns) (hs.0 w e) (λ u g. each-Succeeds f v ns u hs.1 g)
  where
    then-Succeeds :
        (v : List String) (r : Visit) (next : Walk → Visit)
        → Succeeds v r
        → ((u : Walk) → u.visiting ≡ v → Succeeds v (next u))
        → Succeeds v (and_then r next)
    then-Succeeds v (done u) next g h = h u g
    then-Succeeds v (circular k) next g h = g
    then-Succeeds v out_of_fuel next g h = g

left :
    (name : String) (v : List String) (r : Visit)
    → has name v ≡ false
    → Succeeds (name ∷ v) r
    → Succeeds v (and_then r (leave name))
left name v (done w) h e = ap (discard name) e ∙ discard-cons name v h
left name v (circular n) h e = e
left name v out_of_fuel h e = e

module _ (rank : String → ℕ) where
  -- What a model refers to has a lower rank.
  abbrev pub RefsLower : Model → Type 0
  RefsLower m = All (λ d. rank d < rank m.name) m.refs

  lower_refs :
      (ms : List Model) (name : String) (m : Model)
      → All RefsLower ms
      → find_model name ms ≡ some m
      → All (λ d. rank d < rank name) m.refs
  lower_refs [] name m hs e = absurd (ground arith)
  lower_refs (k ∷ ms) name m hs e = elim (Bool-cases (str_eq k.name name)) [
    | inl i ↦
        subst (λ x. All (λ d. rank d < rank name) x.refs) (some_equal k m (rw i at e))
          (subst (λ n. All (λ d. rank d < rank n) k.refs) (str_eq_true k.name name i) hs.0)
    | inr i ↦ lower_refs ms name m hs.1 (rw i at e)
  ]
    where
      some_equal : (a b : Model) → some a ≡ some b → a ≡ b
      some_equal a b e = ap (λ o. elim o [ none ↦ a | some x ↦ x ]) e

  not_visiting :
      (name : String) (v : List String) → All (λ x. rank name < rank x) v → has name v ≡ false
  not_visiting name [] hs = refl
  not_visiting name (x ∷ v) hs = elim (Bool-cases (str_eq x name)) [
    | inl e ↦
        let k : rank x ≡ rank name = ap rank (str_eq_true x name e) in absurd (omega (arith, hs.0))
    | inr e ↦ rw e (not_visiting name v hs.1)
  ]

  lower_all :
      (d name : String) (v : List String)
      → rank d < rank name
      → All (λ x. rank name < rank x) v
      → All (λ x. rank d < rank x) v
  lower_all d name [] h hs = tt
  lower_all d name (x ∷ v) h hs = (omega (arith, hs.0), lower_all d name v h hs.1)

  module _ (models : List Model) (acyclic : All RefsLower models) where
    visit-Succeeds :
        (fuel : ℕ) (name : String) (w : Walk)
        → unvisited models w.visiting < fuel
        → All (λ x. rank name < rank x) w.visiting
        → Succeeds w.visiting (visit fuel models name w)
    unfolding visit
    visit-Succeeds zero name w h ls = absurd (omega arith)
    visit-Succeeds (suc fuel) name w h ls = elim (Bool-cases (has name w.seen)) [
      | inl s ↦ rw s refl
      | inr s ↦ elim (Option-cases (find_model name models)) [
        | inl o ↦ rw s (rw o refl)
        | inr p ↦
            let i = not_visiting name w.visiting ls in
            let v = name ∷ w.visiting in
            let less = unvisited_less models name w.visiting p.0 p.1 i in
            let Visited : String → Type 0 =
              λ d. (u : Walk) → u.visiting ≡ v → Succeeds v (visit fuel models d u) in
            let deps =
              All-map (λ d. rank d < rank name) Visited
                (λ d l u e.
                  subst (λ x. Succeeds x (visit fuel models d u)) e
                    (visit-Succeeds fuel d u
                      (subst (λ x. unvisited models x < fuel) (sym e) (omega (arith, less)))
                      (subst (All (λ x. rank d < rank x)) (sym e)
                        (l, lower_all d name w.visiting l ls))))
                p.0.refs (lower_refs models name p.0 acyclic p.1) in
            rw s (
              rw p.1 (
                rw i (
                  left name w.visiting _ i (
                    each-Succeeds (visit fuel models) v p.0.refs (record w { visiting = v }) deps
                      refl))))
      ]
    ]

    each_name :
        (ns : List String)
        → All
            (λ n.
              (u : Walk) → u.visiting ≡ [] → Succeeds [] (visit (suc (length models)) models n u))
            ns
    each_name [] = tt
    each_name (n ∷ ns) = (
      (λ u e.
          subst (λ x. Succeeds x (visit (suc (length models)) models n u)) e
            (visit-Succeeds (suc (length models)) n u
              (omega (arith, unvisited-length models u.visiting))
              (subst (All (λ x. rank n < rank x)) (sym e) tt))),
      each_name ns,
    )

    succeeded : (r : Visit) → Succeeds [] r → (w : Walk) × (r ≡ done w)
    succeeded (done w) h = (w, refl)
    succeeded (circular n) h = absurd h
    succeeded out_of_fuel h = absurd h

    -- Where what each model refers to has a lower rank, for some rank of the names, the walk ends
    -- without the exception of a circular reference.
    pub walk_models-acyclic : (w : Walk) × (walk_models models ≡ done w)
    unfolding walk_models
    walk_models-acyclic = succeeded (walk_models models) (
        each-Succeeds (visit (suc (length models)) models) [] (names_of models) start
          (each_name (names_of models)) refl)
