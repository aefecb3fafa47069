-- ===== src/Dbt/Fuel.antt =====
-- The depth of the visits of `topological_order` in scripts/validate_dbt_sql.py, whose recursion has no
-- bound of its own.
use mathlib.Core.Path.{subst}
use fineract_analytics_platf.Prelude.{
  ℕ, zero, suc, ◌≤◌, ◌<◌, ◌≡◌, refl, sym, ap, ◌∙◌, inl, inr, String, true, false, not, some, List,
  [], ◌∷◌, length, count_if, str_eq, str_eq_refl, str_eq_true, Bool-cases, Option-cases, arith,
}
use fineract_analytics_platf.Dbt.Order.{
  Model, has, find_model, Walk, Visit, done, circular, out_of_fuel, and_then, each, discard, leave,
  visit, start, names_of, walk_models,
}

-- The models that no visit has under way.
abbrev pub unvisited : List Model → List String → ℕ
unvisited models v = count_if (λ (m : Model). not (has m.name v)) models

-- A visit that has not run out ends with the visits under way that it began with.
abbrev pub Finishes : List String → Visit → Type 0
Finishes v (done w) = w.visiting ≡ v
Finishes v (circular n) = Unit
Finishes v out_of_fuel = ⊥

unvisited_more :
    (models : List Model) (name : String) (v : List String)
    → unvisited models (name ∷ v) ≤ unvisited models v
unvisited_more [] name v = omega arith
unvisited_more (m ∷ ms) name v = ground (arith, unvisited_more ms name v)

pub unvisited_less :
    (models : List Model) (name : String) (v : List String) (m : Model)
    → find_model name models ≡ some m
    → has name v ≡ false
    → unvisited models (name ∷ v) < unvisited models v
unvisited_less [] name v m f h = absurd (ground arith)
unvisited_less (k ∷ ms) name v m f h = elim (Bool-cases (str_eq k.name name)) [
  | inl e ↦
      let a : str_eq name k.name ≡ true =
        ap (str_eq name) (str_eq_true k.name name e) ∙ str_eq_refl name in
      let b : has k.name v ≡ false = ap (λ n. has n v) (str_eq_true k.name name e) ∙ h in
      rw a (rw b (omega (arith, unvisited_more ms name v)))
  | inr e ↦ let ih = unvisited_less ms name v m (rw e at f) h in ground (arith, ih)
]

pub unvisited-length : (models : List Model) (v : List String) → unvisited models v ≤ length models
unvisited-length [] v = omega arith
unvisited-length (m ∷ ms) v = ground (arith, unvisited-length ms v)

kept : (name : String) (v : List String) → has name v ≡ false → discard name v ≡ v
kept name [] h = refl
kept name (n ∷ v) h =
    let e : str_eq n name ≡ false = ground arith in
    rw e (ap (λ (l : List String). n ∷ l) (kept name v (rw e at h)))

pub discard-cons :
    (name : String) (v : List String) → has name v ≡ false → discard name (name ∷ v) ≡ v
discard-cons name v h = rw (str_eq_refl name) (kept name v h)

then-Finishes :
    (v : List String) (r : Visit) (next : Walk → Visit)
    → Finishes v r
    → ((u : Walk) → u.visiting ≡ v → Finishes v (next u))
    → Finishes v (and_then r next)
then-Finishes v (done u) next g h = h u g
then-Finishes v (circular k) next g h = tt
then-Finishes v out_of_fuel next g h = g

each-Finishes :
    (f : String → Walk → Visit) (v : List String) (ns : List String) (w : Walk)
    → ((n : String) (u : Walk) → u.visiting ≡ v → Finishes v (f n u))
    → w.visiting ≡ v
    → Finishes v (each f ns w)
each-Finishes f v [] w h e = e
each-Finishes f v (n ∷ ns) w h e =
    then-Finishes v (f n w) (each f ns) (h n w e) (λ u g. each-Finishes f v ns u h g)

left :
    (name : String) (v : List String) (r : Visit)
    → has name v ≡ false
    → Finishes (name ∷ v) r
    → Finishes v (and_then r (leave name))
left name v (done w) h e = ap (discard name) e ∙ discard-cons name v h
left name v (circular n) h e = tt
left name v out_of_fuel h e = e

visit-Finishes :
    (fuel : ℕ) (models : List Model) (name : String) (w : Walk)
    → unvisited models w.visiting < fuel
    → Finishes w.visiting (visit fuel models name w)
unfolding visit
visit-Finishes zero models name w h = absurd (omega arith)
visit-Finishes (suc fuel) models name w h = elim (Bool-cases (has name w.seen)) [
  | inl s ↦ rw s refl
  | inr s ↦ elim (Option-cases (find_model name models)) [
    | inl o ↦ rw s (rw o refl)
    | inr p ↦ elim (Bool-cases (has name w.visiting)) [
      | inl i ↦ rw s (rw p.1 (rw i tt))
      | inr i ↦
          let less = unvisited_less models name w.visiting p.0 p.1 i in
          let v = name ∷ w.visiting in
          rw s (
            rw p.1 (
              rw i (
                left name w.visiting _ i (
                  each-Finishes (visit fuel models) v p.0.refs (record w { visiting = v })
                    (λ n u e.
                      subst (λ x. Finishes x (visit fuel models n u)) e
                        (visit-Finishes fuel models n u
                          (subst (λ x. unvisited models x < fuel) (sym e) (omega (arith, less)))))
                    refl))))
    ]
  ]
]

-- The walk over any models ends with no visit under way, or at a circular reference.
pub walk_models-Finishes : (models : List Model) → Finishes [] (walk_models models)
unfolding walk_models
walk_models-Finishes models =
    each-Finishes (visit (suc (length models)) models) [] (names_of models) start
      (λ n u e.
        subst (λ x. Finishes x (visit (suc (length models)) models n u)) e
          (visit-Finishes (suc (length models)) models n u
            (omega (arith, unvisited-length models u.visiting))))
      refl
