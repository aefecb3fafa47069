-- ===== src/Dbt/Dependencies.antt =====
-- The order that `topological_order` of scripts/validate_dbt_sql.py gives.
use mathlib.Core.Path.{subst}
use fineract_analytics_platf.Prelude.{
  ℕ, zero, suc, ◌≡◌, refl, sym, ap, ◌∙◌, ◌⊎◌, inl, inr, String, true, Option, none, some, List, [],
  ◌∷◌, length, All, str_eq_refl, Bool-cases, Option-cases, arith,
}
use fineract_analytics_platf.Dbt.Order.{
  Model, has, find_model, Walk, Visit, done, circular, out_of_fuel, and_then, each, leave, visit,
  start, names_of, walk_models,
}
use fineract_analytics_platf.Dbt.Fuel.{Finishes, walk_models-Finishes}

module _ (models : List Model) where
  -- A name that is no model, or that stands in the list.
  abbrev pub Placed : List String → String → Type 0
  Placed ns name = (find_model name models ≡ none) ⊎ (has name ns ≡ true)

  -- The models that a model refers to are in the list.
  abbrev pub RefsPlaced : List String → Option Model → Type 0
  RefsPlaced ns none = Unit
  RefsPlaced ns (some m) = All (Placed ns) m.refs

  -- Newest first: what each model of the list refers to comes after it here, so before it there.
  abbrev pub InOrder : List String → Type 0
  InOrder [] = Unit
  InOrder (n ∷ ns) = RefsPlaced ns (find_model n models) × InOrder ns

  record Good (w : Walk) : Type 0 where
    pub in_order : InOrder w.ordered
    pub same : w.seen ≡ w.ordered

  -- A visit that ends has kept the order, lost nothing and placed the names.
  record VisitGood (ns : List String) (w u : Walk) : Type 0 where
    pub good : Good u
    pub grows : (n : String) → has n w.ordered ≡ true → has n u.ordered ≡ true
    pub placed : All (Placed u.ordered) ns

  abbrev EndsGood : List String → Walk → Visit → Type 0
  EndsGood ns w (done u) = VisitGood ns w u
  EndsGood ns w (circular n) = Unit
  EndsGood ns w out_of_fuel = Unit

  still-Placed :
      (w u : Walk) (n : String)
      → ((n : String) → has n w.ordered ≡ true → has n u.ordered ≡ true)
      → Placed w.ordered n
      → Placed u.ordered n
  still-Placed w u n g (inl e) = inl e
  still-Placed w u n g (inr h) = inr (g n h)

  then_each :
      (n : String) (ns : List String) (w : Walk) (r : Visit) (next : Walk → Visit)
      → EndsGood (n ∷ []) w r
      → ((u : Walk) → Good u → EndsGood ns u (next u))
      → EndsGood (n ∷ ns) w (and_then r next)
  then_each n ns w (done u) next h k = join (next u) (k u h.good)
    where
      join : (r : Visit) → EndsGood ns u r → EndsGood (n ∷ ns) w r
      join (done x) g = record {
        good = g.good;
        grows = λ m e. g.grows m (h.grows m e);
        placed = (still-Placed u x n g.grows h.placed.0, g.placed);
      }
      join (circular k) g = tt
      join out_of_fuel g = tt
  then_each n ns w (circular k) next h f = tt
  then_each n ns w out_of_fuel next h f = tt

  each-EndsGood :
      (f : String → Walk → Visit) (ns : List String) (w : Walk)
      → ((n : String) (u : Walk) → Good u → EndsGood (n ∷ []) u (f n u))
      → Good w
      → EndsGood ns w (each f ns w)
  each-EndsGood f [] w h g = record { good = g; grows = λ n e. e; placed = tt }
  each-EndsGood f (n ∷ ns) w h g =
      then_each n ns w (f n w) (each f ns) (h n w g) (λ u k. each-EndsGood f ns u h k)

  left_good :
      (name : String) (m : Model) (w : Walk) (v : List String) (r : Visit)
      → find_model name models ≡ some m
      → EndsGood m.refs (record w { visiting = v }) r
      → EndsGood (name ∷ []) w (and_then r (leave name))
  left_good name m w v (done u) e h = record {
    good = record {
      in_order = (subst (RefsPlaced u.ordered) (sym e) h.placed, h.good.in_order);
      same = ap (λ (l : List String). name ∷ l) h.good.same;
    };
    grows = λ n k. let g = h.grows n k in ground arith;
    placed = (inr (rw (str_eq_refl name)), tt);
  }
  left_good name m w v (circular k) e h = tt
  left_good name m w v out_of_fuel e h = tt

  visit-EndsGood :
      (fuel : ℕ) (name : String) (w : Walk)
      → Good w
      → EndsGood (name ∷ []) w (visit fuel models name w)
  unfolding visit
  visit-EndsGood zero name w g = tt
  visit-EndsGood (suc fuel) name w g = elim (Bool-cases (has name w.seen)) [
    | inl s ↦
        rw s (record {
          good = g;
          grows = λ n e. e;
          placed = (inr (ap (has name) (sym g.same) ∙ s), tt);
        })
    | inr s ↦ elim (Option-cases (find_model name models)) [
      | inl o ↦ rw s (rw o (record { good = g; grows = λ n e. e; placed = (inl o, tt) }))
      | inr p ↦ elim (Bool-cases (has name w.visiting)) [
        | inl i ↦ rw s (rw p.1 (rw i tt))
        | inr i ↦
            let v = name ∷ w.visiting in
            rw s (
              rw p.1 (
                rw i (
                  left_good name p.0 w v _ p.1 (
                    each-EndsGood (visit fuel models) p.0.refs (record w { visiting = v })
                      (λ n u k. visit-EndsGood fuel n u k)
                      (record { in_order = g.in_order; same = g.same })))))
      ]
    ]
  ]

  found :
      (ms : List Model)
      → ((n : String) → find_model n models ≡ none → find_model n ms ≡ none)
      → All (λ n. (find_model n models ≡ none) → ⊥) (names_of ms)
  found [] h = tt
  found (m ∷ ms) h = (
    (λ e. let k = rw (str_eq_refl m.name) at (h m.name e) in absurd (ground arith)),
    found ms (λ n e. rest n m ms (h n e)),
  )
    where
      rest :
          (n : String) (m : Model) (ms : List Model)
          → find_model n (m ∷ ms) ≡ none
          → find_model n ms ≡ none
      rest n m ms e = ground arith

  Placed-found :
      (ns names : List String)
      → All (Placed ns) names
      → All (λ n. (find_model n models ≡ none) → ⊥) names
      → All (λ n. has n ns ≡ true) names
  Placed-found ns [] hs ks = tt
  Placed-found ns (n ∷ names) hs ks = (one hs.0 ks.0, Placed-found ns names hs.1 ks.1)
    where
      one : Placed ns n → ((find_model n models ≡ none) → ⊥) → has n ns ≡ true
      one (inl e) k = absurd (k e)
      one (inr h) k = h

  -- The order of a walk that ends: every model is in it, and what a model refers to, where it is a
  -- model, is built before it. The walk does not run out of fuel.
  abbrev pub IsOrder : Visit → Type 0
  IsOrder (done w) = InOrder w.ordered × All (λ n. has n w.ordered ≡ true) (names_of models)
  IsOrder (circular n) = Unit
  IsOrder out_of_fuel = ⊥

  ends : (r : Visit) → EndsGood (names_of models) start r → Finishes [] r → IsOrder r
  ends (done w) h f =
      (h.good.in_order, Placed-found w.ordered (names_of models) h.placed (found models (λ n e. e)))
  ends (circular n) h f = tt
  ends out_of_fuel h f = f

  -- For any models, the walk ends, at a circular reference or with every model in the order, each after
  -- the models that it refers to.
  pub walk_models-IsOrder : IsOrder (walk_models models)
  unfolding walk_models
  walk_models-IsOrder =
      ends (walk_models models)
        (each-EndsGood (visit (suc (length models)) models) (names_of models) start
          (λ n u g. visit-EndsGood (suc (length models)) n u g)
          (record { in_order = tt; same = refl }))
        (walk_models-Finishes models)
