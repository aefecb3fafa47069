-- ===== src/Dbt/Passing.antt =====
-- The stages of `main` in scripts/validate_dbt_sql.py that pass: the build of the models, the tests of
-- the schema and the singular tests.
use mathlib.Core.Bool.{true≢false}
use fineract_analytics_platf.Prelude.{
  ℕ, zero, suc, ◌+◌, ◌≡◌, refl, sym, ap, ◌∙◌, inl, inr, String, Bool, true, List, [], ◌∷◌,
  Bool-cases, arith,
}
use fineract_analytics_platf.Values.{Text, text_eq, text_eq_refl, text_eq-true}
use fineract_analytics_platf.Outcome.{Outcome, ok, raised}
use fineract_analytics_platf.Dbt.Order.{Model}
use fineract_analytics_platf.Dbt.Engine.{Script, Engine, after, scalar}
use fineract_analytics_platf.Dbt.Build.{
  Jinja, build_model, go_on, build_models, Check, failure, run_checks, zero_rows, failing_rows,
  run_singular_tests, code_of,
}

module _ {S : Type 0} (e : Engine S) (jinja : Jinja) where
  -- Each model is rendered and built, one after the other.
  abbrev pub AreBuilt : List Model → S → Type 0
  AreBuilt [] s = Unit
  AreBuilt (m ∷ ms) s =
      (p : Text × List String) × (jinja m ≡ ok p)
      × ((build_model e m p.0 s).0 ≡ ok tt)
      × AreBuilt ms (build_model e m p.0 s).1

  -- Each query is answered as expected, one after the other.
  abbrev pub ArePassed : List Check → S → Type 0
  ArePassed [] s = Unit
  ArePassed (c ∷ cs) s =
      ((scalar e c.query s).0 ≡ ok c.expected) × ArePassed cs (scalar e c.query s).1

  -- Each singular test is rendered and finds no row, one after the other.
  abbrev pub AreEmpty : List Model → S → Type 0
  AreEmpty [] s = Unit
  AreEmpty (t ∷ ts) s =
      (p : Text × List String) × (jinja t ≡ ok p)
      × ((scalar e (failing_rows p.0) s).0 ≡ ok zero_rows)
      × AreEmpty ts (scalar e (failing_rows p.0) s).1

  -- The models, the tests of the schema and the singular tests, each from the state that those before
  -- have left.
  pub record IsValid (ordered : List Model) (checks : Outcome (List Check)) (singular : List Model)
      (s : S) : Type 0 where
    pub built : AreBuilt ordered s
    pub tests : List Check
    pub read : checks ≡ ok tests
    pub passed : ArePassed tests (build_models e jinja ordered s).1
    pub empty : AreEmpty singular (run_checks e tests (build_models e jinja ordered s).1).1

module _ {S A B : Type 0} where
  pub after-ok :
      (p : Outcome A × S) (f : A → Script S B) (b : B)
      → (after p f).0 ≡ ok b
      → (a : A) × (p.0 ≡ ok a) × ((f a p.1).0 ≡ ok b)
  after-ok (ok a, s) f b e = (a, refl, e)
  after-ok (raised x, s) f b e = absurd cc

  pub ok-after : (p : Outcome A × S) (f : A → Script S B) (a : A) → p.0 ≡ ok a → after p f ≡ f a p.1
  ok-after (ok b, s) f a e = ap (λ c. f c s) (ok-inj e)
    where
      ok-inj : {b a : A} → Path (Outcome A) (ok b) (ok a) → b ≡ a
      ok-inj e = cc
  ok-after (raised x, s) f a e = absurd cc

no_failure : (expected : Text) (r : Outcome Text) → failure expected r ≡ 0 → r ≡ ok expected
no_failure expected (ok t) h = elim (Bool-cases (text_eq t expected)) [
  | inl y ↦ ap (λ u. ok u) (text_eq-true t expected y)
  | inr n ↦ absurd (ground arith)
]
no_failure expected (raised x) h = ground arith

failure-ok : (expected : Text) → failure expected (ok expected) ≡ 0
failure-ok expected = rw (text_eq_refl expected) refl

pub ok-inj : {A : Type 0} {a b : A} → Path (Outcome A) (ok a) (ok b) → a ≡ b
ok-inj e = cc

pub no_code : (n : ℕ) → code_of n ≡ 0 → n ≡ 0
no_code zero h = refl
no_code (suc n) h = ground arith

module _ {S : Type 0} (e : Engine S) (jinja : Jinja) where
  go_on-true :
      (r : Outcome (Unit {0}) × S) (k : Script S Bool)
      → (go_on r k).0 ≡ ok true
      → (r.0 ≡ ok tt) × ((k r.1).0 ≡ ok true)
  go_on-true (ok _, s) k h = (refl, h)
  go_on-true (raised x, s) k h = absurd (true≢false (sym (ok-inj h)))

  go_on-ok : (r : Outcome (Unit {0}) × S) (k : Script S Bool) → r.0 ≡ ok tt → go_on r k ≡ k r.1
  go_on-ok (ok _, s) k h = refl
  go_on-ok (raised x, s) k h = absurd cc

  pub build_models-AreBuilt :
      (ms : List Model) (s : S) → (build_models e jinja ms s).0 ≡ ok true → AreBuilt e jinja ms s
  unfolding build_models
  build_models-AreBuilt [] s h = tt
  build_models-AreBuilt (m ∷ ms) s h =
      let (p, is, rest) = after-ok (jinja m, s) _ true h in
      let (built, more) = go_on-true (build_model e m p.0 s) (build_models e jinja ms) rest in
      (p, is, built, build_models-AreBuilt ms (build_model e m p.0 s).1 more)

  pub AreBuilt-build_models :
      (ms : List Model) (s : S) → AreBuilt e jinja ms s → (build_models e jinja ms s).0 ≡ ok true
  unfolding build_models
  AreBuilt-build_models [] s h = refl
  AreBuilt-build_models (m ∷ ms) s (p, is, built, more) =
      ap (λ (r : Outcome Bool × S). r.0)
        (ok-after (jinja m, s) (λ p s. go_on (build_model e m p.0 s) (build_models e jinja ms)) p is
          ∙ go_on-ok (build_model e m p.0 s) (build_models e jinja ms) built)
      ∙ AreBuilt-build_models ms (build_model e m p.0 s).1 more

  pub run_checks-ArePassed :
      (cs : List Check) (s : S) → (run_checks e cs s).0 ≡ 0 → ArePassed e jinja cs s
  unfolding run_checks
  run_checks-ArePassed [] s h = tt
  run_checks-ArePassed (c ∷ cs) s h = (
    no_failure c.expected (scalar e c.query s).0 (omega arith),
    run_checks-ArePassed cs (scalar e c.query s).1 (omega arith),
  )

  pub ArePassed-run_checks :
      (cs : List Check) (s : S) → ArePassed e jinja cs s → (run_checks e cs s).0 ≡ 0
  unfolding run_checks
  ArePassed-run_checks [] s h = refl
  ArePassed-run_checks (c ∷ cs) s (passed, more) =
      let none_failed : failure c.expected (scalar e c.query s).0 ≡ 0 =
        ap (λ r. failure c.expected r) passed ∙ failure-ok c.expected in
      let rest = ArePassed-run_checks cs (scalar e c.query s).1 more in omega arith

  pub run_singular-AreEmpty :
      (ts : List Model) (s : S) (n : ℕ)
      → (run_singular_tests e jinja ts s).0 ≡ ok n
      → n ≡ 0
      → AreEmpty e jinja ts s
  unfolding run_singular_tests
  run_singular-AreEmpty [] s n h z = tt
  run_singular-AreEmpty (t ∷ ts) s n h z =
      let (p, is, h1) = after-ok (jinja t, s) _ n h in
      let (count, counted, h2) = after-ok (scalar e (failing_rows p.0) s) _ n h1 in
      let s1 = (scalar e (failing_rows p.0) s).1 in
      let (m, more, h3) = after-ok (run_singular_tests e jinja ts s1) _ n h2 in
      let sum : failure zero_rows (ok count) + m ≡ n = ok-inj h3 in
      (
        p,
        is,
        counted ∙ no_failure zero_rows (ok count) (omega arith),
        run_singular-AreEmpty ts s1 m more (omega arith),
      )

  pub AreEmpty-run_singular :
      (ts : List Model) (s : S) → AreEmpty e jinja ts s → (run_singular_tests e jinja ts s).0 ≡ ok 0
  unfolding run_singular_tests
  AreEmpty-run_singular [] s h = refl
  AreEmpty-run_singular (t ∷ ts) s (p, is, found, more) =
      ap (λ (r : Outcome ℕ × S). r.0)
        (ok-after (jinja t, s) _ p is
          ∙ ok-after (scalar e (failing_rows p.0) s) _ zero_rows found
          ∙ ok-after (run_singular_tests e jinja ts (scalar e (failing_rows p.0) s).1) _ 0
              (AreEmpty-run_singular ts (scalar e (failing_rows p.0) s).1 more))
