-- ===== src/Dbt/Verdict.antt =====
-- When `main` of scripts/validate_dbt_sql.py ends with the exit code 0, from the first model on.
use fineract_analytics_platf.Prelude.{
  ℕ, ◌+◌, ◌≡◌, ap, ◌∙◌, ◌↔◌, inl, inr, true, false, List, Bool-cases, arith,
}
use fineract_analytics_platf.Outcome.{Outcome, ok}
use fineract_analytics_platf.Dbt.Order.{Model}
use fineract_analytics_platf.Dbt.Engine.{Engine, after}
use fineract_analytics_platf.Dbt.Build.{
  Jinja, build_models, Check, run_checks, run_singular_tests, code_of, run_tests, validate,
}
use fineract_analytics_platf.Dbt.Passing.{
  IsValid, after-ok, ok-after, ok-inj, no_code, build_models-AreBuilt, AreBuilt-build_models,
  run_checks-ArePassed, ArePassed-run_checks, run_singular-AreEmpty, AreEmpty-run_singular,
}

module _ {S : Type 0} (e : Engine S) (jinja : Jinja) where
  -- Without `--skip-tests`, and from the first model on, the script ends with the exit code 0 if and only
  -- if every model is rendered and built without a column of a qualified name, the tests of the schema
  -- can be read, each of them is answered as expected, and every singular test finds no row. A query
  -- that fails counts as a test that fails. Each is asked in the state that those before have left.
  pub validate_iff :
      (ordered : List Model) (checks : Outcome (List Check)) (singular : List Model) (s : S)
      → ((validate e jinja false ordered checks singular s).0 ≡ ok 0)
        ↔ IsValid e jinja ordered checks singular s
  unfolding validate
  validate_iff ordered checks singular s = (
    λ h.
        let (built, is, rest) = after-ok (build_models e jinja ordered s) _ 0 h in
        elim (Bool-cases built) [
          | inl y ↦ tested (is ∙ ap ok y) (rw y at rest)
          | inr n ↦ absurd (one-zero (rw n at rest))
        ],
    λ v.
        let built = AreBuilt-build_models e jinja ordered s v.built in
        let s1 = (build_models e jinja ordered s).1 in
        let p = run_checks e v.tests s1 in
        let no_checks = ArePassed-run_checks e jinja v.tests s1 v.passed in
        let no_rows = AreEmpty-run_singular e jinja singular p.1 v.empty in
        ap (λ (r : Outcome ℕ × S). r.0)
          (ok-after (build_models e jinja ordered s) _ true built
            ∙ ok-after (checks, s1) (run_tests e jinja singular) v.tests v.read
            ∙ ok-after (run_singular_tests e jinja singular p.1) _ 0 no_rows)
        ∙ ap (λ n. ok (code_of (n + 0))) no_checks,
  )
    where
      one-zero : Path (Outcome ℕ) (ok 1) (ok 0) → ⊥
      one-zero e = cc

      s1 : S
      s1 = (build_models e jinja ordered s).1

      tested :
          (build_models e jinja ordered s).0 ≡ ok true
          → (after (checks, s1) (run_tests e jinja singular)).0 ≡ ok 0
          → IsValid e jinja ordered checks singular s
      tested built h =
          let (cs, read, h1) = after-ok (checks, s1) (run_tests e jinja singular) 0 h in
          let p = run_checks e cs s1 in
          let (m, none_left, h2) = after-ok (run_singular_tests e jinja singular p.1) _ 0 h1 in
          let none_failed : p.0 + m ≡ 0 = no_code (p.0 + m) (ok-inj h2) in
          record {
            built = build_models-AreBuilt e jinja ordered s built;
            tests = cs;
            read = read;
            passed = run_checks-ArePassed e jinja cs s1 (omega arith);
            empty = run_singular-AreEmpty e jinja singular p.1 m none_left (omega arith);
          }
