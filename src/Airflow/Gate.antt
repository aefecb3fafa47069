-- ===== src/Airflow/Gate.antt =====
-- `DataQualityGateOperator` of orchestration/plugins/fineract/operators.py.
use fineract_analytics_platf.Prelude.{
  ℕ, suc, String, Bool, true, false, not, ◌&&◌, ◌||◌, List, [], ◌∷◌, ◌++◌, str_eq, if◌then◌else◌,
  count_if,
}
use fineract_analytics_platf.Prelude.Int.{pos}
use fineract_analytics_platf.Values.{Number, fin, number_lt, number_eq}
use fineract_analytics_platf.Parsers.Nested.{truthy}
use fineract_analytics_platf.Parsers.Scalars.{float_of}
use fineract_analytics_platf.Outcome.{Outcome, ok, raised, key_error, airflow_fail, ◌>>=◌}
use fineract_analytics_platf.Airflow.Hooks.{Answer, scalar}

pub record Check : Type 0 where
  pub name : String
  pub query : String
  pub comparison : String
  pub threshold : Number
  pub blocking : Bool

pub data Status : Type 0 where
  pass fail error : Status

-- float(clickhouse.scalar(query) or 0)
unfoldable pub observe : Answer → Outcome Number
observe a = scalar a >>= λ v. if truthy v then float_of v else ok (fin (pos 0) 0)

-- The dict of the comparisons, at a key.
unfoldable pub compare : String → Number → Number → Outcome Bool
compare c x t =
    if str_eq c ">"
    then ok (number_lt t x)
    else if str_eq c ">="
    then ok (number_lt t x || number_eq x t)
    else if str_eq c "=="
    then ok (number_eq x t)
    else if str_eq c "<"
    then ok (number_lt x t)
    else if str_eq c "<="
    then ok (number_lt x t || number_eq x t)
    else raised (key_error c)

abbrev pub status_of : Bool → Status
status_of true = pass
status_of false = fail

-- How a check ends: `error` where the query fails, an exception where the comparison is unknown.
unfoldable pub evaluate : Answer → Check → Outcome Status
evaluate a check = elim (observe a) [
  | raised e ↦ ok error
  | ok x ↦ compare check.comparison x check.threshold >>= λ b. ok (status_of b)
]

abbrev pub is_pass : Status → Bool
is_pass pass = true
is_pass _ = false

-- `results`, and the names in `blocking_failures`
pub record Tally : Type 0 where
  pub results : List (Check × Status)
  pub blocking_failures : List String

abbrev pub note : Check → Status → Tally → Tally
note check status t = record {
  results = t.results ++ (check, status) ∷ [];
  blocking_failures =
      if not (is_pass status) && check.blocking
      then t.blocking_failures ++ check.name ∷ []
      else t.blocking_failures;
}

-- The loop of `execute`; `answers n` is the answer to the query of the n-th check.
unfoldable pub run_checks : (ℕ → Answer) → ℕ → List Check → Tally → Outcome Tally
run_checks answers n [] t = ok t
run_checks answers n (check ∷ checks) t =
    evaluate (answers n) check >>= λ status. run_checks answers (suc n) checks (note check status t)

pub record Summary : Type 0 where
  pub checks : List (Check × Status)
  pub passed : ℕ
  pub failed : ℕ

abbrev pub passes : Check × Status → Bool
passes p = is_pass p.1

-- The end of `execute`: the names of the failures, and the results.
abbrev pub conclude : List String → List (Check × Status) → Outcome Summary
conclude (name ∷ names) results = raised (airflow_fail (name ∷ names))
conclude [] results = ok (record {
  checks = results;
  passed = count_if passes results;
  failed = count_if (λ p. not (passes p)) results;
})

-- DataQualityGateOperator.execute
unfoldable pub execute_gate : (ℕ → Answer) → List Check → Outcome Summary
execute_gate answers checks =
    run_checks answers 0 checks (record { results = []; blocking_failures = [] }) >>= λ t.
    conclude t.blocking_failures t.results

abbrev check : String → String → String → ℕ → Bool → Check
check name query comparison threshold blocking = record {
  name = name;
  query = query;
  comparison = comparison;
  threshold = fin (pos threshold) 0;
  blocking = blocking;
}

-- DEFAULT_CHECKS
unfoldable pub default_checks : List Check
default_checks =
    check "marts_not_empty" "SELECT count() FROM fineract_marts.fct_loan" ">" 0 true
    ∷ check "no_duplicate_loans"
        "SELECT count() - countDistinct(loan_id) FROM fineract_marts.fct_loan" "==" 0 true
    ∷ check "no_duplicate_transactions"
        "SELECT count() - countDistinct(transaction_id) FROM fineract_marts.fct_loan_transaction"
        "==" 0 true
    ∷ check "no_negative_outstanding"
        "SELECT countIf(total_outstanding < 0) FROM fineract_marts.fct_loan" "==" 0 true
    ∷ check "cdc_parse_errors"
        "SELECT count() FROM fineract_raw.cdc_errors WHERE observed_at > now() - INTERVAL 1 DAY"
        "==" 0 false
    ∷ check "ml_label_leakage"
        "SELECT countIf(feat_days_since_prior_loan <= 0) FROM fineract_ml.ml_loan_default_features"
        "==" 0 true
    ∷ check "dimension_coverage" "SELECT countIf(client_segment = '') FROM fineract_marts.fct_loan"
        "==" 0 false
    ∷ []

-- list(checks or self.DEFAULT_CHECKS)
unfoldable pub init_checks : List Check → List Check
init_checks [] = default_checks
init_checks (c ∷ cs) = c ∷ cs
