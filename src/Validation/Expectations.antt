-- ===== src/Validation/Expectations.antt =====
-- The checks of a batch in ingestion/fineract_ingest/validation.py. The `details` text is left to the
-- counts per column that it prints.
use fineract_analytics_platf.Prelude.{
  ℕ, suc, ◌+◌, ◌-◌, String, Bool, true, false, not, ◌&&◌, ◌||◌, Option, none, some, List, [], ◌∷◌,
  ◌==◌, if◌then◌else◌, length, any, map, count_if, select,
}
use fineract_analytics_platf.Prelude.Int.{pos}
use fineract_analytics_platf.Values.{
  Number, fin, number_lt, number_eq, Cell, cell_eq, Row, get_cell, is_null,
}
use fineract_analytics_platf.Entities.Spec.{
  Kind, not_null, unique, non_negative, range, row_count_min, other, Severity, error, warn,
  Expectation, EntitySpec,
}

pub record ExpectationResult : Type 0 where
  pub name : String
  pub kind : Kind
  pub severity : Severity
  pub passed : Bool
  pub observed_value : Option Number
  pub threshold_value : Option Number
  pub details : List (String × ℕ)

abbrev pub is_error : Severity → Bool
is_error error = true
is_error warn = false

-- ExpectationResult.is_blocking_failure
abbrev pub is_blocking_failure : ExpectationResult → Bool
is_blocking_failure r = not r.passed && is_error r.severity

-- _numeric, where the conversion of a `Decimal` to a float is exact
abbrev pub numeric : Cell → Option Number
numeric (Cell.bool true) = some (fin (pos 1) 0)
numeric (Cell.bool false) = some (fin (pos 0) 0)
numeric (Cell.int z) = some (fin z 0)
numeric (Cell.decimal n) = some n
numeric _ = none

-- The failures of the columns, and the columns that have any.
unfoldable pub tally : (String → ℕ) → List String → ℕ × List (String × ℕ)
tally failing [] = (0, [])
tally failing (c ∷ cs) =
    let (n, details) = tally failing cs in
    if failing c == 0 then (n, details) else (failing c + n, (c, failing c) ∷ details)

-- The values of a column that are not null.
abbrev pub present : List Row → String → List Cell
present rows c = select (λ v. not (is_null v)) (map (λ (r : Row). get_cell r c) rows)

-- len(set(values))
abbrev pub distinct : List Cell → ℕ
distinct [] = 0
distinct (v ∷ vs) = let rest = distinct vs in if any (cell_eq v) vs then rest else suc rest

unfoldable pub check_not_null : List Row → List String → ℕ × List (String × ℕ)
check_not_null rows = tally (λ c. count_if (λ (r : Row). is_null (get_cell r c)) rows)

unfoldable pub check_unique : List Row → List String → ℕ × List (String × ℕ)
check_unique rows = tally (λ c. length (present rows c) - distinct (present rows c))

abbrev pub below : Option Number → Number → Bool
below none n = false
below (some low) n = number_lt n low

abbrev pub above : Option Number → Number → Bool
above none n = false
above (some high) n = number_lt high n

abbrev pub outside : Option Number → Option Number → Option Number → Bool
outside low high none = false
outside low high (some n) = below low n || above high n

unfoldable pub check_non_negative : List Row → List String → ℕ × List (String × ℕ)
check_non_negative rows =
    tally
      λ c. count_if (λ (r : Row). outside (some (fin (pos 0) 0)) none (numeric (get_cell r c))) rows

unfoldable pub check_range :
    List Row → List String → Option Number → Option Number → ℕ × List (String × ℕ)
check_range rows cs low high =
    tally (λ c. count_if (λ (r : Row). outside low high (numeric (get_cell r c))) rows) cs

-- `expectation.min_value or 1`
abbrev pub or_one : Option Number → Number
or_one none = fin (pos 1) 0
or_one (some n) = if number_eq n (fin (pos 0) 0) then fin (pos 1) 0 else n

abbrev pub counted : Expectation → ℕ × List (String × ℕ) → ExpectationResult
counted e (failures, details) = record {
  name = e.name;
  kind = e.kind;
  severity = e.severity;
  passed = failures == 0;
  observed_value = some (fin (pos failures) 0);
  threshold_value = some (fin (pos 0) 0);
  details = details;
}

abbrev pub row_count : Expectation → ℕ → ExpectationResult
row_count e n =
    let observed = fin (pos n) 0 in
    let threshold = or_one e.min_value in
    record {
      name = e.name;
      kind = e.kind;
      severity = e.severity;
      passed = number_lt threshold observed || number_eq threshold observed;
      observed_value = some observed;
      threshold_value = some threshold;
      details = [];
    }

abbrev skipped : Expectation → ExpectationResult
skipped e = record {
  name = e.name;
  kind = e.kind;
  severity = warn;
  passed = true;
  observed_value = none;
  threshold_value = none;
  details = [];
}

abbrev pub by_kind : Kind → Expectation → List Row → ExpectationResult
by_kind row_count_min e rows = row_count e (length rows)
by_kind not_null e rows = counted e (check_not_null rows e.columns)
by_kind unique e rows = counted e (check_unique rows e.columns)
by_kind non_negative e rows = counted e (check_non_negative rows e.columns)
by_kind range e rows = counted e (check_range rows e.columns e.min_value e.max_value)
by_kind (other k) e rows = skipped e

-- _evaluate_one
unfoldable pub evaluate_one : Expectation → List Row → ExpectationResult
evaluate_one e rows = by_kind e.kind e rows

unfoldable pub evaluate_expectations : EntitySpec → List Row → List ExpectationResult
evaluate_expectations spec rows = map (λ e. evaluate_one e rows) spec.expectations

pub record Summary : Type 0 where
  pub total : ℕ
  pub passed : ℕ
  pub warnings : ℕ
  pub errors : ℕ
  pub failed_checks : List String

unfoldable pub summarise : List ExpectationResult → Summary
summarise rs = record {
  total = length rs;
  passed = count_if (λ (r : ExpectationResult). r.passed) rs;
  warnings = count_if (λ (r : ExpectationResult). not r.passed && not (is_error r.severity)) rs;
  errors = count_if is_blocking_failure rs;
  failed_checks =
      map (λ (r : ExpectationResult). r.name) (select (λ (r : ExpectationResult). not r.passed) rs);
}
