-- ===== src/Pipeline/Checks.antt =====
-- The part of `run_entity` of ingestion/fineract_ingest/pipeline.py between the fetch and the first
-- write: mapping, validation, the expectations, the reject ratio and the blocking failures.
use fineract_analytics_platf.Prelude.{
  ℕ, zero, suc, ◌*◌, String, Bool, false, List, [], ◌∷◌, ltb, if◌then◌else◌, length, map, select,
}
use fineract_analytics_platf.Values.{Value}
use fineract_analytics_platf.Outcome.{Outcome, ok, raised, reject_ratio, blocking}
use fineract_analytics_platf.Entities.Spec.{EntitySpec}
use fineract_analytics_platf.Validation.Expectations.{
  ExpectationResult, evaluate_expectations, is_blocking_failure,
}
use fineract_analytics_platf.Pipeline.World.{Setting}
use fineract_analytics_platf.Pipeline.Batch.{Batch, map_and_validate}

-- A batch that has been mapped and checked.
pub record Checked : Type 0 where
  pub batch : Batch
  pub expectations : List ExpectationResult

-- `len(rejects) / len(raw_records) > max_reject_ratio`, in thousandths; no records are no rejects.
abbrev pub too_many : ℕ → ℕ → ℕ → Bool
too_many limit rejects zero = false
too_many limit rejects (suc n) = ltb (limit * suc n) (rejects * 1000)

abbrev names_of : List ExpectationResult → List String
names_of = map (λ (r : ExpectationResult). r.name)

-- The blocking failures stop the load.
abbrev gate : List ExpectationResult → Checked → Outcome Checked
gate [] c = ok c
gate (r ∷ rs) c = raised (blocking (names_of (r ∷ rs)))

-- Map, validate and check the records that were read.
unfoldable pub check_batch : Setting → EntitySpec → List Value → Outcome Checked
check_batch s spec raws =
    let batch = map_and_validate s.library s.digest spec raws in
    let expectations = evaluate_expectations spec batch.rows in
    if too_many s.max_reject_ratio (length batch.rejects) (length raws)
    then raised (reject_ratio (length batch.rejects) (length raws))
    else gate (select is_blocking_failure expectations)
        (record { batch = batch; expectations = expectations })
