-- ===== src/Tests/Maintained.antt =====
-- Tests of the maintenance and of the backfill.
use fineract_analytics_platf.Prelude.{
  ℕ, ◌≡◌, refl, Bool, true, false, List, [], ◌∷◌, ◌==◌, if◌then◌else◌,
}
use fineract_analytics_platf.Prelude.Int.{pos}
use fineract_analytics_platf.Values.{Value, null, bool, int, chars}
use fineract_analytics_platf.Outcome.{Outcome, ok, raised, runtime_error}
use fineract_analytics_platf.Parsers.Scalars.{int_of}
use fineract_analytics_platf.Airflow.Hooks.{pg_scalar}
use fineract_analytics_platf.Airflow.Sensors.{count_or_zero}
use fineract_analytics_platf.Airflow.Maintenance.{
  SlotReport, slot_of, examine, check_replication_slots,
}
use fineract_analytics_platf.Airflow.Slots.{check_replication_slots_iff}
use fineract_analytics_platf.Airflow.Backfill.{
  Counts, Verified, counts_of, shrunk, deltas, verify_after,
}
use fineract_analytics_platf.Airflow.Shrunk.{verify_after_iff}

-- A row of the slots' query: a slot that is active or not, and its lag.
abbrev slot : Bool → ℕ → List Value
slot active lag =
    Value.text (chars "debezium")
    ∷ bool active
    ∷ Value.text (chars "pgoutput")
    ∷ int (pos lag)
    ∷ null
    ∷ []

limit_is_no_lag :
    check_replication_slots (ok (slot true 536870912 ∷ []))
    ≡ ok (
        record { slot = Value.text (chars "debezium"); active = true; lag_bytes = pos 536870912 }
        ∷ [])
unfolding check_replication_slots examine slot_of int_of
limit_is_no_lag = refl

idle_slot : check_replication_slots (ok (slot true 5 ∷ slot false 5 ∷ [])) ≡ raised runtime_error
unfolding check_replication_slots examine slot_of int_of
idle_slot = refl

check_replication_slots_iff_example :
    (report : List SlotReport) × (check_replication_slots (ok (slot true 5 ∷ [])) ≡ ok report)
unfolding slot_of int_of
check_replication_slots_iff_example =
    (check_replication_slots_iff (ok (slot true 5 ∷ []))).1
      (slot true 5 ∷ [], refl, (λ e. absurd cc, ((_, refl, refl, refl), tt)))

-- Two tables, of 3 and 4 rows before, and 3 and 9 after.
abbrev before : Counts
before = ("clients", pos 3) ∷ ("loans", pos 4) ∷ []

abbrev later : ℕ → Outcome (List (List Value))
later n = ok ((int (pos (if n == 0 then 3 else 9)) ∷ []) ∷ [])

verify_after_iff_example : (v : Verified) × (verify_after later before ≡ ok v)
unfolding count_or_zero pg_scalar int_of
verify_after_iff_example =
    (verify_after_iff later before).1 ((pos 3, refl, refl), ((pos 9, refl, refl), tt))

fewer_loans :
    verify_after later (("clients", pos 3) ∷ ("loans", pos 10) ∷ []) ≡ raised runtime_error
unfolding verify_after counts_of shrunk deltas count_or_zero pg_scalar int_of
fewer_loans = refl
