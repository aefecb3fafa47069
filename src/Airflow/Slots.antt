-- ===== src/Airflow/Slots.antt =====
-- When `check_replication_slots` of orchestration/dags/platform_maintenance.py passes.
use fineract_analytics_platf.Prelude.{
  ℕ, zero, suc, ◌+◌, ◌≡◌, ◌≢◌, refl, ap, ◌∙◌, ◌↔◌, true, false, List, [], ◌∷◌, ◌++◌, All, arith,
}
use fineract_analytics_platf.Values.{Value}
use fineract_analytics_platf.Outcome.{Exception, Outcome, ok, raised}
use fineract_analytics_platf.Airflow.CaughtUp.{bind-ok, ok-bind}
use fineract_analytics_platf.Airflow.Maintenance.{
  SlotReport, slot_of, is_lagging, problems_of, examine, unless_problems, check_replication_slots,
}

-- A row that can be read, of an active slot that does not lag.
abbrev pub IsHealthy : List Value → Type 0
IsHealthy row = (r : SlotReport) × (slot_of row ≡ ok r) × (r.active ≡ true) × (is_lagging r ≡ false)

raised-not_ok :
    {x : Exception} {report : List SlotReport}
    → Path (Outcome (List SlotReport)) (raised x) (ok report)
    → ⊥
raised-not_ok e = cc

no_problems : (r : SlotReport) → problems_of r ≡ 0 → (r.active ≡ true) × (is_lagging r ≡ false)
no_problems r h = (ground arith, ground arith)

no_problems-IsHealthy :
    (r : SlotReport) → r.active ≡ true → is_lagging r ≡ false → 0 + problems_of r ≡ 0
no_problems-IsHealthy r h k = ground arith

abbrev count_of : Outcome (List SlotReport × ℕ) → ℕ
count_of (ok (report, n)) = n
count_of (raised e) = 0

none_of :
    (report : List SlotReport) (m : ℕ) {passed : List SlotReport}
    → unless_problems (report, m) ≡ ok passed
    → m ≡ 0
none_of report zero e = refl
none_of report (suc m) e = absurd (raised-not_ok e)

examine-IsHealthy :
    (rows : List (List Value)) (before : List SlotReport) (n m : ℕ) (after : List SlotReport)
    → examine rows before n ≡ ok (after, m)
    → m ≡ 0
    → (n ≡ 0) × All IsHealthy rows
unfolding examine
examine-IsHealthy [] before n m after e z = (ap (λ o. count_of o) e ∙ z, tt)
examine-IsHealthy (row ∷ rows) before n m after e z =
    let (r, is, rest) = bind-ok (slot_of row) _ (after, m) e in
    let (none_left, healthy) =
      examine-IsHealthy rows (before ++ r ∷ []) (n + problems_of r) m after rest z in
    let (active, small) = no_problems r (omega arith) in
    (omega arith, ((r, is, active, small), healthy))

IsHealthy-examine :
    (rows : List (List Value)) (before : List SlotReport)
    → All IsHealthy rows
    → (after : List SlotReport) × (examine rows before 0 ≡ ok (after, 0))
unfolding examine
IsHealthy-examine [] before h = (before, refl)
IsHealthy-examine (row ∷ rows) before ((r, is, active, small), h) =
    let rest = IsHealthy-examine rows (before ++ r ∷ []) h in
    (
      rest.0,
      ok-bind (slot_of row) _ r (rest.0, 0) is
          (ap (λ (n : ℕ). examine rows (before ++ r ∷ []) n) (no_problems-IsHealthy r active small)
            ∙ rest.1),
    )

rows_iff :
    (rows : List (List Value))
    → ((report : List SlotReport) × (check_replication_slots (ok rows) ≡ ok report))
      ↔ ((rows ≢ []) × All IsHealthy rows)
unfolding check_replication_slots
rows_iff [] = (λ p. absurd (raised-not_ok p.1), λ h. absurd (h.0 refl))
rows_iff (row ∷ rows) = (
  λ p.
      let ((after, m), is, rest) = bind-ok (examine (row ∷ rows) [] 0) unless_problems p.0 p.1 in
      (λ e. absurd cc, (examine-IsHealthy (row ∷ rows) [] 0 m after is (none_of after m rest)).1),
  λ h.
      let k = IsHealthy-examine (row ∷ rows) [] h.1 in
      (k.0, ok-bind (examine (row ∷ rows) [] 0) unless_problems (k.0, 0) k.0 k.1 refl),
)

-- The check of the replication slots passes if and only if the query returns, there is at least one
-- slot, and every slot can be read, is active and holds back no more than 512 MiB.
pub check_replication_slots_iff :
    (r : Outcome (List (List Value)))
    → ((report : List SlotReport) × (check_replication_slots r ≡ ok report))
      ↔ ((rows : List (List Value)) × (r ≡ ok rows) × ((rows ≢ []) × All IsHealthy rows))
unfolding check_replication_slots
check_replication_slots_iff r = (
  passed r,
  λ (rows, e, h). let k = (rows_iff rows).1 h in (k.0, ap (λ q. check_replication_slots q) e ∙ k.1),
)
  where
    passed :
        (r : Outcome (List (List Value)))
        → ((report : List SlotReport) × (check_replication_slots r ≡ ok report))
        → (rows : List (List Value)) × (r ≡ ok rows) × ((rows ≢ []) × All IsHealthy rows)
    passed (ok rows) p = (rows, refl, (rows_iff rows).0 p)
    passed (raised e) p = absurd (raised-not_ok p.1)
