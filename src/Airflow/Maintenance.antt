-- ===== src/Airflow/Maintenance.antt =====
-- The tasks of orchestration/dags/platform_maintenance.py, on what the services answer. What they
-- print is left out.
use fineract_analytics_platf.Prelude.{
  ℕ, suc, ◌+◌, String, Bool, true, false, Option, none, some, List, [], ◌∷◌, ◌++◌, if◌then◌else◌,
  length, select, map,
}
use fineract_analytics_platf.Prelude.Int.{ℤ, pos, ltb_ℤ}
use fineract_analytics_platf.Values.{Text, Value}
use fineract_analytics_platf.Parsers.Nested.{truthy}
use fineract_analytics_platf.Parsers.Scalars.{int_of}
use fineract_analytics_platf.Outcome.{
  Outcome, ok, raised, value_error, index_error, runtime_error, ◌>>=◌,
}
use fineract_analytics_platf.Exporter.Sources.{item}
use fineract_analytics_platf.Exporter.Samples.{traverse}
use fineract_analytics_platf.Airflow.Hooks.{Answer, execute, query_json, scalar, pg_scalar}
use fineract_analytics_platf.Airflow.Connect.{StatusReply, is_running, restart_failed_tasks}
use fineract_analytics_platf.Airflow.Dbt.{elements}

-- SLOT_LAG_FAIL_BYTES
abbrev pub slot_lag_fail_bytes : ℕ
slot_lag_fail_bytes = 536870912

pub record SlotReport : Type 0 where
  pub slot : Value
  pub active : Bool
  pub lag_bytes : ℤ

-- cdc_heartbeat: the answers to its two queries; `text_of` is `str`.
unfoldable pub cdc_heartbeat :
    (Value → Text) → Outcome (List (List Value)) → Outcome (List (List Value)) → Outcome Text
cdc_heartbeat text_of updated selected = do
  _ ← updated
  beat ← pg_scalar selected
  ok (text_of beat)

-- The unpacking of a row, and its part of the report.
unfoldable pub slot_of : List Value → Outcome SlotReport
slot_of (name ∷ active ∷ plugin ∷ lag ∷ pretty ∷ []) =
    (if truthy lag then int_of lag else ok (pos 0)) >>= λ n.
    ok (record { slot = name; active = truthy active; lag_bytes = n })
slot_of _ = raised value_error

abbrev pub is_lagging : SlotReport → Bool
is_lagging r = ltb_ℤ (pos slot_lag_fail_bytes) r.lag_bytes

-- The problems of a slot, by their number.
abbrev pub problems_of : SlotReport → ℕ
problems_of r = (if r.active then 0 else 1) + (if is_lagging r then 1 else 0)

-- The loop over the rows, with `report` and the number of `problems` so far
unfoldable pub examine : List (List Value) → List SlotReport → ℕ → Outcome (List SlotReport × ℕ)
examine [] report problems = ok (report, problems)
examine (row ∷ rows) report problems =
    slot_of row >>= λ r. examine rows (report ++ r ∷ []) (problems + problems_of r)

abbrev pub unless_problems : List SlotReport × ℕ → Outcome (List SlotReport)
unless_problems (report, ℕ.zero) = ok report
unless_problems (report, suc n) = raised runtime_error

-- check_replication_slots, of the rows of its query
unfoldable pub check_replication_slots : Outcome (List (List Value)) → Outcome (List SlotReport)
check_replication_slots (raised e) = raised e
check_replication_slots (ok []) = raised runtime_error
check_replication_slots (ok (row ∷ rows)) = examine (row ∷ rows) [] 0 >>= unless_problems

-- One connector: its health, its states, and the tasks that were restarted if it was not healthy. The
-- two status calls have their answers.
unfoldable pub check_connector :
    (ℕ → Bool) → StatusReply → StatusReply → Outcome (Bool × List ℕ × List Value)
check_connector posts first second = is_running first >>= λ p.
    if p.0
    then ok (true, p.1, [])
    else ((restart_failed_tasks posts second).0 >>= λ restarted. ok (false, p.1, restarted))

-- check_connector_health: the answer with the connectors, each with the answers to its calls
unfoldable pub check_connector_health :
    Outcome (List (String × (ℕ → Bool) × StatusReply × StatusReply))
    → Outcome (List (String × Bool × List ℕ × List Value))
check_connector_health connectors =
    connectors >>= traverse (λ c. do r ← check_connector c.1 c.2 c.3; ok (c.0, r.0, r.1, r.2))

-- The answers to the three statements for one table.
pub record Optimized : Type 0 where
  pub parts_before : Value
  pub parts_after : Value

unfoldable pub optimize_table : (ℕ → Answer) → ℕ → Outcome Optimized
optimize_table answers n = do
  before ← scalar (answers n)
  _ ← execute (answers (n + 1))
  after ← scalar (answers (n + 2))
  ok (record { parts_before = before; parts_after = after })

unfoldable pub optimize_tables :
    (ℕ → Answer) → ℕ → List String → Outcome (List (String × Optimized))
optimize_tables answers n [] = ok []
optimize_tables answers n (t ∷ ts) = do
  o ← optimize_table answers n
  os ← optimize_tables answers (n + 3) ts
  ok ((t, o) ∷ os)

-- optimize_clickhouse_tables; `none` is `skipped`
unfoldable pub optimize_clickhouse_tables :
    Bool → (ℕ → Answer) → Outcome (Option (List (String × Optimized)))
optimize_clickhouse_tables false answers = ok none
optimize_clickhouse_tables true answers =
    optimize_tables answers 0 (
      "offices" ∷ "staff" ∷ "loan_products" ∷ "savings_products" ∷ "clients" ∷ "savings_accounts"
      ∷ [])
    >>= λ os. ok (some os)

-- The columns that report_merge_pressure prints of a row
unfoldable pub printed : Value → Outcome Value
printed row = do
  _ ← item "database" row
  table ← item "table" row
  _ ← item "active_parts" row
  _ ← item "total_rows" row
  _ ← item "size_mb" row
  _ ← item "compression_ratio" row
  ok table

-- A row's table with int(r["active_parts"])
unfoldable pub parts_of : Value → Outcome (Value × ℤ)
parts_of row = do v ← item "active_parts" row; n ← int_of v; table ← item "table" row; ok (table, n)

-- report_merge_pressure: the rows, and the tables with more than 300 parts
unfoldable pub report_merge_pressure : Answer → Outcome (List Value × List Value)
report_merge_pressure a = do
  rows ← query_json a >>= elements
  _ ← traverse printed rows
  parts ← traverse parts_of rows
  ok (rows, map (λ p. p.0) (select (λ p. ltb_ℤ (pos 300) p.1) parts))

pub record Removed : Type 0 where
  pub rejects : ℕ
  pub runs : ℕ
  pub quality_results : ℕ

-- apply_retention: the two parameters, and the rows that its three statements return
unfoldable pub apply_retention :
    Value
    → Value
    → Outcome (List (List Value))
    → Outcome (List (List Value))
    → Outcome (List (List Value))
    → Outcome Removed
apply_retention reject_days run_days rejects runs quality = do
  _ ← int_of reject_days
  _ ← int_of run_days
  a ← rejects
  b ← runs
  c ← quality
  ok (record { rejects = length a; runs = length b; quality_results = length c })

-- {"entity": r[0], "rule": r[1], "count": int(r[2])}
unfoldable pub reject_of : List Value → Outcome (Value × Value × ℤ)
reject_of (entity ∷ rule ∷ count ∷ _) = int_of count >>= λ n. ok (entity, rule, n)
reject_of _ = raised index_error

-- report_open_rejects
unfoldable pub report_open_rejects :
    Outcome (List (List Value)) → Outcome (List (Value × Value × ℤ))
report_open_rejects rows = rows >>= traverse reject_of
