-- ===== src/Exporter/Collectors.antt =====
-- The nine collectors of observability/exporter/pipeline_exporter/collectors.py.
use fineract_analytics_platf.Prelude.{
  String, Bool, false, List, [], ◌∷◌, map, if◌then◌else◌, concat,
}
use fineract_analytics_platf.Prelude.Int.{ℤ, pos, sub_ℤ}
use fineract_analytics_platf.Values.{Value, fin, chars, text_eq}
use fineract_analytics_platf.Parsers.Scalars.{float_of, int_of}
use fineract_analytics_platf.Outcome.{Outcome, ok, raised, index_error, ◌>>=◌ as ◌then◌}
use fineract_analytics_platf.Exporter.Sources.{
  Sources, latest_runs, last_success, rejects, slots, row_count, cdc_freshness, raw_table_health,
  parse_errors, live_keys, merge_health, dbt_latest_run, dbt_model_runs, Query, ◌>>=◌, pure, lift,
  pg_query, ch_query,
}
use fineract_analytics_platf.Exporter.Samples.{
  MetricSample, Results, sample, traverse, float_or_zero,
}
use fineract_analytics_platf.Exporter.Rows.{
  entity_of, run_samples, success_samples, reject_sample, slot_samples, Freshness,
  freshness_samples, column_samples, live_count, merge_samples,
}

-- IngestionRunCollector.collect
unfoldable pub collect_ingestion_runs : Sources → Query Results
collect_ingestion_runs src = do
  latest ← pg_query src latest_runs
  successes ← pg_query src last_success
  pairs ← lift (traverse run_samples latest)
  stamps ← lift (traverse success_samples successes)
  pure (
      ("run_status", map (λ p. p.0) pairs)
      ∷ ("rows_last_run", map (λ p. p.1) pairs)
      ∷ ("last_success_timestamp_seconds", concat stamps)
      ∷ [])

-- IngestionRejectCollector.collect
unfoldable pub collect_rejects : Sources → Query Results
collect_rejects src = do
  rs ← pg_query src rejects
  samples ← lift (traverse reject_sample rs)
  pure (("rejected_rows_total", samples) ∷ [])

-- ReplicationSlotCollector.collect
unfoldable pub collect_slots : Sources → Query Results
collect_slots src = do
  rs ← pg_query src slots
  pairs ← lift (traverse slot_samples rs)
  pure (
      ("replication_slot_lag_bytes", map (λ p. p.0) pairs)
      ∷ ("replication_slot_active", map (λ p. p.1) pairs)
      ∷ [])

-- CdcFreshnessCollector.collect
unfoldable pub collect_cdc_freshness : Sources → Query Results
collect_cdc_freshness src = do
  rs ← ch_query src cdc_freshness
  fs ← lift (traverse freshness_samples rs)
  pure (
      ("freshness_seconds", map (λ (f : Freshness). f.age) fs)
      ∷ ("lag_p50_seconds", map (λ (f : Freshness). f.p50) fs)
      ∷ ("lag_p95_seconds", map (λ (f : Freshness). f.p95) fs)
      ∷ ("events_total", concat (map (λ (f : Freshness). f.events) fs))
      ∷ [])

-- RawTableHealthCollector.collect
unfoldable pub collect_raw_tables : Sources → Query Results
collect_raw_tables src = do
  rs ← ch_query src raw_table_health
  counts ← lift (column_samples "table" "table_name" float_of "row_count" rs)
  ages ← lift (column_samples "table" "table_name" float_or_zero "seconds_since_insert" rs)
  pure (("table_rows", counts) ∷ ("table_seconds_since_insert", ages) ∷ [])

-- CdcParseErrorCollector.collect
unfoldable pub collect_parse_errors : Sources → Query Results
collect_parse_errors src = do
  rs ← ch_query src parse_errors
  samples ← lift (column_samples "topic" "topic" float_of "errors" rs)
  pure (("parse_errors_total", samples) ∷ [])

-- RECONCILIATION_ENTITIES, without the key columns, which the queries do not use
abbrev pub reconciliation_entities : List (String × String)
reconciliation_entities =
    ("clients", "oltp.clients")
    ∷ ("loans", "oltp.loans")
    ∷ ("loan_transactions", "oltp.loan_transactions")
    ∷ ("savings_accounts", "oltp.savings_accounts")
    ∷ ("offices", "oltp.offices")
    ∷ ("staff", "oltp.staff")
    ∷ ("loan_products", "oltp.loan_products")
    ∷ ("savings_products", "oltp.savings_products")
    ∷ []

abbrev is_named : String → Value → Bool
is_named name (Value.text t) = text_eq t (chars name)
is_named name _ = false

-- ch_counts.get(entity, 0): the last of a key counts.
unfoldable pub count_for : String → ℤ → List (Value × ℤ) → ℤ
count_for name n [] = n
count_for name n ((k, m) ∷ counts) =
    if is_named name k then count_for name m counts else count_for name n counts

-- int(pg_rows[0][0]) if pg_rows else 0
abbrev pub first_count : List (List Value) → Outcome ℤ
first_count [] = ok (pos 0)
first_count ([] ∷ _) = raised index_error
first_count ((v ∷ _) ∷ _) = int_of v

-- The loop over the entities.
unfoldable pub deltas :
    Sources → List (Value × ℤ) → List (String × String) → Query (List MetricSample)
deltas src counts [] = pure []
deltas src counts ((entity, table) ∷ entities) = do
  rs ← pg_query src (row_count table)
  n ← lift (first_count rs)
  rest ← deltas src counts entities
  pure (
      sample (entity_of (Value.text (chars entity)))
        (fin (sub_ℤ n (count_for entity (pos 0) counts)) 0)
      ∷ rest)

-- ReconciliationCollector.collect
unfoldable pub collect_reconciliation : Sources → Query Results
collect_reconciliation src = do
  rs ← ch_query src live_keys
  counts ← lift (traverse live_count rs)
  samples ← deltas src counts reconciliation_entities
  pure (("row_delta", samples) ∷ [])

-- MergeHealthCollector.collect
unfoldable pub collect_merge_health : Sources → Query Results
collect_merge_health src = do
  rs ← ch_query src merge_health
  pairs ← lift (traverse merge_samples rs)
  pure (("active_parts", map (λ p. p.0) pairs) ∷ ("table_bytes", map (λ p. p.1) pairs) ∷ [])

-- DbtResultsCollector.collect
unfoldable pub collect_dbt_results : Sources → Query Results
collect_dbt_results src = do
  tests ← ch_query src dbt_latest_run
  models ← ch_query src dbt_model_runs
  failures ← lift (column_samples "layer" "layer" float_of "failed" tests)
  times ← lift (column_samples "model" "model_name" float_of "execution_time" models)
  pure (("test_failures", failures) ∷ ("model_runtime_seconds", times) ∷ [])

pub record Collector : Type 0 where
  pub name : String
  pub collect : Sources → Query Results

-- ALL_COLLECTORS
unfoldable pub all_collectors : List Collector
all_collectors =
    record { name = "ingestion_run"; collect = collect_ingestion_runs }
    ∷ record { name = "ingestion_reject"; collect = collect_rejects }
    ∷ record { name = "replication_slot"; collect = collect_slots }
    ∷ record { name = "cdc_freshness"; collect = collect_cdc_freshness }
    ∷ record { name = "raw_table_health"; collect = collect_raw_tables }
    ∷ record { name = "cdc_parse_errors"; collect = collect_parse_errors }
    ∷ record { name = "reconciliation"; collect = collect_reconciliation }
    ∷ record { name = "merge_health"; collect = collect_merge_health }
    ∷ record { name = "dbt_results"; collect = collect_dbt_results }
    ∷ []
