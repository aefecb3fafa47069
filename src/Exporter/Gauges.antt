-- ===== src/Exporter/Gauges.antt =====
-- `_build_gauges` of observability/exporter/pipeline_exporter/exporter.py, and what the exporter uses
-- of a `Gauge` of the Prometheus client.
use fineract_analytics_platf.Prelude.{
  String, ◌&&◌, ◌≡◌, ◌≢◌, Option, none, some, List, [], ◌∷◌, map, str_eq, if◌then◌else◌,
}
use fineract_analytics_platf.Values.{Value, Number, Text}
use fineract_analytics_platf.Outcome.{Outcome, ok}
use fineract_analytics_platf.Exporter.Samples.{Labels}

-- The names of labels.
abbrev pub names_of : Labels → List String
names_of = map (λ (l : String × Value). l.0)

-- A gauge with its label sets: `clear` drops them all, `set` is `labels(**ls).set(x)`, which raises
-- where the names are not the gauge's; a label set is told by its values' texts, `key`.
pub record GaugeOps (G : Type 0) : Type 0 where
  pub new : List String → G
  pub clear : G → G
  pub set : Labels → Number → G → Outcome G
  pub names : G → List String
  pub key : Labels → List Text
  pub value : G → List Text → Option Number
  pub names-new : (ns : List String) → names (new ns) ≡ ns
  pub names-clear : (g : G) → names (clear g) ≡ names g
  pub value-clear : (g : G) (k : List Text) → value (clear g) k ≡ none
  pub set-names :
      (ls : Labels) (x : Number) (g : G)
      → names_of ls ≡ names g
      → (h : G) × (set ls x g ≡ ok h)
        × (names h ≡ names g)
        × (value h (key ls) ≡ some x)
        × ((k : List Text) → k ≢ key ls → value h k ≡ value g k)

-- The metrics: a collector's name, the name of its samples, the suffix of the gauge and its labels.
pub record Spec : Type 0 where
  pub collector : String
  pub sample_key : String
  pub suffix : String
  pub labelnames : List String

abbrev spec : String → String → String → List String → Spec
spec collector sample_key suffix labelnames = record {
  collector = collector;
  sample_key = sample_key;
  suffix = suffix;
  labelnames = labelnames;
}

-- The dict `specs`, without the help texts
unfoldable pub specs : List Spec
specs =
    spec "ingestion_run" "run_status" "ingestion_run_status" ("entity" ∷ [])
    ∷ spec "ingestion_run" "rows_last_run" "ingestion_rows_last_run" ("entity" ∷ [])
    ∷ spec "ingestion_run" "last_success_timestamp_seconds"
        "ingestion_last_success_timestamp_seconds" ("entity" ∷ [])
    ∷ spec "ingestion_reject" "rejected_rows_total" "ingestion_rejected_rows_total" ("entity" ∷ [])
    ∷ spec "replication_slot" "replication_slot_lag_bytes" "cdc_replication_slot_lag_bytes"
        ("slot" ∷ [])
    ∷ spec "replication_slot" "replication_slot_active" "cdc_replication_slot_active" ("slot" ∷ [])
    ∷ spec "cdc_freshness" "freshness_seconds" "cdc_freshness_seconds" ("table" ∷ [])
    ∷ spec "cdc_freshness" "lag_p50_seconds" "cdc_lag_p50_seconds" ("table" ∷ [])
    ∷ spec "cdc_freshness" "lag_p95_seconds" "cdc_lag_p95_seconds" ("table" ∷ [])
    ∷ spec "cdc_freshness" "events_total" "cdc_events_total" ("table" ∷ "op" ∷ [])
    ∷ spec "raw_table_health" "table_rows" "raw_table_rows" ("table" ∷ [])
    ∷ spec "raw_table_health" "table_seconds_since_insert" "raw_table_seconds_since_insert"
        ("table" ∷ [])
    ∷ spec "cdc_parse_errors" "parse_errors_total" "cdc_parse_errors_total" ("topic" ∷ [])
    ∷ spec "reconciliation" "row_delta" "reconciliation_row_delta" ("entity" ∷ [])
    ∷ spec "merge_health" "active_parts" "clickhouse_active_parts" ("database" ∷ "table" ∷ [])
    ∷ spec "merge_health" "table_bytes" "clickhouse_table_bytes" ("database" ∷ "table" ∷ [])
    ∷ spec "dbt_results" "test_failures" "dbt_test_failures" ("layer" ∷ [])
    ∷ spec "dbt_results" "model_runtime_seconds" "dbt_model_runtime_seconds" ("model" ∷ [])
    ∷ []

-- specs.get((collector, key))
unfoldable pub find_spec : String → String → List Spec → Option Spec
find_spec c k [] = none
find_spec c k (s ∷ ss) =
    let rest = find_spec c k ss in
    if str_eq s.collector c && str_eq s.sample_key k then some s else rest

abbrev pub gauge_for : {G : Type 0} → GaugeOps G → Option Spec → Option G
gauge_for ops none = none
gauge_for ops (some s) = some (ops.new s.labelnames)

-- _build_gauges, as the dict's `get`
unfoldable pub build_gauges : {G : Type 0} → GaugeOps G → String → String → Option G
build_gauges ops c k = gauge_for ops (find_spec c k specs)
