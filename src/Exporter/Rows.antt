-- ===== src/Exporter/Rows.antt =====
-- The loops of the collectors in observability/exporter/pipeline_exporter/collectors.py: the samples
-- of one row of an answer.
use fineract_analytics_platf.Prelude.{String, Bool, true, false, List, [], ◌∷◌, if◌then◌else◌}
use fineract_analytics_platf.Prelude.Int.{ℤ}
use fineract_analytics_platf.Values.{Value, array, object, Number, chars}
use fineract_analytics_platf.Parsers.Scalars.{float_of, int_of}
use fineract_analytics_platf.Parsers.Nested.{truthy}
use fineract_analytics_platf.Outcome.{Outcome, ok, raised, type_error, ◌>>=◌}
use fineract_analytics_platf.Exporter.Sources.{item}
use fineract_analytics_platf.Exporter.Samples.{
  Labels, MetricSample, sample, traverse, flag, float_or_zero, is_success, pair_of, triple_of,
  mebibytes,
}

abbrev pub entity_of : Value → Labels
entity_of v = ("entity", v) ∷ []

abbrev pub table_of : Value → Labels
table_of v = ("table", v) ∷ []

abbrev pub is_none : Value → Bool
is_none Value.null = true
is_none _ = false

-- IngestionRunCollector: the status and the rows of a run.
unfoldable pub run_samples : List Value → Outcome (MetricSample × MetricSample)
run_samples row = do
  t ← triple_of row
  n ← float_or_zero t.2
  ok (sample (entity_of t.0) (flag (is_success t.1)), sample (entity_of t.0) n)

-- The last success of an entity, left out where it has none.
unfoldable pub success_samples : List Value → Outcome (List MetricSample)
success_samples row = do
  p ← pair_of row
  if is_none p.1 then ok [] else (do x ← float_of p.1; ok (sample (entity_of p.0) x ∷ []))

-- IngestionRejectCollector
unfoldable pub reject_sample : List Value → Outcome MetricSample
reject_sample row = do p ← pair_of row; x ← float_of p.1; ok (sample (entity_of p.0) x)

-- ReplicationSlotCollector: the lag and the activity of a slot.
unfoldable pub slot_samples : List Value → Outcome (MetricSample × MetricSample)
slot_samples row = do
  t ← triple_of row
  x ← float_or_zero t.2
  ok (sample (("slot", t.0) ∷ []) x, sample (("slot", t.0) ∷ []) (flag (truthy t.1)))

-- _OP_COLUMNS
abbrev pub op_columns : List (String × String)
op_columns = ("c", "creates") ∷ ("u", "updates") ∷ ("d", "deletes") ∷ ("r", "snapshot_reads") ∷ []

-- The events of one kind of operation on a table.
unfoldable pub event_sample : Value → Value → String × String → Outcome MetricSample
event_sample table r (op, column) = do
  n ← item column r >>= float_or_zero
  ok (sample (("table", table) ∷ ("op", Value.text (chars op)) ∷ []) n)

-- The samples of one row of v_cdc_freshness.
pub record Freshness : Type 0 where
  pub age : MetricSample
  pub p50 : MetricSample
  pub p95 : MetricSample
  pub events : List MetricSample

-- CdcFreshnessCollector
unfoldable pub freshness_samples : Value → Outcome Freshness
freshness_samples r = do
  table ← item "source_table" r
  age ← item "freshness_seconds" r >>= float_of
  p50 ← item "lag_p50_seconds" r >>= float_or_zero
  p95 ← item "lag_p95_seconds" r >>= float_or_zero
  events ← traverse (event_sample table r) op_columns
  ok (record {
    age = sample (table_of table) age;
    p50 = sample (table_of table) p50;
    p95 = sample (table_of table) p95;
    events = events;
  })

-- A comprehension over the rows of an answer: a label from one column, the value from another.
unfoldable pub column_samples :
    String → String → (Value → Outcome Number) → String → List Value → Outcome (List MetricSample)
column_samples label key number column =
    traverse (λ r. do v ← item key r; x ← item column r >>= number; ok (sample ((label, v) ∷ []) x))

abbrev place_of : Value → Value → Labels
place_of database table = ("database", database) ∷ ("table", table) ∷ []

-- MergeHealthCollector: the parts and the bytes of a table.
unfoldable pub merge_samples : Value → Outcome (MetricSample × MetricSample)
merge_samples r = do
  database ← item "database" r
  table ← item "table" r
  parts ← item "active_parts" r >>= float_of
  size ← item "size_mb" r >>= float_of
  ok (sample (place_of database table) parts, sample (place_of database table) (mebibytes size))

-- The key of a dict: lists and dicts have no hash.
abbrev hashable : Value → Outcome Value
hashable (array _) = raised type_error
hashable (object _) = raised type_error
hashable v = ok v

-- {r["entity"]: int(r["live_keys"]) for r in ch_rows}, as pairs in the order of the rows
unfoldable pub live_count : Value → Outcome (Value × ℤ)
live_count r = do e ← item "entity" r; n ← item "live_keys" r >>= int_of; k ← hashable e; ok (k, n)
