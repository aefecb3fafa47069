-- ===== src/Exporter/Declared.antt =====
-- The samples that the collectors of observability/exporter/pipeline_exporter/collectors.py return,
-- against the gauges of exporter.py.
use fineract_analytics_platf.Prelude.{String, ◌≡◌, refl, some, List, [], ◌∷◌, map, All, All-map}
use fineract_analytics_platf.Prelude.Int.{ℤ}
use fineract_analytics_platf.Values.{Value}
use fineract_analytics_platf.Parsers.Scalars.{float_of}
use fineract_analytics_platf.Outcome.{Outcome, ok, raised}
use fineract_analytics_platf.Exporter.Sources.{
  Sources, Executors, Query, ◌>>=◌, lift, pg_query, ch_query, latest_runs, last_success, rejects,
  slots, row_count, cdc_freshness, raw_table_health, parse_errors, live_keys, merge_health,
  dbt_latest_run, dbt_model_runs,
}
use fineract_analytics_platf.Exporter.Samples.{MetricSample, Results, traverse, float_or_zero}
use fineract_analytics_platf.Exporter.Rows.{
  run_samples, success_samples, reject_sample, slot_samples, Freshness, freshness_samples,
  live_count, merge_samples,
}
use fineract_analytics_platf.Exporter.Collectors.{
  collect_ingestion_runs, collect_rejects, collect_slots, collect_cdc_freshness, collect_raw_tables,
  collect_parse_errors, first_count, deltas, collect_reconciliation, collect_merge_health,
  collect_dbt_results, all_collectors, reconciliation_entities,
}
use fineract_analytics_platf.Exporter.Gauges.{Spec, specs, find_spec}
use fineract_analytics_platf.Exporter.Labels.{
  Carries, >>=-Carries, traverse-All, All-mapped, All-concat, Named, BothNamed, run_samples-Named,
  success_samples-Named, reject_sample-Named, slot_samples-Named, FreshnessNamed,
  freshness_samples-Named, column_samples-Named, merge_samples-Named,
}

-- Samples that have a gauge, with its labels.
abbrev pub IsDeclared : String → String × List MetricSample → Type 0
IsDeclared c (k, ms) = (s : Spec) × (find_spec c k specs ≡ some s) × All (Named s.labelnames) ms

abbrev Declares : String → Query Results → Type 0
Declares c m = (s : Executors) → Carries (All (IsDeclared c)) (m s).0

module _ (ns : List String) where
  firsts :
      (ps : List (MetricSample × MetricSample)) → All (BothNamed ns) ps → All (λ p. Named ns p.0) ps
  firsts = All-map (BothNamed ns) (λ p. Named ns p.0) λ p h. h.0

  seconds :
      (ps : List (MetricSample × MetricSample)) → All (BothNamed ns) ps → All (λ p. Named ns p.1) ps
  seconds = All-map (BothNamed ns) (λ p. Named ns p.1) λ p h. h.1

Carries-any : {A : Type 0} (r : Outcome A) → Carries (λ a. Unit) r
Carries-any (ok a) = tt
Carries-any (raised e) = tt

module _ (c : String) {A : Type 0} where
  -- A query: what it returns does not matter.
  query_then :
      (m : Query A) (f : A → Query Results) → ((a : A) → Declares c (f a)) → Declares c (m >>= f)
  query_then m f h s =
      >>=-Carries (λ a. Unit) (All (IsDeclared c)) m f s (Carries-any (m s).0) λ a t u. h a t

  -- The samples made of what was returned.
  lift_then :
      (P : A → Type 0) (r : Outcome A) (f : A → Query Results)
      → Carries P r
      → ((a : A) → P a → Declares c (f a))
      → Declares c (lift r >>= f)
  lift_then P r f h k s = >>=-Carries P (All (IsDeclared c)) (lift r) f s h λ a t p. k a p t

collect_ingestion_runs-Declares :
    (src : Sources) → Declares "ingestion_run" (collect_ingestion_runs src)
unfolding collect_ingestion_runs find_spec specs
collect_ingestion_runs-Declares src =
    let c : String = "ingestion_run" in
    let E = Named ("entity" ∷ []) in
    query_then c (pg_query src latest_runs) _ λ latest.
      query_then c (pg_query src last_success) _ λ successes.
        lift_then c (All (BothNamed ("entity" ∷ []))) (traverse run_samples latest) _
          (traverse-All (BothNamed ("entity" ∷ [])) run_samples latest run_samples-Named)
          λ pairs h.
            lift_then c (All (All E)) (traverse success_samples successes) _
              (traverse-All (All E) success_samples successes success_samples-Named)
              λ stamps k s. (
                (_, refl, All-mapped E (λ p. p.0) pairs (firsts ("entity" ∷ []) pairs h)),
                (
                  (_, refl, All-mapped E (λ p. p.1) pairs (seconds ("entity" ∷ []) pairs h)),
                  ((_, refl, All-concat E stamps k), tt),
                ),
              )

collect_rejects-Declares : (src : Sources) → Declares "ingestion_reject" (collect_rejects src)
unfolding collect_rejects find_spec specs
collect_rejects-Declares src =
    let E = Named ("entity" ∷ []) in
    query_then "ingestion_reject" (pg_query src rejects) _ λ rs.
      lift_then "ingestion_reject" (All E) (traverse reject_sample rs) _
        (traverse-All E reject_sample rs reject_sample-Named) λ ms h s. ((_, refl, h), tt)

collect_slots-Declares : (src : Sources) → Declares "replication_slot" (collect_slots src)
unfolding collect_slots find_spec specs
collect_slots-Declares src =
    let E = Named ("slot" ∷ []) in
    query_then "replication_slot" (pg_query src slots) _ λ rs.
      lift_then "replication_slot" (All (BothNamed ("slot" ∷ []))) (traverse slot_samples rs) _
        (traverse-All (BothNamed ("slot" ∷ [])) slot_samples rs slot_samples-Named)
        λ pairs h s. (
          (_, refl, All-mapped E (λ p. p.0) pairs (firsts ("slot" ∷ []) pairs h)),
          ((_, refl, All-mapped E (λ p. p.1) pairs (seconds ("slot" ∷ []) pairs h)), tt),
        )

collect_cdc_freshness-Declares :
    (src : Sources) → Declares "cdc_freshness" (collect_cdc_freshness src)
unfolding collect_cdc_freshness find_spec specs
collect_cdc_freshness-Declares src =
    let T = Named ("table" ∷ []) in
    let Q = Named ("table" ∷ "op" ∷ []) in
    let part = λ (P : Freshness → Type 0) (f : (x : Freshness) → FreshnessNamed x → P x).
      All-map FreshnessNamed P f in
    query_then "cdc_freshness" (ch_query src cdc_freshness) _ λ rs.
      lift_then "cdc_freshness" (All FreshnessNamed) (traverse freshness_samples rs) _
        (traverse-All FreshnessNamed freshness_samples rs freshness_samples-Named)
        λ fs h s. (
          (_, refl, All-mapped T (λ (f : Freshness). f.age) fs (part _ (λ x n. n.age) fs h)),
          (
            (_, refl, All-mapped T (λ (f : Freshness). f.p50) fs (part _ (λ x n. n.p50) fs h)),
            (
              (_, refl, All-mapped T (λ (f : Freshness). f.p95) fs (part _ (λ x n. n.p95) fs h)),
              (
                (
                  _,
                  refl,
                  All-concat Q (map (λ (f : Freshness). f.events) fs) (
                      All-mapped (All Q) (λ (f : Freshness). f.events) fs
                        (part _ (λ x n. n.events) fs h)),
                ),
                tt,
              ),
            ),
          ),
        )

collect_raw_tables-Declares : (src : Sources) → Declares "raw_table_health" (collect_raw_tables src)
unfolding collect_raw_tables find_spec specs
collect_raw_tables-Declares src =
    let c : String = "raw_table_health" in
    let T = All (Named ("table" ∷ [])) in
    query_then c (ch_query src raw_table_health) _ λ rs.
      lift_then c T _ _ (column_samples-Named "table" "table_name" float_of "row_count" rs)
        λ counts h.
          lift_then c T _ _
            (column_samples-Named "table" "table_name" float_or_zero "seconds_since_insert" rs)
            λ ages k s. ((_, refl, h), ((_, refl, k), tt))

collect_parse_errors-Declares :
    (src : Sources) → Declares "cdc_parse_errors" (collect_parse_errors src)
unfolding collect_parse_errors find_spec specs
collect_parse_errors-Declares src =
    let c : String = "cdc_parse_errors" in
    query_then c (ch_query src parse_errors) _ λ rs.
      lift_then c (All (Named ("topic" ∷ []))) _ _
        (column_samples-Named "topic" "topic" float_of "errors" rs) λ ms h s. ((_, refl, h), tt)

collect_merge_health-Declares : (src : Sources) → Declares "merge_health" (collect_merge_health src)
unfolding collect_merge_health find_spec specs
collect_merge_health-Declares src =
    let ns : List String = "database" ∷ "table" ∷ [] in
    query_then "merge_health" (ch_query src merge_health) _ λ rs.
      lift_then "merge_health" (All (BothNamed ns)) (traverse merge_samples rs) _
        (traverse-All (BothNamed ns) merge_samples rs merge_samples-Named)
        λ pairs h s. (
          (_, refl, All-mapped (Named ns) (λ p. p.0) pairs (firsts ns pairs h)),
          ((_, refl, All-mapped (Named ns) (λ p. p.1) pairs (seconds ns pairs h)), tt),
        )

collect_dbt_results-Declares : (src : Sources) → Declares "dbt_results" (collect_dbt_results src)
unfolding collect_dbt_results find_spec specs
collect_dbt_results-Declares src =
    let c : String = "dbt_results" in
    query_then c (ch_query src dbt_latest_run) _ λ tests.
      query_then c (ch_query src dbt_model_runs) _ λ models.
        lift_then c (All (Named ("layer" ∷ []))) _ _
          (column_samples-Named "layer" "layer" float_of "failed" tests)
          λ failures h.
            lift_then c (All (Named ("model" ∷ []))) _ _
              (column_samples-Named "model" "model_name" float_of "execution_time" models)
              λ times k s. ((_, refl, h), ((_, refl, k), tt))

deltas-Named :
    (src : Sources) (counts : List (Value × ℤ)) (es : List (String × String)) (s : Executors)
    → Carries (All (Named ("entity" ∷ []))) (deltas src counts es s).0
unfolding deltas
deltas-Named src counts [] s = tt
deltas-Named src counts ((entity, table) ∷ es) s =
    let E = Named ("entity" ∷ []) in
    >>=-Carries (λ a. Unit) (All E) (pg_query src (row_count table)) _ s (Carries-any _)
      λ rs t u.
        >>=-Carries (λ a. Unit) (All E) (lift (first_count rs)) _ t (Carries-any _)
          λ n v w.
            >>=-Carries (All E) (All E) (deltas src counts es) _ v (deltas-Named src counts es v)
              λ rest x h. (refl, h)

collect_reconciliation-Declares :
    (src : Sources) → Declares "reconciliation" (collect_reconciliation src)
unfolding collect_reconciliation find_spec specs
collect_reconciliation-Declares src =
    let c : String = "reconciliation" in
    let E = Named ("entity" ∷ []) in
    query_then c (ch_query src live_keys) _ λ rs.
      query_then c (lift (traverse live_count rs)) _ λ counts s.
        >>=-Carries (All E) (All (IsDeclared c)) (deltas src counts reconciliation_entities) _ s
          (deltas-Named src counts reconciliation_entities s) λ ms t h. ((_, refl, h), tt)

-- Every sample of every collector, whatever the databases answer, goes to a gauge that the exporter
-- has, and carries the labels that the gauge was made with, so no sample is skipped or refused.
pub all_collectors-IsDeclared :
    (src : Sources)
    → All
        (λ c. (s : Executors) → Carries (All (IsDeclared c.name)) (c.collect src s).0)
        all_collectors
unfolding all_collectors
all_collectors-IsDeclared src = (
  collect_ingestion_runs-Declares src,
  (
    collect_rejects-Declares src,
    (
      collect_slots-Declares src,
      (
        collect_cdc_freshness-Declares src,
        (
          collect_raw_tables-Declares src,
          (
            collect_parse_errors-Declares src,
            (
              collect_reconciliation-Declares src,
              (collect_merge_health-Declares src, (collect_dbt_results-Declares src, tt)),
            ),
          ),
        ),
      ),
    ),
  ),
)
