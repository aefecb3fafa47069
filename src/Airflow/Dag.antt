-- ===== src/Airflow/Dag.antt =====
-- The tasks of orchestration/dags/fineract_analytics_pipeline.py, what each waits for, and its trigger
-- rule.
use fineract_analytics_platf.Prelude.{String, List, [], ◌∷◌, ◌++◌, map}
use fineract_analytics_platf.Entities.Registry.{default_order}

pub data TriggerRule : Type 0 where
  all_success all_done none_failed_min_one_success : TriggerRule

pub data Task : Type 0 where
  start : Task
  check_fineract_api check_postgres check_clickhouse check_debezium_connector : Task
  ingest : String → Task
  wait_for_cdc_to_catch_up : Task
  dbt_deps dbt_seed dbt_run_staging dbt_run_intermediate dbt_run_marts dbt_run_ml : Task
  dbt_source_freshness dbt_test publish_dbt_results publish_pipeline_metrics : Task
  data_quality_gate finish : Task

pub record Node : Type 0 where
  pub task : Task
  pub upstream : List Task
  pub trigger_rule : TriggerRule

abbrev pub node : Task → List Task → Node
node t ups = record { task = t; upstream = ups; trigger_rule = all_success }

abbrev pub ruled : TriggerRule → Task → List Task → Node
ruled rule t ups = record { task = t; upstream = ups; trigger_rule = rule }

-- `previous >> ingest_task`, from the tasks before the first
unfoldable pub ingest_chain : List Task → List String → List Node
ingest_chain previous [] = []
ingest_chain previous (e ∷ es) = node (ingest e) previous ∷ ingest_chain (ingest e ∷ []) es

-- The task at the end of the chain.
unfoldable pub last_of : List Task → List String → List Task
last_of previous [] = previous
last_of previous (e ∷ es) = last_of (ingest e ∷ []) es

abbrev pub preflight : List Task
preflight = check_fineract_api ∷ check_postgres ∷ check_clickhouse ∷ check_debezium_connector ∷ []

-- Up to the marts.
unfoldable pub load_and_transform : List Node
load_and_transform =
    node start [] ∷ map (λ t. node t (start ∷ [])) preflight
    ++ ingest_chain preflight default_order
    ++ (node wait_for_cdc_to_catch_up (last_of preflight default_order)
        ∷ node dbt_deps (wait_for_cdc_to_catch_up ∷ [])
        ∷ node dbt_seed (dbt_deps ∷ [])
        ∷ node dbt_run_staging (dbt_seed ∷ [])
        ∷ node dbt_run_intermediate (dbt_run_staging ∷ [])
        ∷ node dbt_run_marts (dbt_run_intermediate ∷ [])
        ∷ node dbt_run_ml (dbt_run_marts ∷ [])
        ∷ [])

-- Tests, publication and the gate.
unfoldable pub test_and_publish : List Node
test_and_publish =
    ruled all_done dbt_source_freshness (dbt_run_ml ∷ [])
    ∷ node dbt_test (dbt_source_freshness ∷ [])
    ∷ ruled all_done publish_dbt_results (dbt_test ∷ [])
    ∷ ruled all_done publish_pipeline_metrics (dbt_test ∷ [])
    ∷ node data_quality_gate (publish_dbt_results ∷ publish_pipeline_metrics ∷ [])
    ∷ ruled none_failed_min_one_success finish (data_quality_gate ∷ [])
    ∷ []

unfoldable pub dag : List Node
dag = load_and_transform ++ test_and_publish
