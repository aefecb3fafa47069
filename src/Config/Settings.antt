-- ===== src/Config/Settings.antt =====
-- `FineractConfig`, `PostgresConfig` and `RuntimeConfig` of ingestion/fineract_ingest/config.py, with
-- their defaults.
use fineract_analytics_platf.Prelude.{
  String, Bool, true, false, Option, none, some, List, [], ◌∷◌, ◌++◌,
}
use fineract_analytics_platf.Prelude.Int.{ℤ, pos}
use fineract_analytics_platf.Values.{Text, Value, bool, int, float, Number, fin, chars}
use fineract_analytics_platf.Parsers.Scan.{upper, str_of_int}
use fineract_analytics_platf.Config.Env.{Environment, env, env_int, env_float, env_bool}

pub record FineractConfig : Type 0 where
  pub base_url : Text
  pub tenant_id : Text
  pub username : Text
  pub password : Text
  pub verify_ssl : Bool
  pub page_size : ℤ
  pub max_pages : ℤ
  pub connect_timeout : Number
  pub read_timeout : Number
  pub max_retries : ℤ
  pub backoff_base_seconds : Number
  pub backoff_max_seconds : Number
  pub requests_per_second : Number
  pub auth_mode : Text

unfoldable pub fineract_config : Environment → FineractConfig
fineract_config e = record {
  base_url = env e "FINERACT_BASE_URL" (chars "https://fineract:8443/fineract-provider/api/v1");
  tenant_id = env e "FINERACT_TENANT_ID" (chars "default");
  username = env e "FINERACT_USERNAME" (chars "mifos");
  password = env e "FINERACT_PASSWORD" (chars "password");
  verify_ssl = env_bool e "FINERACT_VERIFY_SSL" false;
  page_size = env_int e "FINERACT_PAGE_SIZE" (pos 200);
  max_pages = env_int e "FINERACT_MAX_PAGES" (pos 500);
  connect_timeout = env_float e "FINERACT_CONNECT_TIMEOUT" (fin (pos 10) 0);
  read_timeout = env_float e "FINERACT_READ_TIMEOUT" (fin (pos 60) 0);
  max_retries = env_int e "FINERACT_MAX_RETRIES" (pos 5);
  backoff_base_seconds = env_float e "FINERACT_BACKOFF_BASE" (fin (pos 5) 1);
  backoff_max_seconds = env_float e "FINERACT_BACKOFF_MAX" (fin (pos 30) 0);
  requests_per_second = env_float e "FINERACT_RPS" (fin (pos 8) 0);
  auth_mode = env e "FINERACT_AUTH_MODE" (chars "basic");
}

pub record PostgresConfig : Type 0 where
  pub host : Text
  pub port : ℤ
  pub database : Text
  pub user : Text
  pub password : Text
  pub connect_timeout : ℤ
  pub statement_timeout_ms : ℤ
  pub batch_size : ℤ

unfoldable pub postgres_config : Environment → PostgresConfig
postgres_config e = record {
  host = env e "POSTGRES_HOST" (chars "postgres");
  port = env_int e "POSTGRES_PORT" (pos 5432);
  database = env e "POSTGRES_DB" (chars "fineract_oltp");
  user = env e "POSTGRES_USER" (chars "app_ingest");
  password = env e "POSTGRES_PASSWORD" (chars "app_ingest");
  connect_timeout = env_int e "POSTGRES_CONNECT_TIMEOUT" (pos 15);
  statement_timeout_ms = env_int e "POSTGRES_STATEMENT_TIMEOUT_MS" (pos 300000);
  batch_size = env_int e "INGEST_BATCH_SIZE" (pos 1000);
}

-- `"***" if password else ""`
abbrev pub stars : Text → Text
stars [] = []
stars (c ∷ t) = chars "***"

-- FineractConfig.masked
unfoldable pub masked : FineractConfig → List (String × Value)
masked c =
    ("base_url", Value.text c.base_url)
    ∷ ("tenant_id", Value.text c.tenant_id)
    ∷ ("username", Value.text c.username)
    ∷ ("password", Value.text (stars c.password))
    ∷ ("verify_ssl", bool c.verify_ssl)
    ∷ ("page_size", int c.page_size)
    ∷ ("auth_mode", Value.text c.auth_mode)
    ∷ ("requests_per_second", float c.requests_per_second)
    ∷ []

-- PostgresConfig.dsn
unfoldable pub dsn : PostgresConfig → Text
dsn c =
    chars "host="
    ++ c.host
    ++ chars " port="
    ++ str_of_int c.port
    ++ chars " dbname="
    ++ c.database
    ++ chars " user="
    ++ c.user
    ++ chars " password="
    ++ c.password
    ++ chars " connect_timeout="
    ++ str_of_int c.connect_timeout
    ++ chars " application_name=fineract_ingest"

-- PostgresConfig.masked_dsn
unfoldable pub masked_dsn : PostgresConfig → Text
masked_dsn c =
    chars "host="
    ++ c.host
    ++ chars " port="
    ++ str_of_int c.port
    ++ chars " dbname="
    ++ c.database
    ++ chars " user="
    ++ c.user
    ++ chars " password=***"

abbrev pub or_none : Text → Option Text
or_none [] = none
or_none (c ∷ t) = some (c ∷ t)

pub record RuntimeConfig : Type 0 where
  pub log_level : Text
  pub log_format : Text
  pub pushgateway_url : Text
  pub push_metrics : Bool
  pub max_reject_ratio : Number
  pub dag_run_id : Option Text
  pub environment : Text

unfoldable pub runtime_config : Environment → RuntimeConfig
runtime_config e = record {
  log_level = upper (env e "LOG_LEVEL" (chars "INFO"));
  log_format = env e "LOG_FORMAT" (chars "json");
  pushgateway_url = env e "PROMETHEUS_PUSHGATEWAY_URL" (chars "http://pushgateway:9091");
  push_metrics = env_bool e "INGEST_PUSH_METRICS" true;
  max_reject_ratio = env_float e "INGEST_MAX_REJECT_RATIO" (fin (pos 5) 2);
  dag_run_id = or_none (env e "AIRFLOW_CTX_DAG_RUN_ID" (chars ""));
  environment = env e "ENVIRONMENT" (chars "local");
}

-- Settings.load
pub record Settings : Type 0 where
  pub fineract : FineractConfig
  pub postgres : PostgresConfig
  pub runtime : RuntimeConfig

unfoldable pub load : Environment → Settings
load e = record {
  fineract = fineract_config e;
  postgres = postgres_config e;
  runtime = runtime_config e;
}
