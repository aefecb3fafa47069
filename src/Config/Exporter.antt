-- ===== src/Config/Exporter.antt =====
-- The settings of the exporter, observability/exporter/pipeline_exporter/config.py, whose `_env` and
-- `_env_int` are those of the ingestion.
use fineract_analytics_platf.Prelude.Int.{ℤ, pos}
use fineract_analytics_platf.Values.{Text, Number, chars}
use fineract_analytics_platf.Outcome.{Outcome, ok, ◌>>=◌}
use fineract_analytics_platf.Parsers.Scan.{float_of_text}
use fineract_analytics_platf.Parsers.Scalars.{or_value_error}
use fineract_analytics_platf.Config.Env.{Environment, env, env_int}

pub record PostgresConfig : Type 0 where
  pub host : Text
  pub port : ℤ
  pub database : Text
  pub user : Text
  pub password : Text
  pub connect_timeout : ℤ

unfoldable pub postgres_config : Environment → PostgresConfig
postgres_config e = record {
  host = env e "POSTGRES_HOST" (chars "postgres");
  port = env_int e "POSTGRES_PORT" (pos 5432);
  database = env e "POSTGRES_DB" (chars "fineract_oltp");
  user = env e "POSTGRES_USER" (chars "analyst_ro");
  password = env e "POSTGRES_PASSWORD" (chars "analyst_ro");
  connect_timeout = env_int e "POSTGRES_CONNECT_TIMEOUT" (pos 10);
}

pub record ClickHouseConfig : Type 0 where
  pub host : Text
  pub http_port : ℤ
  pub user : Text
  pub password : Text
  pub request_timeout : Number

-- The timeout is read by `float` alone, which raises for what is no number.
unfoldable pub clickhouse_config : Environment → Outcome ClickHouseConfig
clickhouse_config e =
    or_value_error (float_of_text (env e "CLICKHOUSE_HTTP_TIMEOUT" (chars "10"))) >>= λ timeout.
    ok (record {
      host = env e "CLICKHOUSE_HOST" (chars "clickhouse");
      http_port = env_int e "CLICKHOUSE_HTTP_PORT" (pos 8123);
      user = env e "CLICKHOUSE_USER" (chars "analytics");
      password = env e "CLICKHOUSE_PASSWORD" (chars "analytics");
      request_timeout = timeout;
    })

pub record ExporterConfig : Type 0 where
  pub port : ℤ
  pub scrape_interval_seconds : ℤ
  pub postgres : PostgresConfig
  pub clickhouse : ClickHouseConfig

unfoldable pub exporter_config : Environment → Outcome ExporterConfig
exporter_config e = clickhouse_config e >>= λ clickhouse. ok (record {
  port = env_int e "EXPORTER_PORT" (pos 9105);
  scrape_interval_seconds = env_int e "EXPORTER_SCRAPE_INTERVAL_SECONDS" (pos 30);
  postgres = postgres_config e;
  clickhouse = clickhouse;
})
