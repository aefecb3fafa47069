-- ===== src/Exporter/Sources.antt =====
-- `PostgresExecutor` and `ClickHouseExecutor` of
-- observability/exporter/pipeline_exporter/exporter.py. What the two databases answer is a parameter:
-- any function of the number of the call and the statement.
use fineract_analytics_platf.Prelude.{
  ℕ, ◌+◌, String, Bool, true, ◌&&◌, ltb, Option, none, some, List, [], leb, if◌then◌else◌,
}
use fineract_analytics_platf.Values.{Value, array, object, Fields, get_field?, items}
use fineract_analytics_platf.Outcome.{
  Outcome, ok, raised, database, type_error, value_error, attribute_error, key_error, no_response,
  http_status,
}

-- The statements of collectors.py, by what they select.
pub data Sql : Type 0 where
  latest_runs last_success rejects slots : Sql
  row_count : String → Sql
  cdc_freshness raw_table_health parse_errors live_keys merge_health : Sql
  dbt_latest_run dbt_model_runs : Sql

-- What Postgres answers: rows, or an error, after which the connection may be closed.
pub data Answer : Type 0 where
  rows : List (List Value) → Answer
  failed : Bool → Answer

-- What ClickHouse answers over HTTP: nothing, or a status and a body (`none`: no JSON).
pub data Response : Type 0 where
  no_answer : Response
  response : ℕ → Option Value → Response

pub record Sources : Type 0 where
  pub connects : ℕ → Bool
  pub answers : ℕ → Sql → Answer
  pub responses : ℕ → Sql → Response

-- Whether `_conn` is open, and the number of calls so far.
pub record Executors : Type 0 where
  pub connected : Bool
  pub calls : ℕ

abbrev pub Query {ℓ} : Type ℓ → Type ℓ
Query A = Executors → Outcome A × Executors

abbrev pub after {ℓ} :
    {A B : Type ℓ} → Outcome A × Executors → (A → Query B) → Outcome B × Executors
after (ok a, s) f = f a s
after (raised e, s) f = (raised e, s)

infixl 5 ◌>>=◌ ◌>>◌
abbrev pub ◌>>=◌ {ℓ} : {A B : Type ℓ} → Query A → (A → Query B) → Query B
◌>>=◌ m f s = after (m s) f

abbrev pub ◌>>◌ {ℓ} : {A B : Type ℓ} → Query A → Query B → Query B
m >> n = m >>= λ _. n

abbrev pub pure {ℓ} : {A : Type ℓ} → A → Query A
pure a s = (ok a, s)

abbrev pub lift {ℓ} : {A : Type ℓ} → Outcome A → Query A
lift r s = (r, s)

-- PostgresExecutor._connect
unfoldable pub connect : Sources → Query (Unit {0})
connect src s =
    if src.connects s.calls
    then (ok tt, record { connected = true; calls = s.calls + 1 })
    else (raised database, record s { calls = s.calls + 1 })

-- cur.execute(sql) and cur.fetchall()
unfoldable pub ask : Sources → Sql → Executors → Answer × Executors
ask src sql s = elim (src.answers s.calls sql) [
  | rows rs ↦ (rows rs, record s { calls = s.calls + 1 })
  | failed closed ↦ (
    failed closed,
    record { connected = if closed then Bool.false else s.connected; calls = s.calls + 1 },
  )
]

abbrev pub fetched : Answer × Executors → Outcome (List (List Value)) × Executors
fetched (rows rs, s) = (ok rs, s)
fetched (failed _, s) = (raised database, s)

-- The `except psycopg.Error`: one retry after a fresh connection.
unfoldable pub retried :
    Sources → Sql → Answer × Executors → Outcome (List (List Value)) × Executors
retried src sql (rows rs, s) = (ok rs, s)
retried src sql (failed _, s) = (connect src >>= λ _ t. fetched (ask src sql t)) s

-- PostgresExecutor.query
unfoldable pub pg_query : Sources → Sql → Query (List (List Value))
pg_query src sql s =
    ((λ t. if t.connected then (ok tt, t) else connect src t) >>= λ _ t.
    retried src sql (ask src sql t))
      s

-- What iterating over the rows gives: each element is a dict, or is no use as a row.
abbrev elements : Value → Outcome (List Value)
elements (array vs) = ok (items vs)
elements (object Fields.end) = ok []
elements (Value.text []) = ok []
elements _ = raised type_error

-- response.json().get("data", [])
abbrev data_of : Option Value → Outcome (List Value)
data_of none = raised value_error
data_of (some (object fs)) = elim (get_field? fs "data") [ none ↦ ok [] | some v ↦ elements v ]
data_of (some _) = raised attribute_error

abbrev received : Response → Outcome (List Value)
received no_answer = raised no_response
received (response status body) =
    if leb 400 status && ltb status 600 then raised (http_status status) else data_of body

-- ClickHouseExecutor.query
unfoldable pub ch_query : Sources → Sql → Query (List Value)
ch_query src sql s = (received (src.responses s.calls sql), record s { calls = s.calls + 1 })

-- r[key]
abbrev pub item : String → Value → Outcome Value
item key (object fs) = elim (get_field? fs key) [ none ↦ raised (key_error key) | some v ↦ ok v ]
item key _ = raised type_error
