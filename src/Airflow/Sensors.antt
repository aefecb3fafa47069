-- ===== src/Airflow/Sensors.antt =====
-- The sensors of orchestration/plugins/fineract/sensors.py, on what the databases answer.
use fineract_analytics_platf.Prelude.{
  ℕ, suc, String, Bool, true, false, ◌||◌, Option, none, some, List, [], ◌∷◌, ltb, str_eq,
  if◌then◌else◌,
}
use fineract_analytics_platf.Prelude.Int.{ℤ, pos, negsuc, sub_ℤ}
use fineract_analytics_platf.Values.{Value, Number, fin, number_lt, number_eq}
use fineract_analytics_platf.Parsers.Nested.{truthy}
use fineract_analytics_platf.Parsers.Scalars.{float_of, int_of}
use fineract_analytics_platf.Exporter.Sources.{item}
use fineract_analytics_platf.Exporter.Samples.{traverse}
use fineract_analytics_platf.Exporter.Rows.{is_none, live_count}
use fineract_analytics_platf.Exporter.Collectors.{count_for}
use fineract_analytics_platf.Outcome.{Outcome, ok, raised, airflow_fail, ◌>>=◌}

-- ServiceHealthSensor.poke: the three pings and the service's name.
unfoldable pub poke_service : Bool → Bool → Bool → String → Outcome Bool
poke_service fineract postgres clickhouse service =
    if str_eq service "fineract"
    then ok fineract
    else if str_eq service "postgres"
    then ok postgres
    else if str_eq service "clickhouse"
    then ok clickhouse
    else raised (airflow_fail (service ∷ []))

-- ENTITY_TABLES: the table of an entity in Postgres. In ClickHouse it has the entity's own name.
unfoldable pub table_of_entity : String → List (String × String) → Option String
table_of_entity e [] = none
table_of_entity e ((k, t) ∷ rest) = if str_eq k e then some t else table_of_entity e rest

abbrev pub entity_tables : List (String × String)
entity_tables =
    ("clients", "oltp.clients")
    ∷ ("loans", "oltp.loans")
    ∷ ("loan_transactions", "oltp.loan_transactions")
    ∷ ("savings_accounts", "oltp.savings_accounts")
    ∷ ("offices", "oltp.offices")
    ∷ ("staff", "oltp.staff")
    ∷ ("loan_products", "oltp.loan_products")
    ∷ ("savings_products", "oltp.savings_products")
    ∷ []

-- abs
abbrev pub magnitude : ℤ → ℕ
magnitude (pos n) = n
magnitude (negsuc n) = suc n

-- int(postgres.scalar(...) or 0)
unfoldable pub count_or_zero : Outcome Value → Outcome ℤ
count_or_zero r = r >>= λ v. if truthy v then int_of v else ok (pos 0)

-- The answers to one poke: the counts and the ages in ClickHouse, and the n-th count of Postgres.
pub record Observed : Type 0 where
  pub live_keys : Outcome (List Value)
  pub freshness : Outcome (List Value)
  pub source_rows : ℕ → Outcome Value

-- The difference of the two counts of an entity.
unfoldable pub delta_of : Observed → List (Value × ℤ) → ℕ → String → Outcome ℤ
delta_of o counts n e = elim (table_of_entity e entity_tables) [
  | none ↦ raised (airflow_fail (e ∷ []))
  | some table ↦
      count_or_zero (o.source_rows n) >>= λ rows. ok (sub_ℤ rows (count_for e (pos 0) counts))
]

-- The loop over the entities, with `caught_up`
unfoldable pub check_rows : Observed → List (Value × ℤ) → ℕ → ℕ → List String → Bool → Outcome Bool
check_rows o counts tolerance n [] caught_up = ok caught_up
check_rows o counts tolerance n (e ∷ es) caught_up = delta_of o counts n e >>= λ d.
    check_rows o counts tolerance (suc n) es
      (if ltb tolerance (magnitude d) then false else caught_up)

-- float(row["freshness_seconds"]), and the reading of row["source_table"] for the log
unfoldable pub age_of : Value → Outcome Number
age_of row =
    item "freshness_seconds" row >>= float_of >>= λ x. item "source_table" row >>= λ _. ok x

-- The loop over the rows of the freshness
unfoldable pub check_ages : ℕ → List Value → Bool → Outcome Bool
check_ages max_lag [] caught_up = ok caught_up
check_ages max_lag (row ∷ rows) caught_up = age_of row >>= λ x.
    check_ages max_lag rows (if number_lt (fin (pos max_lag) 0) x then false else caught_up)

-- CDCCaughtUpSensor.__init__
unfoldable pub init_entities : List String → List String
init_entities [] = "clients" ∷ "loans" ∷ "loan_transactions" ∷ []
init_entities (e ∷ es) = e ∷ es

-- CDCCaughtUpSensor.poke
unfoldable pub poke_caught_up : Observed → ℕ → ℕ → List String → Outcome Bool
poke_caught_up o tolerance max_lag entities = do
  rows ← o.live_keys
  counts ← traverse live_count rows
  caught_up ← check_rows o counts tolerance 0 entities true
  ages ← o.freshness
  check_ages max_lag ages caught_up

abbrev pub is_at_most : ℕ → Number → Bool
is_at_most n x = number_lt x (fin (pos n) 0) || number_eq x (fin (pos n) 0)

-- DataFreshnessSensor.poke
unfoldable pub poke_freshness : ℕ → Outcome Value → Outcome Bool
poke_freshness max_age r =
    r >>= λ v. if is_none v then ok false else float_of v >>= λ x. ok (is_at_most max_age x)
