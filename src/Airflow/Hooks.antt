-- ===== src/Airflow/Hooks.antt =====
-- `ClickHouseHook`, `PostgresHook` and `FineractHook` of orchestration/plugins/fineract/hooks.py, on
-- what the service answers to a call.
use fineract_analytics_platf.Prelude.{
  ℕ, Bool, false, Option, none, some, List, [], ◌∷◌, ◌==◌, if◌then◌else◌,
}
use fineract_analytics_platf.Prelude.Int.{pos}
use fineract_analytics_platf.Values.{
  Value, null, int, array, object, Items, cons, end, field, get_field?, Text, text_eq,
}
use fineract_analytics_platf.Parsers.Nested.{truthy}
use fineract_analytics_platf.Parsers.Scan.{strip}
use fineract_analytics_platf.Outcome.{
  Outcome, ok, raised, value_error, type_error, attribute_error, key_error, index_error,
  no_response, runtime_error, stop_iteration, ◌>>=◌,
}

-- The answer to an HTTP call: none, or a status, the text, and the text as JSON (`none`: it is none).
pub data Answer : Type 0 where
  no_answer : Answer
  answer : ℕ → Text → Option Value → Answer

-- ClickHouseHook.execute: the text, with its JSON
unfoldable pub execute : Answer → Outcome (Text × Option Value)
execute no_answer = raised no_response
execute (answer status text json) = if status == 200 then ok (text, json) else raised runtime_error

abbrev data_of : Text × Option Value → Outcome Value
data_of (_, none) = raised value_error
data_of (_, some (object fs)) = elim (get_field? fs "data") [
  | none ↦ ok (array Items.nil)
  | some v ↦ ok v
]
data_of (_, some _) = raised attribute_error

-- ClickHouseHook.query_json
unfoldable pub query_json : Answer → Outcome Value
query_json a = execute a >>= data_of

-- next(iter(row.values()))
abbrev first_value : Value → Outcome Value
first_value (object end) = raised stop_iteration
first_value (object (field k v fs)) = ok v
first_value _ = raised attribute_error

-- rows[0]
abbrev first_row : Value → Outcome Value
first_row (array (cons v vs)) = ok v
first_row (array Items.nil) = raised index_error
first_row (Value.text (c ∷ t)) = ok (Value.text (c ∷ []))
first_row (object fs) = raised (key_error "0")
first_row _ = raised type_error

-- ClickHouseHook.scalar
unfoldable pub scalar : Answer → Outcome Value
scalar a = query_json a >>= λ rows. if truthy rows then first_row rows >>= first_value else ok null

abbrev pub is_one : Outcome (Text × Option Value) → Bool
unfolding strip
is_one (ok (text, _)) = text_eq (strip text) (b'1' ∷ [])
is_one (raised e) = false

-- ClickHouseHook.ping
unfoldable pub ping : Answer → Bool
ping a = is_one (execute a)

-- PostgresHook.scalar, of the rows that `query` returns
unfoldable pub pg_scalar : Outcome (List (List Value)) → Outcome Value
pg_scalar (ok []) = ok null
pg_scalar (ok ([] ∷ _)) = raised index_error
pg_scalar (ok ((v ∷ _) ∷ _)) = ok v
pg_scalar (raised e) = raised e

-- PostgresHook.ping, where the value is an integer if it is a number
unfoldable pub pg_ping : Outcome (List (List Value)) → Bool
unfolding pg_scalar
pg_ping r = elim (pg_scalar r) [
  | ok (int (pos n)) ↦ n == 1
  | ok (Value.bool b) ↦ b
  | ok _ ↦ false
  | raised e ↦ false
]

-- FineractHook.ping
unfoldable pub api_ping : Answer → Bool
api_ping no_answer = false
api_ping (answer status text json) = status == 200
