-- ===== src/Parsers/Nested.antt =====
-- `dig`, `enum_value` and `enum_id` of ingestion/fineract_ingest/parsers.py, and Python's `or` on
-- decoded JSON.
use fineract_analytics_platf.Prelude.{
  String, Bool, true, false, Option, none, List, [], ◌∷◌, if◌then◌else◌, zero,
}
use fineract_analytics_platf.Prelude.Int.{ℤ, pos}
use fineract_analytics_platf.Values.{
  Text, fin, Value, null, bool, int, float, array, object, Items, Fields, get_field,
}
use fineract_analytics_platf.Outcome.{Outcome, ok, raised, type_error, attribute_error}
use fineract_analytics_platf.Parsers.Scalars.{Library, parse_text, parse_int}

-- bool(value)
abbrev pub truthy : Value → Bool
truthy null = false
truthy (bool b) = b
truthy (int (pos zero)) = false
truthy (float (fin (pos zero) s)) = false
truthy (Value.text []) = false
truthy (array Items.nil) = false
truthy (object Fields.end) = false
truthy _ = true

-- `v or w`
abbrev pub or_else : Value → Value → Value
or_else v w = if truthy v then v else w

-- `v or {}`
abbrev pub or_empty : Value → Value
or_empty v = or_else v (object Fields.end)

-- `v.get(key)`, which only a dict has
abbrev pub get_of : Value → String → Outcome Value
get_of (object fs) k = ok (get_field fs k)
get_of _ k = raised attribute_error

-- The walk of `dig`: `default` is `None`.
unfoldable pub dig : Value → List String → Value
dig v [] = v
dig (object fs) (k ∷ path) = dig (get_field fs k) path
dig _ (k ∷ path) = null

unfoldable pub enum_value : Library → Fields → String → Option Text
enum_value lib r key = elim (get_field r key) [
  | object fs ↦ parse_text lib none (get_field fs "value")
  | v ↦ parse_text lib none v
]

unfoldable pub enum_id : Fields → String → Outcome (Option ℤ)
enum_id r key = elim (get_field r key) [
  | object fs ↦ parse_int (get_field fs "id")
  | v ↦ parse_int v
]

-- dict(value): what is no dict is one only if it has no elements. A list of pairs is not modelled.
unfoldable pub dict_of : Value → Outcome Fields
dict_of (object fs) = ok fs
dict_of (array Items.nil) = ok Fields.end
dict_of (Value.text []) = ok Fields.end
dict_of _ = raised type_error
