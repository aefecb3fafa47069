-- ===== src/Entities/Cells.antt =====
-- The parsed value of one column, as the mappers of ingestion/fineract_ingest/entities.py write it, and
-- the dict literal that they return: its values are computed in order, and the first exception ends it.
use fineract_analytics_platf.Prelude.{
  String, false, Option, none, some, List, [], ◌∷◌, if◌then◌else◌,
}
use fineract_analytics_platf.Values.{Value, Fields, Cell, Row}
use fineract_analytics_platf.Outcome.{Outcome, ok, ◌>>=◌}
use fineract_analytics_platf.Parsers.Scalars.{
  Library, parse_int, parse_text, parse_decimal, parse_bool, map_outcome,
}
use fineract_analytics_platf.Parsers.Dates.{parse_date}
use fineract_analytics_platf.Parsers.Nested.{truthy, enum_value, enum_id}

abbrev pub or_null {ℓ} : {A : Type ℓ} → (A → Cell) → Option A → Cell
or_null f none = Cell.null
or_null f (some a) = f a

abbrev pub int_cell : Value → Outcome Cell
int_cell v = map_outcome (or_null Cell.int) (parse_int v)

abbrev pub text_cell : Library → Value → Outcome Cell
text_cell lib v = ok (or_null Cell.text (parse_text lib none v))

abbrev pub date_cell : Library → Value → Outcome Cell
date_cell lib v = map_outcome (or_null Cell.date) (parse_date lib v)

abbrev pub decimal_cell : Value → Outcome Cell
decimal_cell v = ok (or_null Cell.decimal (parse_decimal v))

abbrev pub bool_cell : Library → Value → Outcome Cell
bool_cell lib v = ok (or_null Cell.bool (parse_bool lib v))

abbrev pub enum_cell : Library → Fields → String → Outcome Cell
enum_cell lib r key = ok (or_null Cell.text (enum_value lib r key))

abbrev pub enum_id_cell : Fields → String → Outcome Cell
enum_id_cell r key = map_outcome (or_null Cell.int) (enum_id r key)

-- `parse_bool(...) or False`
abbrev pub or_false : Cell → Cell
or_false Cell.null = Cell.bool false
or_false c = c

abbrev pub false_if_none : Outcome Cell → Outcome Cell
false_if_none = map_outcome or_false

-- `a or b`, where `b` is computed only if `a` is falsy
abbrev pub first_truthy : Value → Outcome Value → Outcome Value
first_truthy a b = if truthy a then ok a else b

-- The dict literal.
unfoldable pub build : List (String × Outcome Cell) → Outcome Row
build [] = ok []
build ((k, c) ∷ cells) = do v ← c; row ← build cells; ok ((k, v) ∷ row)

abbrev pub names : List (String × Outcome Cell) → List String
names [] = []
names ((k, _) ∷ cells) = k ∷ names cells
