-- ===== src/Validation/Records.antt =====
-- `RejectedRecord` and `validate_record` of ingestion/fineract_ingest/validation.py. The message of a
-- rejection is left to its constructor.
use text.Mathlib.Text.{starts_with}
use fineract_analytics_platf.Prelude.{
  String, Bool, true, false, not, ◌&&◌, Option, none, some, List, [], ◌∷◌, str_eq, if◌then◌else◌,
  all,
}
use fineract_analytics_platf.Prelude.Int.{negsuc}
use fineract_analytics_platf.Values.{Value, Cell, Row, get_cell, is_null}
use fineract_analytics_platf.Outcome.{Exception}
use fineract_analytics_platf.Entities.Spec.{EntitySpec}

pub data Rule : Type 0 where
  mapper_exception : Exception → Rule
  primary_key_not_null : Rule
  primary_key_positive : Rule
  record_not_empty : Rule

-- `source_key` is `str` of the cell that it holds.
pub record RejectedRecord : Type 0 where
  pub entity : String
  pub source_key : Option Cell
  pub rule : Rule
  pub payload : Value

-- `isinstance(pk_value, int) and pk_value < 0`
abbrev pub is_negative : Cell → Bool
is_negative (Cell.int (negsuc n)) = true
is_negative _ = false

-- The values of the columns that are neither the key nor the pipeline's own.
abbrev pub business_values : String → Row → List Cell
business_values key [] = []
business_values key ((k, v) ∷ row) =
    let rest = business_values key row in
    if not (str_eq k key) && not (starts_with k "_") then v ∷ rest else rest

abbrev pub nonempty : List Cell → Bool
nonempty [] = false
nonempty (_ ∷ _) = true

unfoldable pub validate_record : EntitySpec → Row → Value → Option RejectedRecord
validate_record spec mapped raw =
    let key = get_cell mapped spec.primary_key in
    let values = business_values spec.primary_key mapped in
    if is_null key
    then some (record {
      entity = spec.name;
      source_key = none;
      rule = primary_key_not_null;
      payload = raw;
    })
    else if is_negative key
    then some (record {
      entity = spec.name;
      source_key = some key;
      rule = primary_key_positive;
      payload = raw;
    })
    else if nonempty values && all is_null values
    then some (record {
      entity = spec.name;
      source_key = some key;
      rule = record_not_empty;
      payload = raw;
    })
    else none
