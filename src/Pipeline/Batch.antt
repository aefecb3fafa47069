-- ===== src/Pipeline/Batch.antt =====
-- `_map_and_validate` and `_cursor_value` of ingestion/fineract_ingest/pipeline.py.
use fineract_analytics_platf.Prelude.{
  String, Bool, false, not, Option, none, some, List, [], ◌∷◌, ◌++◌, any, select, if◌then◌else◌,
}
use fineract_analytics_platf.Values.{
  Text, Value, Number, number_lt, Cell, Row, get_cell, set_cell, is_null, cell_eq,
}
use fineract_analytics_platf.Outcome.{Outcome, ok, raised}
use fineract_analytics_platf.Parsers.Scalars.{Library}
use fineract_analytics_platf.Parsers.Hash.{payload_hash}
use fineract_analytics_platf.Entities.Spec.{EntitySpec}
use fineract_analytics_platf.Validation.Records.{RejectedRecord, mapper_exception, validate_record}
use fineract_analytics_platf.Validation.Expectations.{numeric}

-- The three variables of the loop.
pub record Batch : Type 0 where
  pub rows : List Row
  pub rejects : List RejectedRecord
  pub seen : List Cell

abbrev pub empty : Batch
empty = record { rows = []; rejects = []; seen = [] }

-- "fineract"
abbrev pub source_system : Cell
source_system = Cell.text (b'f' ∷ b'i' ∷ b'n' ∷ b'e' ∷ b'r' ∷ b'a' ∷ b'c' ∷ b't' ∷ [])

-- mapped["_source_system"], then mapped["_payload_hash"]
unfoldable pub stamp : (Row → Text) → Row → Row
stamp digest mapped =
    let sourced = set_cell mapped "_source_system" source_system in
    set_cell sourced "_payload_hash" (Cell.text (payload_hash digest [] sourced))

abbrev pub reject : RejectedRecord → Batch → Batch
reject r b = record b { rejects = b.rejects ++ r ∷ [] }

-- key in seen_keys
abbrev pub is_seen : Cell → List Cell → Bool
is_seen key = any (λ s. cell_eq s key)

-- [r for r in mapped_rows if r[primary_key] != key]
abbrev pub without_key : String → Cell → List Row → List Row
without_key pk key = select (λ r. not (cell_eq (get_cell r pk) key))

-- A record that passed: the last with its key wins.
unfoldable pub accept : (Row → Text) → String → Row → Batch → Batch
accept digest pk mapped b =
    let key = get_cell mapped pk in
    let kept = if is_seen key b.seen then without_key pk key b.rows else b.rows in
    record b { rows = kept ++ stamp digest mapped ∷ []; seen = key ∷ b.seen }

abbrev pub admit : (Row → Text) → EntitySpec → Value → Row → Option RejectedRecord → Batch → Batch
admit digest spec raw mapped (some r) b = reject r b
admit digest spec raw mapped none b = accept digest spec.primary_key mapped b

abbrev pub mapped_as : (Row → Text) → EntitySpec → Value → Outcome Row → Batch → Batch
mapped_as digest spec raw (raised e) b =
    reject
      (record { entity = spec.name; source_key = none; rule = mapper_exception e; payload = raw }) b
mapped_as digest spec raw (ok mapped) b =
    admit digest spec raw mapped (validate_record spec mapped raw) b

-- One pass of the loop.
unfoldable pub take_record : Library → (Row → Text) → EntitySpec → Value → Batch → Batch
take_record lib digest spec raw b = mapped_as digest spec raw (spec.mapper lib raw) b

unfoldable pub map_and_validate_from :
    Library → (Row → Text) → EntitySpec → List Value → Batch → Batch
map_and_validate_from lib digest spec [] b = b
map_and_validate_from lib digest spec (raw ∷ raws) b =
    map_and_validate_from lib digest spec raws (take_record lib digest spec raw b)

unfoldable pub map_and_validate : Library → (Row → Text) → EntitySpec → List Value → Batch
unfolding map_and_validate_from take_record
map_and_validate lib digest spec raws = map_and_validate_from lib digest spec raws empty

abbrev less : Option Number → Option Number → Bool
less (some a) (some b) = number_lt a b
less _ _ = false

-- max, of cells that are numbers
abbrev pub greatest : Cell → List Cell → Cell
greatest best [] = best
greatest best (c ∷ cs) = greatest (if less (numeric best) (numeric c) then c else best) cs

abbrev pub keys_of : String → List Row → List Cell
keys_of pk [] = []
keys_of pk (r ∷ rs) =
    let rest = keys_of pk rs in if is_null (get_cell r pk) then rest else get_cell r pk ∷ rest

abbrev greatest_of : List Cell → Option Cell
greatest_of [] = none
greatest_of (c ∷ cs) = some (greatest c cs)

unfoldable pub cursor_value : EntitySpec → List Row → Option Cell
cursor_value spec rows = greatest_of (keys_of spec.primary_key rows)
