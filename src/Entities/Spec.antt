-- ===== src/Entities/Spec.antt =====
-- `Expectation` and `EntitySpec` of ingestion/fineract_ingest/entities.py. The `description` is left
-- out, and `params`, which no entity sets, is kept.
use fineract_analytics_platf.Prelude.{String, Bool, Option, none, List}
use fineract_analytics_platf.Values.{Value, object, Fields, Number, Cell, Row}
use fineract_analytics_platf.Outcome.{Outcome, raised, attribute_error}
use fineract_analytics_platf.Client.Types.{Params}
use fineract_analytics_platf.Parsers.Scalars.{Library}
use fineract_analytics_platf.Entities.Cells.{build}

-- `other` is any text that `_evaluate_one` does not know.
pub data Kind : Type 0 where
  not_null unique non_negative range row_count_min : Kind
  other : String → Kind

pub data Severity : Type 0 where
  error warn : Severity

pub record Expectation : Type 0 where
  pub name : String
  pub kind : Kind
  pub columns : List String
  pub severity : Severity
  pub min_value : Option Number
  pub max_value : Option Number

-- `expectation "n" kind columns severity` is `Expectation(...)` without bounds.
abbrev pub expectation : String → Kind → List String → Severity → Expectation
expectation n k cs s = record {
  name = n;
  kind = k;
  columns = cs;
  severity = s;
  min_value = none;
  max_value = none;
}

-- How an entity is read: the whole collection, or a child collection per parent.
pub data Mode : Type 0 where
  full parent : Mode

pub record EntitySpec : Type 0 where
  pub name : String
  pub path : String
  pub table : String
  pub primary_key : String
  pub mapper : Library → Value → Outcome Row
  pub paged : Bool
  pub params : Params
  pub mode : Mode
  pub parent_entity : Option String
  pub parent_id_query : Option String
  pub expectations : List Expectation

-- A mapper calls `r.get` at once, which only a dict has.
abbrev pub mapper_of :
    (Library → Fields → List (String × Outcome Cell)) → Library → Value → Outcome Row
mapper_of cells lib (object r) = build (cells lib r)
mapper_of cells lib _ = raised attribute_error
