-- ===== src/Pipeline/Fetch.antt =====
-- `_fetch_records` of ingestion/fineract_ingest/pipeline.py.
use fineract_analytics_platf.Prelude.{
  ℕ, String, Option, none, some, List, [], ◌∷◌, ◌++◌, str_eq, if◌then◌else◌,
}
use fineract_analytics_platf.Prelude.Int.{ℤ}
use fineract_analytics_platf.Values.{Value, int, object, Fields, field, end, get_field?}
use fineract_analytics_platf.Outcome.{Exception, Outcome, ok, raised, type_error, no_response, api}
use fineract_analytics_platf.Parsers.Nested.{dict_of}
use fineract_analytics_platf.Client.Types.{FineractError}
use fineract_analytics_platf.Client.Pages.{Stream, iter_items}
use fineract_analytics_platf.Entities.Spec.{EntitySpec, Mode, full, parent}
use fineract_analytics_platf.Loader.Control.{fetch_parent_ids}
use fineract_analytics_platf.Pipeline.World.{World, Setting, Job, ◌>>=◌, pure, on_connection}

-- fields[key] = value
abbrev pub set_field : Fields → String → Value → Fields
set_field end k v = field k v end
set_field (field j w fs) k v = if str_eq j k then field j v fs else field j w (set_field fs k v)

-- fields.setdefault(key, value)
abbrev pub set_default : Fields → String → Value → Fields
set_default fs k v = elim (get_field? fs k) [ none ↦ set_field fs k v | some _ ↦ fs ]

-- A child record with its parent's id.
unfoldable pub enrich : ℤ → Value → Outcome Value
enrich id v = elim (dict_of v) [
  | raised e ↦ raised e
  | ok fs ↦ ok (object (set_field (set_default fs "loanId" (int id)) "_loan_id" (int id)))
]

unfoldable pub enrich_all : ℤ → List Value → Outcome (List Value)
enrich_all id [] = ok []
enrich_all id (v ∷ vs) = elim (enrich id v) [
  | raised e ↦ raised e
  | ok r ↦ elim (enrich_all id vs) [ raised e ↦ raised e | ok rs ↦ ok (r ∷ rs) ]
]

abbrev pub exception_of : FineractError → Exception
exception_of FineractError.malformed_page = type_error
exception_of FineractError.uncaught = no_response
exception_of e = api e

-- The end of a flat stream: `list` raises what the generator raises.
abbrev pub collected : Stream Value → Outcome (List Value)
collected s = elim s.failure [ none ↦ ok s.yielded | some e ↦ raised (exception_of e) ]

-- `except FineractError`: the failure of one child collection ends that collection alone.
abbrev pub forgiven : Option FineractError → List Value → Outcome (List Value)
forgiven (some FineractError.malformed_page) vs = raised type_error
forgiven (some FineractError.uncaught) vs = raised no_response
forgiven o vs = ok vs

abbrev pub child_records : ℤ → Stream Value → Outcome (List Value)
child_records id s = elim (enrich_all id s.yielded) [
  | raised e ↦ raised e
  | ok vs ↦ forgiven s.failure vs
]

module _ (s : Setting) (spec : EntitySpec) where
  -- The records of an endpoint, with the client's state after them.
  unfoldable pub walk : Option ℤ → World → Stream Value × World
  walk id w =
      let (stream, c) =
        iter_items s.server s.config (record { template = spec.path; parent_id = id }) spec.params
          spec.paged w.client in
      (stream, record w { client = c })

  -- for parent_id in parent_ids
  unfoldable pub fetch_children : List ℤ → Job (List Value)
  fetch_children [] = pure []
  fetch_children (id ∷ ids) =
      (λ w. let (stream, w') = walk (some id) w in (child_records id stream, w')) >>= λ vs.
      fetch_children ids >>= λ rest. pure (vs ++ rest)

  unfoldable pub fetch_flat : Job (List Value)
  fetch_flat w = let (stream, w') = walk none w in (collected stream, w')

  abbrev query_of : Option String → String
  query_of none = ""
  query_of (some q) = q

  -- By the mode of the entity.
  abbrev pub fetch_as : Option ℕ → Mode → Job (List Value)
  fetch_as limit full = fetch_flat
  fetch_as limit parent =
      on_connection (fetch_parent_ids s.faults (s.parents (query_of spec.parent_id_query)) limit)
      >>= fetch_children

  unfoldable pub fetch_records : Option ℕ → Job (List Value)
  fetch_records limit = fetch_as limit spec.mode
