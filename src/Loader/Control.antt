-- ===== src/Loader/Control.antt =====
-- The control plane of ingestion/fineract_ingest/loader.py: runs, watermarks, rejects and the results
-- of the expectations, and the queries of the pipeline.
use fineract_analytics_platf.Prelude.{
  ℕ, ◌+◌, String, Option, none, some, List, [], ◌∷◌, ◌++◌, str_eq, ◌==◌, if◌then◌else◌, length,
  take,
}
use fineract_analytics_platf.Prelude.Int.{ℤ}
use fineract_analytics_platf.Values.{Cell}
use fineract_analytics_platf.Parsers.Nested.{dict_of}
use fineract_analytics_platf.Outcome.{Exception, Outcome, ok}
use fineract_analytics_platf.Validation.Records.{RejectedRecord}
use fineract_analytics_platf.Validation.Expectations.{ExpectationResult}
use fineract_analytics_platf.Loader.Store.{
  LoadResult, load_result, Status, running, Run, Watermark, Db, Faults, Tx, ◌>>=◌, ◌>>◌, pure, lift,
  execute, commit,
}

-- start_run: the new run is committed at once.
unfoldable pub insert_run : String → Db → Outcome ℕ × Db
insert_run entity db = (
  ok db.next_run,
  record db {
    runs =
        record {
          run_id = db.next_run;
          entity = entity;
          status = running;
          result = load_result entity;
          api_requests = 0;
          api_retries = 0;
          error_message = none;
        }
        ∷ db.runs;
    next_run = db.next_run + 1;
  },
)

unfoldable pub start_run : Faults → String → Tx ℕ
start_run faults entity =
    execute faults (insert_run entity) >>= λ run_id. commit faults >> pure run_id

-- The columns that `finish_run` sets.
pub record Closing : Type 0 where
  pub status : Status
  pub result : LoadResult
  pub api_requests : ℕ
  pub api_retries : ℕ
  pub error_message : Option Exception

-- UPDATE meta.ingestion_run SET ... WHERE run_id = ...
unfoldable pub close_run : ℕ → Closing → List Run → List Run
close_run run_id c [] = []
close_run run_id c (r ∷ rs) =
    (if r.run_id == run_id
      then record r {
        status = c.status;
        result = c.result;
        api_requests = c.api_requests;
        api_retries = c.api_retries;
        error_message = c.error_message;
      }
      else r)
    ∷ close_run run_id c rs

unfoldable pub finish_run : Faults → ℕ → Closing → Tx (Unit {0})
finish_run faults run_id c =
    execute faults (λ db. (ok tt, record db { runs = close_run run_id c db.runs }))

-- COALESCE(a, b)
abbrev pub coalesce : Option Cell → Option Cell → Option Cell
coalesce none b = b
coalesce (some a) b = some a

-- INSERT ... ON CONFLICT (entity) DO UPDATE of a watermark.
unfoldable pub advance : String → Option Cell → ℕ → List Watermark → List Watermark
advance entity cursor n [] =
    record { entity = entity; last_cursor = cursor; last_row_count = n; total_rows_loaded = n } ∷ []
advance entity cursor n (w ∷ ws) =
    let rest = advance entity cursor n ws in
    if str_eq w.entity entity
    then record w {
      last_cursor = coalesce cursor w.last_cursor;
      last_row_count = n;
      total_rows_loaded = w.total_rows_loaded + n;
    }
      ∷ ws
    else w ∷ rest

unfoldable pub update_watermark : Faults → String → Option Cell → ℕ → Tx (Unit {0})
update_watermark faults entity cursor n =
    execute faults (λ db. (ok tt, record db { watermarks = advance entity cursor n db.watermarks }))

-- record_rejects: one statement per reject, behind `dict(reject.payload)`
unfoldable pub insert_rejects : Faults → List RejectedRecord → Tx (Unit {0})
insert_rejects faults [] = pure tt
insert_rejects faults (r ∷ rs) =
    lift (dict_of r.payload)
    >> execute faults (λ db. (ok tt, record db { rejects = db.rejects ++ r ∷ [] }))
    >> insert_rejects faults rs

unfoldable pub record_rejects : Faults → List RejectedRecord → Tx ℕ
record_rejects faults rs = insert_rejects faults rs >> pure (length rs)

unfoldable pub record_expectations : Faults → String → List ExpectationResult → Tx (Unit {0})
record_expectations faults entity [] = pure tt
record_expectations faults entity (r ∷ rs) =
    execute faults (λ db. (ok tt, record db { quality = db.quality ++ (entity, r) ∷ [] }))
    >> record_expectations faults entity rs

-- table_count, which commits
unfoldable pub table_count : Faults → String → Tx ℕ
table_count faults table =
    execute faults (λ db. (ok (length (db.tables table)), db)) >>= λ n. commit faults >> pure n

-- LIMIT
abbrev pub limited {ℓ} : {A : Type ℓ} → Option ℕ → List A → List A
limited none xs = xs
limited (some n) xs = take n xs

-- [int(row[0]) for row in ... if row[0] is not None]
abbrev pub known_ids : List (Option ℤ) → List ℤ
known_ids [] = []
known_ids (none ∷ ids) = known_ids ids
known_ids (some id ∷ ids) = id ∷ known_ids ids

-- fetch_parent_ids, which commits: what the query answers is a parameter.
unfoldable pub fetch_parent_ids : Faults → (Db → List (Option ℤ)) → Option ℕ → Tx (List ℤ)
fetch_parent_ids faults query limit =
    execute faults (λ db. (ok (known_ids (limited limit (query db))), db)) >>= λ ids.
    commit faults >> pure ids
