-- ===== src/Loader/Store.antt =====
-- The database that ingestion/fineract_ingest/loader.py writes, its connection with one open
-- transaction, and `LoadResult`.
use fineract_analytics_platf.Prelude.{ℕ, ◌+◌, String, Bool, Option, List, str_eq, if◌then◌else◌}
use fineract_analytics_platf.Values.{Cell, Row}
use fineract_analytics_platf.Outcome.{Exception, Outcome, ok, raised, database}
use fineract_analytics_platf.Validation.Records.{RejectedRecord}
use fineract_analytics_platf.Validation.Expectations.{ExpectationResult}

pub record LoadResult : Type 0 where
  pub entity : String
  pub rows_read : ℕ
  pub rows_inserted : ℕ
  pub rows_updated : ℕ
  pub rows_unchanged : ℕ
  pub rows_rejected : ℕ

-- LoadResult.__init__
abbrev pub load_result : String → LoadResult
load_result e = record {
  entity = e;
  rows_read = 0;
  rows_inserted = 0;
  rows_updated = 0;
  rows_unchanged = 0;
  rows_rejected = 0;
}

-- LoadResult.merge
unfoldable pub merge : LoadResult → LoadResult → LoadResult
merge a b = record {
  entity = a.entity;
  rows_read = a.rows_read + b.rows_read;
  rows_inserted = a.rows_inserted + b.rows_inserted;
  rows_updated = a.rows_updated + b.rows_updated;
  rows_unchanged = a.rows_unchanged + b.rows_unchanged;
  rows_rejected = a.rows_rejected + b.rows_rejected;
}

pub data Status : Type 0 where
  running success failed skipped : Status

-- A row of meta.ingestion_run.
pub record Run : Type 0 where
  pub run_id : ℕ
  pub entity : String
  pub status : Status
  pub result : LoadResult
  pub api_requests : ℕ
  pub api_retries : ℕ
  pub error_message : Option Exception

-- A row of meta.ingestion_watermark; the cursor is the text of the cell.
pub record Watermark : Type 0 where
  pub entity : String
  pub last_cursor : Option Cell
  pub last_row_count : ℕ
  pub total_rows_loaded : ℕ

-- The tables of the schema `oltp` by name, and those of the schema `meta`.
pub record Db : Type 0 where
  pub tables : String → List Row
  pub runs : List Run
  pub next_run : ℕ
  pub watermarks : List Watermark
  pub rejects : List RejectedRecord
  pub quality : List (String × ExpectationResult)

-- A psycopg connection: what is committed, what its transaction sees, and the statements so far.
pub record Connection : Type 0 where
  pub committed : Db
  pub working : Db
  pub clock : ℕ

-- Statement or commit number n fails.
abbrev pub Faults : Type 0
Faults = ℕ → Bool

abbrev pub Tx {ℓ} : Type ℓ → Type ℓ
Tx A = Connection → Outcome A × Connection

-- What follows a call: the next call, or nothing after an exception.
abbrev pub after {ℓ} : {A B : Type ℓ} → Outcome A × Connection → (A → Tx B) → Outcome B × Connection
after (ok a, s) f = f a s
after (raised e, s) f = (raised e, s)

infixl 5 ◌>>=◌ ◌>>◌
abbrev pub ◌>>=◌ {ℓ} : {A B : Type ℓ} → Tx A → (A → Tx B) → Tx B
◌>>=◌ m f s = after (m s) f

abbrev pub ◌>>◌ {ℓ} : {A B : Type ℓ} → Tx A → Tx B → Tx B
m >> n = m >>= λ _. n

abbrev pub pure {ℓ} : {A : Type ℓ} → A → Tx A
pure a s = (ok a, s)

abbrev pub lift {ℓ} : {A : Type ℓ} → Outcome A → Tx A
lift r s = (r, s)

-- cursor.execute, of a statement that reads or writes the transaction's state or raises
unfoldable pub execute {ℓ} : {A : Type ℓ} → Faults → (Db → Outcome A × Db) → Tx A
execute faults f s =
    if faults s.clock
    then (raised database, record s { clock = s.clock + 1 })
    else (let (r, db) = f s.working in (r, record s { working = db; clock = s.clock + 1 }))

-- connection.commit()
unfoldable pub commit : Faults → Tx (Unit {0})
commit faults s =
    if faults s.clock
    then (raised database, record s { clock = s.clock + 1 })
    else (ok tt, record s { committed = s.working; clock = s.clock + 1 })

-- connection.rollback(), which may fail when as many statements have been run. It fails when the
-- connection is lost, and with it goes the transaction; the next call has a new connection.
unfoldable pub rollback : Faults → Tx (Unit {0})
rollback fails s =
    (if fails s.clock then raised database else ok tt, record s { working = s.committed })

-- tables[name] = rows
abbrev pub put_table : (String → List Row) → String → List Row → String → List Row
put_table tables name rows other = if str_eq name other then rows else tables other
