-- ===== src/Loader/Upsert.antt =====
-- `PostgresLoader.upsert` of ingestion/fineract_ingest/loader.py.
use fineract_analytics_platf.Prelude.{
  ℕ, ◌+◌, ◌-◌, String, Bool, true, false, not, Option, none, some, List, [], ◌∷◌, str_eq,
  if◌then◌else◌, length, select,
}
use fineract_analytics_platf.Values.{Cell, Row, columns, get_cell, set_cell, is_null, cell_eq}
use fineract_analytics_platf.Outcome.{Outcome, ok, raised, database}
use fineract_analytics_platf.Parsers.Hash.{chunked}
use fineract_analytics_platf.Loader.Store.{
  LoadResult, load_result, Db, Faults, Tx, ◌>>=◌, pure, lift, execute, put_table,
}

-- [row.get(c) for c in columns], with the columns that the values go to
abbrev pub project : List String → Row → Row
project [] row = []
project (c ∷ cs) row = (c, get_cell row c) ∷ project cs row

-- SET c = EXCLUDED.c, for each column
abbrev pub assign : List String → Row → Row → Row
assign [] new old = old
assign (c ∷ cs) new old = assign cs new (set_cell old c (get_cell new c))

-- `IS DISTINCT FROM`: two nulls are not distinct.
abbrev pub is_distinct : Cell → Cell → Bool
is_distinct a b = not (cell_eq a b)

abbrev pub hash_of : Row → Cell
hash_of row = get_cell row "_payload_hash"

abbrev pub cons_row : Row → Option Bool × List Row → Option Bool × List Row
cons_row r (o, rows) = (o, r ∷ rows)

-- INSERT ... ON CONFLICT (key) DO UPDATE ... WHERE ... RETURNING (xmax = 0), for one row: what is
-- returned (nothing, or whether the row is new) and the table after it.
unfoldable pub upsert_row : String → List String → Row → List Row → Option Bool × List Row
upsert_row key updates new [] = (some true, new ∷ [])
upsert_row key updates new (old ∷ rows) =
    let rest = upsert_row key updates new rows in
    if cell_eq (get_cell old key) (get_cell new key)
    then (if is_distinct (hash_of old) (hash_of new)
        then (some false, assign updates new old ∷ rows)
        else (none, old ∷ rows))
    else cons_row old rest

-- The statement, with the table's NOT NULL key.
unfoldable pub upsert_statement :
    String → String → List String → List String → Row → Db → Outcome (Option Bool) × Db
upsert_statement table key cols updates row db =
    let new = project cols row in
    let (returned, rows) = upsert_row key updates new (db.tables table) in
    if is_null (get_cell new key)
    then (raised database, db)
    else (ok returned, record db { tables = put_table db.tables table rows })

-- The two counters that a returned row raises.
abbrev pub count_returned : Option Bool → LoadResult → LoadResult
count_returned none r = r
count_returned (some true) r = record r { rows_inserted = r.rows_inserted + 1 }
count_returned (some false) r = record r { rows_updated = r.rows_updated + 1 }

abbrev pub affected : Option Bool → ℕ → ℕ
affected none n = n
affected (some _) n = n + 1

module _ (faults : Faults) (table key : String) (cols updates : List String) where
  -- for row in chunk
  unfoldable pub upsert_chunk : List Row → ℕ → LoadResult → Tx (ℕ × LoadResult)
  upsert_chunk [] n r = pure (n, r)
  upsert_chunk (row ∷ rows) n r =
      execute faults (upsert_statement table key cols updates row) >>= λ returned.
      upsert_chunk rows (affected returned n) (count_returned returned r)

  -- for chunk in chunked(...)
  unfoldable pub upsert_chunks : List (List Row) → LoadResult → Tx LoadResult
  upsert_chunks [] r = pure r
  upsert_chunks (chunk ∷ chunks) r = upsert_chunk chunk 0 r >>= λ p.
      upsert_chunks chunks (record p.1 {
        rows_unchanged = p.1.rows_unchanged + (length chunk - p.0);
        rows_read = p.1.rows_read + length chunk;
      })

-- The columns are those of the first row.
unfoldable pub upsert : Faults → ℕ → String → String → List Row → Tx LoadResult
upsert faults batch_size table key [] = pure (load_result table)
upsert faults batch_size table key (row ∷ rows) =
    let cols = columns row in
    let updates = select (λ c. not (str_eq c key)) cols in
    lift (chunked (row ∷ rows) batch_size) >>= λ chunks.
    upsert_chunks faults table key cols updates chunks (load_result table)
