-- ===== src/Loader/Refinement.antt =====
-- `PostgresLoader.upsert` of ingestion/fineract_ingest/loader.py against the reference without chunks.
use mathlib.Core.Path.{subst}
use fineract_analytics_platf.Prelude.{
  ℕ, suc, ◌≤◌, ◌≡◌, refl, sym, ap, ◌∙◌, String, true, false, not, List, [], ◌∷◌, length, map, All,
  str_eq, select, arith,
}
use fineract_analytics_platf.Values.{Row, columns, get_cell, is_null}
use fineract_analytics_platf.Outcome.{ok}
use fineract_analytics_platf.Parsers.Hash.{chunked, slices, contains}
use fineract_analytics_platf.Parsers.Chunked.{concat-slices}
use fineract_analytics_platf.Loader.Store.{load_result, Connection, Faults}
use fineract_analytics_platf.Loader.Upsert.{upsert, upsert_chunks, project}
use fineract_analytics_platf.Loader.Reference.{table_after, returned_by, tally}
use fineract_analytics_platf.Loader.Cells.{get_cell-project, contains-columns}
use fineract_analytics_platf.Loader.Chunks.{Sound, HasKey, RanChunks, upsert_chunks-RanChunks}

-- The columns of a batch, those that an update assigns, and the rows as they are written.
abbrev pub columns_of : List Row → List String
columns_of [] = []
columns_of (row ∷ rows) = columns row

abbrev pub updates_of : String → List Row → List String
updates_of key rows = select (λ c. not (str_eq c key)) (columns_of rows)

abbrev pub written_rows : List Row → List Row
written_rows rows = map (project (columns_of rows)) rows

abbrev pub KeyNotNull : String → Row → Type 0
KeyNotNull key row = is_null (get_cell row key) ≡ false

All-HasKey :
    (faults : Faults) (table key : String) (cols updates : List String) (rows : List Row)
    → contains key cols ≡ true
    → All (KeyNotNull key) rows
    → All (HasKey faults table key cols updates) rows
All-HasKey faults table key cols updates [] h ks = tt
All-HasKey faults table key cols updates (row ∷ rows) h ks = (
  ap is_null (get_cell-project cols row key h) ∙ ks.0,
  All-HasKey faults table key cols updates rows h ks.1,
)

-- Where no statement fails and each row has a key, the upsert in chunks of any positive size returns
-- the counters that the reference gives, in the table are the rows of the reference, the other
-- tables are as before, and the clock of statements has not gone back.
pub upsert-refines :
    (faults : Faults) (n : ℕ) (table key : String) (rows : List Row) (c : Connection)
    → All (KeyNotNull key) rows
    → Sound faults c.clock
    → let news = written_rows rows in
      let updates = updates_of key rows in
      let t = c.working.tables table in
      let (r, d) = upsert faults (suc n) table key rows c in
      (r ≡ ok (tally (returned_by key updates news t) (load_result table)))
      × (d.working.tables table ≡ table_after key updates news t)
      × ((o : String) → str_eq table o ≡ false → d.working.tables o ≡ c.working.tables o)
      × (c.clock ≤ d.clock)
unfolding upsert chunked
upsert-refines faults n table key [] c ks f = (ground arith, refl, λ o e. refl, omega arith)
upsert-refines faults n table key (row ∷ rows) c ks f =
    let all : List Row = row ∷ rows in
    let chunks = slices (length all) (suc n) all in
    let e = concat-slices (length all) n all (omega arith) in
    let cols = columns row in
    let updates = updates_of key all in
    let hs = All-HasKey faults table key cols updates all (contains-columns row key ks.0) ks in
    let t = c.working.tables table in
    let h =
      upsert_chunks-RanChunks faults table key cols updates chunks (load_result table) t c
        (subst (All (HasKey faults table key cols updates)) (sym e) hs) f refl in
    let k =
      subst
        (λ l.
          RanChunks faults table key cols updates (map (project cols) l) (load_result table) t c
            (upsert_chunks faults table key cols updates chunks (load_result table) c))
        e h in
    (k.returned, k.reached.rows, k.reached.others, k.reached.later)
