-- ===== src/Loader/Again.antt =====
-- A second load of the same rows by `PostgresLoader.upsert` of ingestion/fineract_ingest/loader.py.
use mathlib.Core.Path.{subst}
use fineract_analytics_platf.Prelude.{
  ℕ, suc, ◌≡◌, sym, ap, ◌∙◌, String, true, false, List, [], ◌∷◌, length, length-map, map, All,
  str_eq, arith,
}
use fineract_analytics_platf.Values.{Row, columns, get_cell, is_null, cell_eq}
use fineract_analytics_platf.Outcome.{ok}
use fineract_analytics_platf.Parsers.Hash.{contains}
use fineract_analytics_platf.Loader.Store.{LoadResult, load_result, Connection, Faults}
use fineract_analytics_platf.Loader.Upsert.{upsert, project}
use fineract_analytics_platf.Loader.Reference.{table_after, returned_by, length-returned_by, tally}
use fineract_analytics_platf.Loader.Cells.{
  get_cell-project, contains-columns, contains-select_others, contains-select_key,
}
use fineract_analytics_platf.Loader.Chunks.{Sound}
use fineract_analytics_platf.Loader.Refinement.{
  KeyNotNull, written_rows, columns_of, updates_of, upsert-refines,
}
use fineract_analytics_platf.Loader.Stored.{
  IntKey, TextHash, same_key, DistinctKeys, holds, all_held, table_after-held, returned_by-held,
}

module _ (cols : List String) (key : String) (has_key : contains key cols ≡ true) where
  IntKey-project :
      (rows : List Row) → All (IntKey key) rows → All (IntKey key) (map (project cols) rows)
  IntKey-project [] is = tt
  IntKey-project (row ∷ rows) is =
      ((is.0.0, get_cell-project cols row key has_key ∙ is.0.1), IntKey-project rows is.1)

  differs-project :
      (row : Row) (rows : List Row)
      → All (λ q. same_key key row q ≡ false) rows
      → All (λ q. same_key key (project cols row) q ≡ false) (map (project cols) rows)
  differs-project row [] ds = tt
  differs-project row (q ∷ rows) ds = (
    ap (λ c. cell_eq c (get_cell (project cols q) key)) (get_cell-project cols row key has_key)
        ∙ ap (cell_eq (get_cell row key)) (get_cell-project cols q key has_key)
        ∙ ds.0,
    differs-project row rows ds.1,
  )

  DistinctKeys-project :
      (rows : List Row) → DistinctKeys key rows → DistinctKeys key (map (project cols) rows)
  DistinctKeys-project [] ds = tt
  DistinctKeys-project (row ∷ rows) ds =
      (differs-project row rows ds.0, DistinctKeys-project rows ds.1)

TextHash-project :
    (cols : List String) (rows : List Row)
    → contains "_payload_hash" cols ≡ true
    → All TextHash rows
    → All TextHash (map (project cols) rows)
TextHash-project cols [] h ts = tt
TextHash-project cols (row ∷ rows) h ts = (
  (ts.0.0, get_cell-project cols row "_payload_hash" h ∙ ts.0.1),
  TextHash-project cols rows h ts.1,
)

IntKey-KeyNotNull :
    (key : String) (rows : List Row) → All (IntKey key) rows → All (KeyNotNull key) rows
IntKey-KeyNotNull key [] is = tt
IntKey-KeyNotNull key (row ∷ rows) is = (ap is_null is.0.1, IntKey-KeyNotNull key rows is.1)

-- The rows as they are written are all held by the table that the reference gives.
written_held :
    (key : String) (rows t : List Row)
    → str_eq key "_payload_hash" ≡ false
    → All (IntKey key) rows
    → All TextHash rows
    → DistinctKeys key rows
    → All (IntKey key) t
    → let news = written_rows rows in
      All (λ a. holds key a (table_after key (updates_of key rows) news t) ≡ true) news
written_held key [] t e is ts ds js = tt
written_held key (row ∷ rows) t e is ts ds js =
    let cols = columns row in
    let has_key = contains-columns row key (ap is_null is.0.1) in
    let has_hash = contains-columns row "_payload_hash" (ap is_null ts.0.1) in
    all_held key (updates_of key (row ∷ rows)) (contains-select_key cols key)
      (contains-select_others cols key "_payload_hash" e ∙ has_hash) (written_rows (row ∷ rows)) t
      (IntKey-project cols key has_key (row ∷ rows) is)
      (TextHash-project cols (row ∷ rows) has_hash ts)
      (DistinctKeys-project cols key has_key (row ∷ rows) ds) js

-- Rows with integer keys, pairwise different, and hashes, are loaded twice into a table with integer
-- keys, in chunks of a positive size, and no statement fails; the key is not the column of the hash.
-- The second upsert returns, with every row counted as unchanged and
-- none as inserted or updated, and the table is the same as after the first.
pub upsert-again :
    (faults : Faults) (n : ℕ) (table key : String) (rows : List Row) (c : Connection)
    → str_eq key "_payload_hash" ≡ false
    → All (IntKey key) rows
    → All TextHash rows
    → DistinctKeys key rows
    → All (IntKey key) (c.working.tables table)
    → Sound faults c.clock
    → let d = (upsert faults (suc n) table key rows c).1 in
      (result : LoadResult) × ((upsert faults (suc n) table key rows d).0 ≡ ok result)
      × (result.rows_inserted ≡ 0)
      × (result.rows_updated ≡ 0)
      × (result.rows_unchanged ≡ length rows)
      × ((upsert faults (suc n) table key rows d).1.working.tables table ≡ d.working.tables table)
upsert-again faults n table key rows c e is ts ds js f =
    let news = written_rows rows in
    let updates = updates_of key rows in
    let ks = IntKey-KeyNotNull key rows is in
    let d = (upsert faults (suc n) table key rows c).1 in
    let h = upsert-refines faults n table key rows c ks f in
    let t = d.working.tables table in
    let hs : All (λ a. holds key a t ≡ true) news =
      subst (λ u. All (λ a. holds key a u ≡ true) news) (sym h.1)
        (written_held key rows (c.working.tables table) e is ts ds js) in
    let k = upsert-refines faults n table key rows d ks (λ i l. f i (omega (arith, h.3))) in
    let os = returned_by key updates news t in
    let l = length-returned_by key updates news t in
    let m = length-map (project (columns_of rows)) rows in
    let z = returned_by-held key updates news t hs in
    (
      tally os (load_result table),
      k.0,
      omega (arith, z.0),
      omega (arith, z.1),
      omega (arith, z.0, z.1, l, m),
      k.1 ∙ table_after-held key updates news t hs,
    )
