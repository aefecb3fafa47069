-- ===== src/Loader/Counts.antt =====
-- What the counters of `PostgresLoader.upsert` in ingestion/fineract_ingest/loader.py add up to.
use fineract_analytics_platf.Prelude.{
  ℕ, suc, ◌+◌, ◌≡◌, ap, ◌∙◌, inl, inr, String, Bool, true, false, Option, none, some, List, [], ◌∷◌,
  length, length-map, All, Bool-cases, arith,
}
use fineract_analytics_platf.Values.{Row, get_cell, cell_eq}
use fineract_analytics_platf.Outcome.{ok}
use fineract_analytics_platf.Loader.Store.{LoadResult, load_result, Connection, Faults}
use fineract_analytics_platf.Loader.Upsert.{upsert, upsert_row, hash_of, project}
use fineract_analytics_platf.Loader.Reference.{
  table_after, returned_by, length-returned_by, inserts, tally, touched-length,
}
use fineract_analytics_platf.Loader.Chunks.{Sound}
use fineract_analytics_platf.Loader.Refinement.{
  KeyNotNull, written_rows, columns_of, updates_of, upsert-refines,
}

module _ (key : String) (updates : List String) where
  length-upsert_row :
      (new : Row) (t : List Row)
      → length (upsert_row key updates new t).1
        ≡ length t + inserts ((upsert_row key updates new t).0 ∷ [])
  unfolding upsert_row
  length-upsert_row new [] = omega arith
  length-upsert_row new (old ∷ t) =
      let ih = length-upsert_row new t in
      elim (Bool-cases (cell_eq (get_cell old key) (get_cell new key))) [
        | inl e ↦ elim (Bool-cases (cell_eq (hash_of old) (hash_of new))) [
          | inl g ↦ rw e (rw g (omega arith))
          | inr g ↦ rw e (rw g (omega arith))
        ]
        | inr e ↦ rw e (omega (arith, ih))
      ]

  inserts-cons :
      (o : Option Bool) (os : List (Option Bool)) → inserts (o ∷ os) ≡ inserts (o ∷ []) + inserts os
  inserts-cons none os = omega arith
  inserts-cons (some true) os = omega arith
  inserts-cons (some false) os = omega arith

  length-table_after :
      (news t : List Row)
      → length (table_after key updates news t)
        ≡ length t + inserts (returned_by key updates news t)
  length-table_after [] t = omega arith
  length-table_after (new ∷ news) t =
      let p = upsert_row key updates new t in
      omega (
        arith,
        length-table_after news p.1,
        length-upsert_row new t,
        inserts-cons p.0 (returned_by key updates news p.1),
      )

-- Where no statement fails, each row has a key and the size of the chunks is positive, the upsert
-- returns. It has read every row, the rows inserted, updated and left unchanged add up to those that
-- were read, and the table has grown by the rows inserted.
pub upsert-accounts :
    (faults : Faults) (n : ℕ) (table key : String) (rows : List Row) (c : Connection)
    → All (KeyNotNull key) rows
    → Sound faults c.clock
    → (result : LoadResult) × let (r, d) = upsert faults (suc n) table key rows c in
        (r ≡ ok result)
        × (result.rows_read ≡ length rows)
        × (result.rows_inserted + result.rows_updated + result.rows_unchanged ≡ result.rows_read)
        × (length (d.working.tables table) ≡ length (c.working.tables table) + result.rows_inserted)
upsert-accounts faults n table key rows c ks f =
    let news = written_rows rows in
    let updates = updates_of key rows in
    let t = c.working.tables table in
    let os = returned_by key updates news t in
    let h = upsert-refines faults n table key rows c ks f in
    let l = length-returned_by key updates news t in
    let m = length-map (project (columns_of rows)) rows in
    (
      tally os (load_result table),
      (
        h.0,
        omega (arith, l, m),
        omega (arith, l, m, touched-length os),
        ap length h.1 ∙ omega (arith, length-table_after key updates news t),
      ),
    )
