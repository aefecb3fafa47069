-- ===== src/Loader/Chunks.antt =====
-- The chunks of `PostgresLoader.upsert` of ingestion/fineract_ingest/loader.py against `Reference`.
use mathlib.Core.Path.{subst}
use fineract_analytics_platf.Prelude.{
  ℕ, ◌+◌, ◌-◌, ◌≤◌, ◌≡◌, refl, sym, ap, ◌∙◌, String, Bool, false, Option, List, [], ◌∷◌, ◌++◌,
  length, length-map, map, map-append, concat, All, All-split, str_eq, str_eq_refl, arith,
}
use fineract_analytics_platf.Values.{Row, get_cell, is_null}
use fineract_analytics_platf.Outcome.{Outcome, ok}
use fineract_analytics_platf.Loader.Store.{
  LoadResult, Db, Connection, Faults, Tx, after, execute, put_table,
}
use fineract_analytics_platf.Loader.Upsert.{
  upsert_row, upsert_statement, upsert_chunk, upsert_chunks, project, affected, count_returned,
}
use fineract_analytics_platf.Loader.Reference.{
  table_after, returned_by, table_after-append, returned_by-append, length-returned_by, touched,
  count_all, tally, affected-touched, count_all-returned, tally-append,
}

-- From statement `n` on, none fails.
abbrev pub Sound : Faults → ℕ → Type 0
Sound faults n = (k : ℕ) → n ≤ k → faults k ≡ false

module _ {A : Type 0} where
  execute_works :
      (faults : Faults) (f : Db → Outcome A × Db) (c : Connection)
      → faults c.clock ≡ false
      → execute faults f c
        ≡ ((f c.working).0, record c { working = (f c.working).1; clock = c.clock + 1 })
  unfolding execute
  execute_works faults f c h = rw h

module _ {A B : Type 0} where
  after-ok : (p : Outcome A × Connection) (f : A → Tx B) (a : A) → p.0 ≡ ok a → after p f ≡ f a p.1
  after-ok p f a h = ap (λ o. after (o, p.1) f) h

-- What an upsert has reached from `c`: the rows `t` in its table, and the other tables as they were.
pub record Reached (table : String) (t : List Row) (c d : Connection) : Type 0 where
  pub rows : d.working.tables table ≡ t
  pub others : (o : String) → str_eq table o ≡ false → d.working.tables o ≡ c.working.tables o
  pub later : c.clock ≤ d.clock

module _ (faults : Faults) (table key : String) (cols updates : List String) where
  abbrev pub HasKey : Row → Type 0
  HasKey row = is_null (get_cell (project cols row) key) ≡ false

  -- What the statement of a row answers, where its table has the rows `t`, and the table after it.
  abbrev answer : Row → List Row → Option Bool
  answer row t = (upsert_row key updates (project cols row) t).0

  abbrev rows_after : Row → List Row → List Row
  rows_after row t = (upsert_row key updates (project cols row) t).1

  abbrev put : Db → List Row → Db
  put db t = record db { tables = put_table db.tables table t }

  abbrev written : Row → List Row → Connection → Connection
  written row t c = record c { working = put c.working (rows_after row t); clock = c.clock + 1 }

  upsert_statement_works :
      (row : Row) (db : Db)
      → HasKey row
      → upsert_statement table key cols updates row db
        ≡ (ok (answer row (db.tables table)), put db (rows_after row (db.tables table)))
  unfolding upsert_statement
  upsert_statement_works row db h = rw h

  statement_works :
      (row : Row) (t : List Row) (c : Connection)
      → HasKey row
      → faults c.clock ≡ false
      → c.working.tables table ≡ t
      → execute faults (upsert_statement table key cols updates row) c
        ≡ (ok (answer row t), written row t c)
  statement_works row t c h e i =
      execute_works faults _ c e
      ∙ ap (λ p. (p.0, record c { working = p.1; clock = c.clock + 1 }))
          (upsert_statement_works row c.working h)
      ∙ ap (λ u. (ok (answer row u), written row u c)) i

  upsert_chunk_step :
      (row : Row) (rows : List Row) (n : ℕ) (r : LoadResult) (t : List Row) (c : Connection)
      → HasKey row
      → faults c.clock ≡ false
      → c.working.tables table ≡ t
      → upsert_chunk faults table key cols updates (row ∷ rows) n r c
        ≡ upsert_chunk faults table key cols updates rows
            (affected (answer row t) n)
            (count_returned (answer row t) r)
            (written row t c)
  unfolding upsert_chunk
  upsert_chunk_step row rows n r t c h e i =
      ap
        (λ p. after p (λ o.
          upsert_chunk faults table key cols updates rows (affected o n) (count_returned o r)))
        (statement_works row t c h e i)

  written-Reached :
      (row : Row) (t : List Row) (c : Connection)
      → Reached table (rows_after row t) c (written row t c)
  written-Reached row t c = record {
    rows = rw (str_eq_refl table);
    others = λ o h. rw h;
    later = omega arith;
  }

  Reached-step :
      (row : Row) (t u : List Row) (c d : Connection)
      → Reached table u (written row t c) d
      → Reached table u c d
  Reached-step row t u c d h =
      let w = written-Reached row t c in
      record {
        rows = h.rows;
        others = λ o e. h.others o e ∙ w.others o e;
        later = omega (arith, h.later);
      }

  -- How a chunk ends: with the counts of the rows that `Reference` inserts and updates.
  record RanChunk (rows : List Row) (n : ℕ) (r : LoadResult) (t : List Row) (c : Connection)
      (p : Outcome (ℕ × LoadResult) × Connection) : Type 0 where
    pub returned :
        let os = returned_by key updates (map (project cols) rows) t in
        p.0 ≡ ok (n + touched os, count_all os r)
    pub reached : Reached table (table_after key updates (map (project cols) rows) t) c p.1

  RanChunk-step :
      (row : Row) (rows : List Row) (n : ℕ) (r : LoadResult) (t : List Row) (c : Connection)
      (p : Outcome (ℕ × LoadResult) × Connection)
      → RanChunk rows
          (affected (answer row t) n)
          (count_returned (answer row t) r)
          (rows_after row t)
          (written row t c)
          p
      → RanChunk (row ∷ rows) n r t c p
  RanChunk-step row rows n r t c p h =
      let os = returned_by key updates (map (project cols) rows) (rows_after row t) in
      record {
        returned =
            h.returned
            ∙ ap (λ (q : ℕ × LoadResult). ok q)
                (ap (λ k. (k, count_all os (count_returned (answer row t) r)))
                    (affected-touched (answer row t) os n)
                  ∙ ap (λ q. (n + touched (answer row t ∷ os), q))
                      (count_all-returned (answer row t) os r));
        reached = Reached-step row t _ c p.1 h.reached;
      }

  upsert_chunk-RanChunk :
      (rows : List Row) (n : ℕ) (r : LoadResult) (t : List Row) (c : Connection)
      → All HasKey rows
      → Sound faults c.clock
      → c.working.tables table ≡ t
      → RanChunk rows n r t c (upsert_chunk faults table key cols updates rows n r c)
  unfolding upsert_chunk
  upsert_chunk-RanChunk [] n r t c hs f i = record {
    returned = ground arith;
    reached = record { rows = i; others = λ o e. refl; later = omega arith };
  }
  upsert_chunk-RanChunk (row ∷ rows) n r t c hs f i =
      subst (RanChunk (row ∷ rows) n r t c)
        (sym (upsert_chunk_step row rows n r t c hs.0 (f c.clock (omega arith)) i))
        (RanChunk-step row rows n r t c _ (
          upsert_chunk-RanChunk rows _ _ (rows_after row t) (written row t c) hs.1
            (λ k l. f k (omega arith)) (written-Reached row t c).rows))

  -- How a list of chunks ends: with the counters and the rows of `Reference`.
  pub record RanChunks (news : List Row) (r : LoadResult) (t : List Row) (c : Connection)
      (p : Outcome LoadResult × Connection) : Type 0 where
    pub returned : p.0 ≡ ok (tally (returned_by key updates news t) r)
    pub reached : Reached table (table_after key updates news t) c p.1

  abbrev counted : List Row → ℕ × LoadResult → LoadResult
  counted chunk p = record p.1 {
    rows_unchanged = p.1.rows_unchanged + (length chunk - p.0);
    rows_read = p.1.rows_read + length chunk;
  }

  counted-tally :
      (chunk : List Row) (t : List Row) (r : LoadResult)
      → let os = returned_by key updates (map (project cols) chunk) t in
        counted chunk (0 + touched os, count_all os r) ≡ tally os r
  counted-tally chunk t r =
      let news = map (project cols) chunk in
      ground (arith, length-returned_by key updates news t, length-map (project cols) chunk)

  RanChunks-join :
      (xs ys : List Row) (r : LoadResult) (t : List Row) (c d : Connection)
      (p : Outcome LoadResult × Connection)
      → Reached table (table_after key updates xs t) c d
      → RanChunks ys (tally (returned_by key updates xs t) r) (table_after key updates xs t) d p
      → RanChunks (xs ++ ys) r t c p
  RanChunks-join xs ys r t c d p h k = record {
    returned =
        k.returned
        ∙ ap (λ (q : LoadResult). ok q)
            (tally-append (returned_by key updates xs t)
                (returned_by key updates ys (table_after key updates xs t)) r
              ∙ ap (λ os. tally os r) (sym (returned_by-append key updates xs ys t)));
    reached = record {
      rows = k.reached.rows ∙ sym (table_after-append key updates xs ys t);
      others = λ o e. k.reached.others o e ∙ h.others o e;
      later = omega (arith, h.later, k.reached.later);
    };
  }

  upsert_chunks_step :
      (chunk : List Row) (rest : List (List Row)) (r : LoadResult) (t : List Row) (c : Connection)
      → let os = returned_by key updates (map (project cols) chunk) t in
        (upsert_chunk faults table key cols updates chunk 0 r c).0
          ≡ ok (0 + touched os, count_all os r)
        → upsert_chunks faults table key cols updates (chunk ∷ rest) r c
          ≡ upsert_chunks faults table key cols updates rest
              (tally (returned_by key updates (map (project cols) chunk) t) r)
              (upsert_chunk faults table key cols updates chunk 0 r c).1
  unfolding upsert_chunks
  upsert_chunks_step chunk rest r t c h =
      let p = upsert_chunk faults table key cols updates chunk 0 r c in
      after-ok p (λ x. upsert_chunks faults table key cols updates rest (counted chunk x)) _ h
      ∙ ap (λ q. upsert_chunks faults table key cols updates rest q p.1) (counted-tally chunk t r)

  pub upsert_chunks-RanChunks :
      (chunks : List (List Row)) (r : LoadResult) (t : List Row) (c : Connection)
      → All HasKey (concat chunks)
      → Sound faults c.clock
      → c.working.tables table ≡ t
      → RanChunks
          (map (project cols) (concat chunks))
          r
          t
          c
          (upsert_chunks faults table key cols updates chunks r c)
  unfolding upsert_chunks
  upsert_chunks-RanChunks [] r t c hs f i = record {
    returned = ground arith;
    reached = record { rows = i; others = λ o e. refl; later = omega arith };
  }
  upsert_chunks-RanChunks (chunk ∷ rest) r t c hs f i =
      let ks = All-split HasKey chunk (concat rest) hs in
      let p = upsert_chunk faults table key cols updates chunk 0 r c in
      let h = upsert_chunk-RanChunk chunk 0 r t c ks.0 f i in
      let u = table_after key updates (map (project cols) chunk) t in
      let q = tally (returned_by key updates (map (project cols) chunk) t) r in
      subst
        (λ news.
          RanChunks news r t c (upsert_chunks faults table key cols updates (chunk ∷ rest) r c))
        (sym (map-append (project cols) chunk (concat rest)))
        (subst (RanChunks (map (project cols) chunk ++ map (project cols) (concat rest)) r t c)
          (sym (upsert_chunks_step chunk rest r t c h.returned))
          (RanChunks-join _ _ r t c p.1 _ h.reached (
            upsert_chunks-RanChunks rest q u p.1 ks.1 (λ k l. f k (omega (arith, h.reached.later)))
              h.reached.rows)))
