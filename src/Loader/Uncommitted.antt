-- ===== src/Loader/Uncommitted.antt =====
-- The writes of ingestion/fineract_ingest/loader.py in the open transaction.
use fineract_analytics_platf.Prelude.{ℕ, ◌≡◌, refl, ◌∙◌, String, Option, List, [], ◌∷◌, arith}
use fineract_analytics_platf.Values.{Cell, Row}
use fineract_analytics_platf.Outcome.{Outcome, ok, raised}
use fineract_analytics_platf.Parsers.Hash.{chunked}
use fineract_analytics_platf.Validation.Records.{RejectedRecord}
use fineract_analytics_platf.Validation.Expectations.{ExpectationResult}
use fineract_analytics_platf.Loader.Store.{
  LoadResult, Db, Connection, Faults, Tx, ◌>>=◌, pure, lift, execute,
}
use fineract_analytics_platf.Loader.Upsert.{upsert_statement, upsert_chunk, upsert_chunks, upsert}
use fineract_analytics_platf.Loader.Control.{
  finish_run, Closing, update_watermark, insert_rejects, record_rejects, record_expectations,
}

-- Whether it returns or raises, `m` leaves the committed state alone.
pub record Uncommitted {A : Type 0} (m : Tx A) : Type 0 where
  pub at : (c : Connection) → (m c).1.committed ≡ c.committed

module _ {A : Type 0} where
  pub Uncommitted-pure : (a : A) → Uncommitted (pure a)
  Uncommitted-pure a = record { at = λ c. refl }

  Uncommitted-lift : (r : Outcome A) → Uncommitted (lift r)
  Uncommitted-lift r = record { at = λ c. refl }

  pub Uncommitted-execute :
      (faults : Faults) (f : Db → Outcome A × Db) → Uncommitted (execute faults f)
  unfolding execute
  Uncommitted-execute faults f = record { at = λ c. ground arith }

module _ {A B : Type 0} where
  bind_at :
      (r : Outcome A) (f : A → Tx B) (c : Connection)
      → ((a : A) → Uncommitted (f a))
      → (◌>>=◌ (lift r) f c).1.committed ≡ c.committed
  bind_at (ok a) f c k = (k a).at c
  bind_at (raised e) f c k = refl

  pub Uncommitted-bind :
      (m : Tx A) (f : A → Tx B)
      → Uncommitted m
      → ((a : A) → Uncommitted (f a))
      → Uncommitted (m >>= f)
  Uncommitted-bind m f h k = record { at = λ c. bind_at (m c).0 f (m c).1 k ∙ h.at c }

module _ (faults : Faults) where
  module _ (table key : String) (cols updates : List String) where
    Uncommitted-upsert_chunk :
        (rows : List Row) (n : ℕ) (r : LoadResult)
        → Uncommitted (upsert_chunk faults table key cols updates rows n r)
    unfolding upsert_chunk
    Uncommitted-upsert_chunk [] n r = Uncommitted-pure (n, r)
    Uncommitted-upsert_chunk (row ∷ rows) n r =
        Uncommitted-bind _ _
          (Uncommitted-execute faults (upsert_statement table key cols updates row))
          (λ o. Uncommitted-upsert_chunk rows _ _)

    Uncommitted-upsert_chunks :
        (chunks : List (List Row)) (r : LoadResult)
        → Uncommitted (upsert_chunks faults table key cols updates chunks r)
    unfolding upsert_chunks
    Uncommitted-upsert_chunks [] r = Uncommitted-pure r
    Uncommitted-upsert_chunks (chunk ∷ chunks) r =
        Uncommitted-bind _ _ (Uncommitted-upsert_chunk chunk 0 r)
          (λ p. Uncommitted-upsert_chunks chunks _)

  pub Uncommitted-upsert :
      (size : ℕ) (table key : String) (rows : List Row)
      → Uncommitted (upsert faults size table key rows)
  unfolding upsert
  Uncommitted-upsert size table key [] = Uncommitted-pure _
  Uncommitted-upsert size table key (row ∷ rows) =
      Uncommitted-bind _ _ (Uncommitted-lift (chunked (row ∷ rows) size))
        (λ chunks. Uncommitted-upsert_chunks table key _ _ chunks _)

  Uncommitted-insert_rejects : (rs : List RejectedRecord) → Uncommitted (insert_rejects faults rs)
  unfolding insert_rejects
  Uncommitted-insert_rejects [] = Uncommitted-pure tt
  Uncommitted-insert_rejects (r ∷ rs) =
      Uncommitted-bind _ _
        (Uncommitted-bind _ _ (Uncommitted-lift _) (λ _. Uncommitted-execute faults _))
        (λ _. Uncommitted-insert_rejects rs)

  pub Uncommitted-record_rejects :
      (rs : List RejectedRecord) → Uncommitted (record_rejects faults rs)
  unfolding record_rejects
  Uncommitted-record_rejects rs =
      Uncommitted-bind _ _ (Uncommitted-insert_rejects rs) (λ _. Uncommitted-pure _)

  pub Uncommitted-record_expectations :
      (entity : String) (rs : List ExpectationResult)
      → Uncommitted (record_expectations faults entity rs)
  unfolding record_expectations
  Uncommitted-record_expectations entity [] = Uncommitted-pure tt
  Uncommitted-record_expectations entity (r ∷ rs) =
      Uncommitted-bind _ _ (Uncommitted-execute faults _)
        (λ _. Uncommitted-record_expectations entity rs)

  pub Uncommitted-update_watermark :
      (entity : String) (cursor : Option Cell) (n : ℕ)
      → Uncommitted (update_watermark faults entity cursor n)
  unfolding update_watermark
  Uncommitted-update_watermark entity cursor n = Uncommitted-execute faults _

  pub Uncommitted-finish_run : (run_id : ℕ) (c : Closing) → Uncommitted (finish_run faults run_id c)
  unfolding finish_run
  Uncommitted-finish_run run_id c = Uncommitted-execute faults _
