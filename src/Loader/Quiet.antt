-- ===== src/Loader/Quiet.antt =====
-- The statements of ingestion/fineract_ingest/loader.py that touch only the table of runs, and the
-- reads, against the loaded data.
use fineract_analytics_platf.Prelude.{
  ℕ, ◌+◌, ◌≡◌, refl, sym, ◌∙◌, String, Bool, true, false, Option, List, if◌then◌else◌,
}
use fineract_analytics_platf.Prelude.Int.{ℤ}
use fineract_analytics_platf.Outcome.{Outcome, ok, raised, database}
use fineract_analytics_platf.Loader.Store.{
  Db, Connection, Faults, Tx, after, ◌>>=◌, ◌>>◌, pure, execute, commit, rollback,
}
use fineract_analytics_platf.Loader.Control.{
  insert_run, start_run, finish_run, Closing, table_count, fetch_parent_ids,
}

-- The same rows, watermarks, rejects and results of expectations.
pub record SameData (a b : Db) : Type 0 where
  pub tables : a.tables ≡ b.tables
  pub watermarks : a.watermarks ≡ b.watermarks
  pub rejects : a.rejects ≡ b.rejects
  pub quality : a.quality ≡ b.quality

pub SameData-refl : (a : Db) → SameData a a
SameData-refl a = record { tables = refl; watermarks = refl; rejects = refl; quality = refl }

pub SameData-trans : {a b c : Db} → SameData a b → SameData b c → SameData a c
SameData-trans h k = record {
  tables = h.tables ∙ k.tables;
  watermarks = h.watermarks ∙ k.watermarks;
  rejects = h.rejects ∙ k.rejects;
  quality = h.quality ∙ k.quality;
}

pub SameData-sym : {a b : Db} → SameData a b → SameData b a
SameData-sym h = record {
  tables = sym h.tables;
  watermarks = sym h.watermarks;
  rejects = sym h.rejects;
  quality = sym h.quality;
}

-- No loaded data waits in the open transaction.
abbrev pub Idle : Connection → Type 0
Idle c = SameData c.working c.committed

-- From `c`, `d` is reached without a change of the loaded data.
pub record Still (c d : Connection) : Type 0 where
  pub idle : Idle d
  pub same : SameData d.committed c.committed

pub Still-refl : (c : Connection) → Idle c → Still c c
Still-refl c h = record { idle = h; same = SameData-refl c.committed }

pub Still-trans : {b c d : Connection} → Still b c → Still c d → Still b d
Still-trans h k = record { idle = k.idle; same = SameData-trans k.same h.same }

pub record Quiet {A : Type 0} (m : Tx A) : Type 0 where
  pub at : (c : Connection) → Idle c → Still c (m c).1

-- A query or an update that keeps the loaded data.
abbrev pub KeepsData : {A : Type 0} → (Db → Outcome A × Db) → Type 0
KeepsData f = (db : Db) → SameData (f db).1 db

module _ {A : Type 0} where
  Quiet-pure : (a : A) → Quiet (pure a)
  Quiet-pure a = record { at = λ c h. Still-refl c h }

  executed :
      (b : Bool) (f : Db → Outcome A × Db) (c : Connection)
      → KeepsData f
      → Idle c
      → Still c
          (if b
            then (let p : Outcome A × Connection =
                  (raised database, record c { clock = c.clock + 1 }) in
                p)
            else (let (r, db) = f c.working in
                (r, record c { working = db; clock = c.clock + 1 }))).1
  executed true f c k h = record { idle = h; same = SameData-refl c.committed }
  executed false f c k h = record {
    idle = SameData-trans (k c.working) h;
    same = SameData-refl c.committed;
  }

  pub Quiet-execute :
      (faults : Faults) (f : Db → Outcome A × Db) → KeepsData f → Quiet (execute faults f)
  unfolding execute
  Quiet-execute faults f k = record { at = λ c h. executed (faults c.clock) f c k h }

pub Quiet-commit : (faults : Faults) → Quiet (commit faults)
unfolding commit
Quiet-commit faults = record { at = λ c h. by_case (faults c.clock) c h }
  where
    by_case :
        (b : Bool) (c : Connection)
        → Idle c
        → Still c
            (if b
              then (let p : Outcome (Unit {0}) × Connection =
                    (raised database, record c { clock = c.clock + 1 }) in
                  p)
              else (ok tt, record c { committed = c.working; clock = c.clock + 1 })).1
    by_case true c h = record { idle = h; same = SameData-refl c.committed }
    by_case false c h = record { idle = SameData-refl c.working; same = h }

module _ {A B : Type 0} where
  after-Still :
      (b : Connection) (p : Outcome A × Connection) (f : A → Tx B)
      → Still b p.1
      → ((a : A) → Quiet (f a))
      → Still b (after p f).1
  after-Still b (ok a, c) f h k = Still-trans h ((k a).at c h.idle)
  after-Still b (raised e, c) f h k = h

  pub Quiet-bind : (m : Tx A) (f : A → Tx B) → Quiet m → ((a : A) → Quiet (f a)) → Quiet (m >>= f)
  Quiet-bind m f h k = record { at = λ c i. after-Still c (m c) f (h.at c i) k }

-- A rollback, also one that fails, leaves no loaded data in the transaction, whatever was there.
pub rollback-Still :
    (fails : Faults) (b c : Connection)
    → SameData c.committed b.committed
    → Still b (rollback fails c).1
unfolding rollback
rollback-Still fails b c h = record { idle = SameData-refl c.committed; same = h }

module _ (faults : Faults) where
  pub Quiet-start_run : (entity : String) → Quiet (start_run faults entity)
  unfolding start_run insert_run
  Quiet-start_run entity =
      Quiet-bind _ _
        (Quiet-execute faults _
          (λ db. record { tables = refl; watermarks = refl; rejects = refl; quality = refl }))
        (λ n. Quiet-bind _ _ (Quiet-commit faults) (λ _. Quiet-pure n))

  pub Quiet-finish_run : (run_id : ℕ) (c : Closing) → Quiet (finish_run faults run_id c)
  unfolding finish_run
  Quiet-finish_run run_id c =
      Quiet-execute faults _
        (λ db. record { tables = refl; watermarks = refl; rejects = refl; quality = refl })

  pub Quiet-finish_and_commit :
      (run_id : ℕ) (c : Closing) → Quiet (finish_run faults run_id c >> commit faults)
  Quiet-finish_and_commit run_id c =
      Quiet-bind _ _ (Quiet-finish_run run_id c) (λ _. Quiet-commit faults)

  pub Quiet-table_count : (table : String) → Quiet (table_count faults table)
  unfolding table_count
  Quiet-table_count table =
      Quiet-bind _ _ (Quiet-execute faults _ (λ db. SameData-refl db))
        (λ n. Quiet-bind _ _ (Quiet-commit faults) (λ _. Quiet-pure n))

  pub Quiet-fetch_parent_ids :
      (query : Db → List (Option ℤ)) (limit : Option ℕ)
      → Quiet (fetch_parent_ids faults query limit)
  unfolding fetch_parent_ids
  Quiet-fetch_parent_ids query limit =
      Quiet-bind _ _ (Quiet-execute faults _ (λ db. SameData-refl db))
        (λ ids. Quiet-bind _ _ (Quiet-commit faults) (λ _. Quiet-pure ids))
