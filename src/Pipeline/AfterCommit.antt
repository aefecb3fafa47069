-- ===== src/Pipeline/AfterCommit.antt =====
-- `run_entity` of ingestion/fineract_ingest/pipeline.py, where the count of the table after the commit
-- fails.
use mathlib.Core.Path.{subst}
use fineract_analytics_platf.Prelude.{ℕ, ◌+◌, ◌≡◌, refl, sym, ap, ◌∙◌, String, true}
use fineract_analytics_platf.Outcome.{Exception, Outcome, ok, raised, database}
use fineract_analytics_platf.Entities.Spec.{EntitySpec}
use fineract_analytics_platf.Loader.Store.{
  Db, Connection, Faults, LoadResult, load_result, failed, execute, after as after_statement, pure,
  commit, ◌>>◌,
}
use fineract_analytics_platf.Loader.Control.{table_count}
use fineract_analytics_platf.Loader.Quiet.{SameData, SameData-refl, SameData-trans}
use fineract_analytics_platf.Pipeline.World.{World, Setting, EntityOutcome, Job, after}
use fineract_analytics_platf.Pipeline.Checks.{Checked}
use fineract_analytics_platf.Pipeline.Work.{unit_of_work}
use fineract_analytics_platf.Pipeline.AllOrNothing.{undo-Still}
use fineract_analytics_platf.Pipeline.Undo.{RollsBack, undo-returns}
use fineract_analytics_platf.Pipeline.Entity.{
  Before, requests_of, retries_of, report, write_and_report, undo, report_failed, fail_load,
  handled,
}

abbrev later : Connection → Connection
later c = record c { clock = c.clock + 1 }

module _ {A : Type 0} where
  execute_fails :
      (faults : Faults) (f : Db → Outcome A × Db) (c : Connection)
      → faults c.clock ≡ true
      → execute faults f c ≡ (raised database, later c)
  unfolding execute
  execute_fails faults f c h = rw h

table_count_fails :
    (faults : Faults) (table : String) (c : Connection)
    → faults c.clock ≡ true
    → table_count faults table c ≡ (raised database, later c)
unfolding table_count
table_count_fails faults table c h =
    ap (λ p. after_statement p (λ n. commit faults >> pure n)) (execute_fails faults _ c h)

-- The load is reported as failed, with no counts, though `d` is committed.
abbrev pub LostReport : String → Db → Outcome EntityOutcome × World → Type 0
LostReport name d (ok o, w) =
    (o.status ≡ failed) × (o.result ≡ load_result name) × SameData w.connection.committed d
LostReport name d (raised e, w) = ⊥

module _ {A B : Type 0} where
  after-raised :
      (p : Outcome A × Connection) (f : A → Job B) (w : World) (e : Exception) (d : Connection)
      → p ≡ (raised e, d)
      → after (p.0, record w { connection = p.1 }) f ≡ (raised e, record w { connection = d })
  after-raised p f w e d h = ap (λ q. after (q.0, record w { connection = q.1 }) f) h

  after-ok :
      (p : Outcome A × Connection) (f : A → Job B) (w : World) (a : A) (d : Connection)
      → p ≡ (ok a, d)
      → after (p.0, record w { connection = p.1 }) f ≡ f a (record w { connection = d })
  after-ok p f w a d h = ap (λ q. after (q.0, record w { connection = q.1 }) f) h

module _ (s : Setting) (spec : EntitySpec) (run_id : ℕ) (before : Before) where
  report_fails :
      (c : Checked) (result : LoadResult) (w : World)
      → s.faults w.connection.clock ≡ true
      → report s spec run_id before c result w
        ≡ (raised database, record w { connection = later w.connection })
  unfolding report
  report_fails c result w h =
      after-raised _ _ w database (later w.connection)
        (table_count_fails s.faults spec.table w.connection h)

  write_and_report_fails :
      (c : Checked) (w : World) (result : LoadResult) (d : Connection)
      → unit_of_work s spec run_id c (requests_of before w) (retries_of before w) w.connection
        ≡ (ok result, d)
      → s.faults d.clock ≡ true
      → write_and_report s spec run_id before c w
        ≡ (raised database, record w { connection = later d })
  unfolding write_and_report
  write_and_report_fails c w result d e h =
      after-ok _ _ w result d e ∙ report_fails c result (record w { connection = d }) h

  lost :
      (w : World) (d : Db)
      → RollsBack s
      → SameData w.connection.committed d
      → LostReport spec.name d (handled s spec run_id before (raised database, w))
  unfolding fail_load report_failed
  lost w d r h =
      let q = undo s spec run_id before database w in
      let same =
        SameData-trans
          (undo-Still s spec run_id before w.connection database w
            (SameData-refl w.connection.committed)).same
          h in
      subst
        (λ (u : Outcome (Unit {0})).
          LostReport spec.name d
            (after (u, q.1) (λ _. report_failed s spec run_id before database)))
        (sym (undo-returns s spec run_id before database w r)) (refl, refl, same)

  -- Where the unit of work of a load has returned, so that its rows are committed, and the next
  -- statement fails, which counts the rows of the table for the metrics, the load is reported as
  -- failed and with no counts, and the committed data is still that of the unit of work. No rollback
  -- fails.
  pub write_and_report-LostReport :
      (c : Checked) (w : World) (result : LoadResult) (d : Connection)
      → RollsBack s
      → unit_of_work s spec run_id c (requests_of before w) (retries_of before w) w.connection
        ≡ (ok result, d)
      → s.faults d.clock ≡ true
      → LostReport spec.name d.committed
          (handled s spec run_id before (write_and_report s spec run_id before c w))
  write_and_report-LostReport c w result d r e h =
      subst (λ p. LostReport spec.name d.committed (handled s spec run_id before p))
        (sym (write_and_report_fails c w result d e h))
        (lost (record w { connection = later d }) d.committed r (SameData-refl d.committed))
