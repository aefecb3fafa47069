-- ===== src/Pipeline/Atomic.antt =====
-- The unit of work of `run_entity` in ingestion/fineract_ingest/pipeline.py under failing statements.
use fineract_analytics_platf.Prelude.{ℕ, ◌+◌, ◌≡◌, refl, sym, inl, inr, true, false, Bool-cases}
use mathlib.Core.Path.{subst}
use fineract_analytics_platf.Outcome.{database, Outcome, ok, raised}
use fineract_analytics_platf.Entities.Spec.{EntitySpec}
use fineract_analytics_platf.Loader.Store.{Connection, Faults, Tx, after, ◌>>=◌, ◌>>◌, pure, commit}
use fineract_analytics_platf.Loader.Uncommitted.{
  Uncommitted, Uncommitted-bind, Uncommitted-pure, Uncommitted-upsert, Uncommitted-record_rejects,
  Uncommitted-record_expectations, Uncommitted-update_watermark, Uncommitted-finish_run,
}
use fineract_analytics_platf.Pipeline.World.{Setting}
use fineract_analytics_platf.Pipeline.Checks.{Checked}
use fineract_analytics_platf.Pipeline.Work.{write_batch, unit_of_work}

write_batch-Uncommitted :
    (s : Setting) (spec : EntitySpec) (run_id : ℕ) (c : Checked) (requests retries : ℕ)
    → Uncommitted (write_batch s spec run_id c requests retries)
unfolding write_batch
write_batch-Uncommitted s spec run_id c requests retries =
    Uncommitted-bind _ _
      (Uncommitted-upsert s.faults s.batch_size spec.table spec.primary_key c.batch.rows)
      λ loaded.
        Uncommitted-bind _ _ (Uncommitted-record_rejects s.faults c.batch.rejects) λ rejected.
          Uncommitted-bind _ _ (Uncommitted-record_expectations s.faults spec.name c.expectations)
            λ _. Uncommitted-bind _ _ (Uncommitted-update_watermark s.faults spec.name _ _) λ _.
              Uncommitted-bind _ _ (Uncommitted-finish_run s.faults run_id _)
                λ _. Uncommitted-pure _

-- What a transaction that ends in a commit has done, by how it ended: it returns what its writes
-- return and commits exactly the state that they reach, or it raises and commits nothing.
abbrev pub Atomic : {A : Type 0} → Tx A → Connection → Outcome A × Connection → Type 0
Atomic writes c (ok a, d) =
    ((writes c).0 ≡ ok a)
    × (d.committed ≡ (writes c).1.working)
    × (d.working ≡ (writes c).1.working)
Atomic writes c (raised e, d) = d.committed ≡ c.committed

commit_fails :
    (faults : Faults) (d : Connection)
    → faults d.clock ≡ true
    → commit faults d ≡ (raised database, record d { clock = d.clock + 1 })
unfolding commit
commit_fails faults d h = rw h

commit_works :
    (faults : Faults) (d : Connection)
    → faults d.clock ≡ false
    → commit faults d ≡ (ok tt, record d { committed = d.working; clock = d.clock + 1 })
unfolding commit
commit_works faults d h = rw h

module _ {A : Type 0} (faults : Faults) (writes : Tx A) (c : Connection) where
  commit-Atomic :
      (a : A) (d : Connection)
      → (writes c).0 ≡ ok a
      → (writes c).1 ≡ d
      → d.committed ≡ c.committed
      → Atomic writes c ((commit faults >> pure a) d)
  commit-Atomic a d e f h = elim (Bool-cases (faults d.clock)) [
    | inl fails ↦
        subst (λ p. Atomic writes c (after p (λ _. pure a))) (sym (commit_fails faults d fails)) h
    | inr works ↦
        subst (λ p. Atomic writes c (after p (λ _. pure a))) (sym (commit_works faults d works))
          (e, rw f, rw f)
  ]

  bind-Atomic :
      (r : Outcome A) (d : Connection)
      → (writes c).0 ≡ r
      → (writes c).1 ≡ d
      → d.committed ≡ c.committed
      → Atomic writes c (((λ _. (r, d)) >>= λ a. commit faults >> pure a) c)
  bind-Atomic (ok a) d e f h = commit-Atomic a d e f h
  bind-Atomic (raised x) d e f h = h

-- Whichever statements and commits fail, the unit of work of an entity returns what its writes return
-- and commits exactly the state that they reach, or it raises and commits nothing.
pub unit_of_work-Atomic :
    (s : Setting) (spec : EntitySpec) (run_id : ℕ) (c : Checked) (requests retries : ℕ)
    (w : Connection)
    → Atomic
        (write_batch s spec run_id c requests retries)
        w
        (unit_of_work s spec run_id c requests retries w)
unfolding unit_of_work
unit_of_work-Atomic s spec run_id c requests retries w =
    let writes = write_batch s spec run_id c requests retries in
    bind-Atomic s.faults writes w (writes w).0 (writes w).1 refl refl
      ((write_batch-Uncommitted s spec run_id c requests retries).at w)
