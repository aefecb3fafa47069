-- ===== src/Pipeline/Isolation.antt =====
-- How `run_entity` of ingestion/fineract_ingest/pipeline.py ends after `start_run`.
use fineract_analytics_platf.Prelude.{
  ℕ, ◌≡◌, refl, ap, ◌∙◌, Bool, true, false, none, some, length, Option, List, if◌then◌else◌,
}
use fineract_analytics_platf.Values.{Value}
use fineract_analytics_platf.Outcome.{Outcome, ok, raised}
use fineract_analytics_platf.Entities.Spec.{EntitySpec}
use fineract_analytics_platf.Loader.Store.{
  LoadResult, load_result, skipped, success, commit, rollback,
}
use fineract_analytics_platf.Loader.Control.{start_run, finish_run, table_count}
use fineract_analytics_platf.Pipeline.World.{
  World, Setting, EntityOutcome, Job, after, ◌>>=◌, ◌>>◌, pure, on_connection, record_load,
}
use fineract_analytics_platf.Pipeline.Checks.{Checked, check_batch}
use fineract_analytics_platf.Pipeline.Fetch.{fetch_records}
use fineract_analytics_platf.Pipeline.Work.{unit_of_work}
use fineract_analytics_platf.Pipeline.Entity.{
  Before, before_of, outcome, closing, requests_of, retries_of, skip_write, report,
  write_and_report, try_load, undo, report_failed, fail_load, handled, load_entity,
}
use fineract_analytics_platf.Pipeline.Undo.{RollsBack, undo-returns}

module _ (s : Setting) (spec : EntitySpec) where
  abbrev NamedBy : Outcome EntityOutcome × World → Type 0
  NamedBy (ok o, w) = o.entity ≡ spec.name
  NamedBy (raised e, w) = Unit

  -- An outcome that is returned is that of the entity.
  record Named (p : Outcome EntityOutcome × World) : Type 0 where
    pub by : NamedBy p

  after_by :
      {A : Type 0} (p : Outcome A × World) (f : A → Job EntityOutcome)
      → ((a : A) (w : World) → Named (f a w))
      → NamedBy (after p f)
  after_by (ok a, w) f h = (h a w).by
  after_by (raised e, w) f h = tt

  Named-after :
      {A : Type 0} (p : Outcome A × World) (f : A → Job EntityOutcome)
      → ((a : A) (w : World) → Named (f a w))
      → Named (after p f)
  Named-after p f h = record { by = after_by p f h }

  module _ (run_id : ℕ) (before : Before) where
    skip_write-Named : (c : Checked) (w : World) → Named (skip_write s spec run_id before c w)
    unfolding skip_write
    skip_write-Named c w =
        let result = record (load_result spec.name) {
          rows_read = length c.batch.rows;
          rows_rejected = length c.batch.rejects;
        } in
        let done = outcome spec.name skipped result c.expectations in
        Named-after
          ((on_connection (rollback s.rollback_fails)
              >> (on_connection (finish_run s.faults run_id (closing skipped result none))
                  >> on_connection (commit s.faults)))
            w)
          (λ _. pure done) (λ u w. record { by = refl })

    report-Named :
        (c : Checked) (r : LoadResult) (w : World) → Named (report s spec run_id before c r w)
    unfolding report
    report-Named c r w =
        Named-after (on_connection (table_count s.faults spec.table) w)
          (λ n.
            record_load (record {
              entity = spec.name;
              result = r;
              api_requests = requests_of before w;
              api_retries = retries_of before w;
              status = success;
              table_rows = some n;
            })
            >> pure (outcome spec.name success r c.expectations))
          (λ n w. record { by = refl })

    write_and_report-Named :
        (c : Checked) (w : World) → Named (write_and_report s spec run_id before c w)
    unfolding write_and_report
    write_and_report-Named c w =
        Named-after
          (on_connection (unit_of_work s spec run_id c (requests_of before w) (retries_of before w))
            w)
          (report s spec run_id before c) (λ r w. report-Named c r w)

    checked-Named :
        (dry_run : Bool) (c : Checked) (w : World)
        → Named (
            (if dry_run
                then skip_write s spec run_id before c
                else write_and_report s spec run_id before c)
              w)
    checked-Named true c w = skip_write-Named c w
    checked-Named false c w = write_and_report-Named c w

    try_load-Named :
        (limit : Option ℕ) (dry_run : Bool) (w : World)
        → Named (try_load s spec run_id before limit dry_run w)
    unfolding try_load
    try_load-Named limit dry_run w =
        let write : Checked → Job EntityOutcome = λ c.
          if dry_run
          then skip_write s spec run_id before c
          else write_and_report s spec run_id before c in
        let check : List Value → Job Checked = λ raws w. (check_batch s spec raws, w) in
        Named-after (fetch_records s spec limit w) (λ raws. check raws >>= write)
          (λ raws w. Named-after (check raws w) write (λ c w. checked-Named dry_run c w))

    handled-returns :
        (p : Outcome EntityOutcome × World)
        → RollsBack s
        → NamedBy p
        → (o : EntityOutcome) × ((handled s spec run_id before p).0 ≡ ok o) × (o.entity ≡ spec.name)
    unfolding fail_load report_failed
    handled-returns (ok o, w) r h = (o, refl, h)
    handled-returns (raised e, w) r h =
        let q = undo s spec run_id before e w in
        (
          _,
          ap
              (λ (u : Outcome (Unit {0})).
                (after (u, q.1) (λ _. report_failed s spec run_id before e)).0)
              (undo-returns s spec run_id before e w r),
          refl,
        )

  after-ok :
      {A B : Type 0} (p : Outcome A × World) (f : A → Job B) (a : A)
      → p.0 ≡ ok a
      → after p f ≡ f a p.1
  after-ok p f a h = ap (λ o. after (o, p.1) f) h

  -- Once `start_run` has returned, the load of an entity returns an outcome of that entity, whatever
  -- the server answers and whatever statements and commits fail, as long as no rollback does.
  pub load_entity-returns :
      (limit : Option ℕ) (dry_run : Bool) (w : World) (run_id : ℕ)
      → RollsBack s
      → (start_run s.faults spec.name w.connection).0 ≡ ok run_id
      → (o : EntityOutcome) × ((load_entity s limit dry_run spec w).0 ≡ ok o)
        × (o.entity ≡ spec.name)
  unfolding load_entity
  load_entity-returns limit dry_run w run_id r h =
      let w' : World = record w { connection = (start_run s.faults spec.name w.connection).1 } in
      let f : ℕ → Job EntityOutcome = λ run_id w.
        handled s spec run_id (before_of w.client)
          (try_load s spec run_id (before_of w.client) limit dry_run w) in
      let k =
        handled-returns run_id (before_of w'.client) _ r
          (try_load-Named run_id (before_of w'.client) limit dry_run w').by in
      (
        k.0,
        ap (λ p. p.0) (after-ok ((start_run s.faults spec.name w.connection).0, w') f run_id h)
            ∙ k.1,
        k.2,
      )
