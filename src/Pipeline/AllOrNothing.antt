-- ===== src/Pipeline/AllOrNothing.antt =====
-- What `run_entity` of ingestion/fineract_ingest/pipeline.py leaves of the loaded data, by the status
-- of its outcome.
use mathlib.Core.Path.{subst}
use fineract_analytics_platf.Prelude.{
  if◌then◌else◌, sym, ◌∙◌, ℕ, ◌≡◌, refl, ◌⊎◌, inl, inr, Bool, true, false, Option, List,
}
use fineract_analytics_platf.Values.{Value}
use fineract_analytics_platf.Outcome.{Exception, Outcome, ok, raised}
use fineract_analytics_platf.Entities.Spec.{EntitySpec}
use fineract_analytics_platf.Loader.Store.{
  rollback, Connection, LoadResult, Status, running, success, failed, skipped,
}
use fineract_analytics_platf.Loader.Quiet.{
  SameData, SameData-refl, SameData-trans, Idle, Still, Still-trans, rollback-Still,
  Quiet-start_run, Quiet-table_count,
}
use fineract_analytics_platf.Pipeline.World.{
  World, Setting, EntityOutcome, after, ◌>>=◌, pure, on_connection,
}
use fineract_analytics_platf.Pipeline.Undo.{undo-raised}
use fineract_analytics_platf.Pipeline.Checks.{Checked, check_batch}
use fineract_analytics_platf.Pipeline.Work.{write_batch}
use fineract_analytics_platf.Pipeline.Atomic.{Atomic, unit_of_work-Atomic}
use fineract_analytics_platf.Pipeline.Fetch.{fetch_records}
use fineract_analytics_platf.Pipeline.Quiet.{after-Still, QuietJob-fetch_records, QuietJob-close}
use fineract_analytics_platf.Pipeline.Entity.{
  Before, before_of, requests_of, retries_of, skip_write, report, write_and_report, try_load, undo,
  report_failed, fail_load, closed, handled, load_entity,
}

module _ (s : Setting) (spec : EntitySpec) where
  -- `d` has the committed data that all the writes of a unit of work reach from the data of `b`.
  pub record Landed (b d : Connection) : Type 0 where
    pub run_id : ℕ
    pub checked : Checked
    pub requests : ℕ
    pub retries : ℕ
    pub start : Connection
    pub result : LoadResult
    pub idle : Idle start
    pub from : SameData start.committed b.committed
    pub complete : (write_batch s spec run_id checked requests retries start).0 ≡ ok result
    pub to :
        SameData d.committed (write_batch s spec run_id checked requests retries start).1.working

  -- What the status of an outcome says of the committed data.
  abbrev pub ByStatus : Connection → Connection → Status → Type 0
  ByStatus b d success = Landed b d
  ByStatus b d skipped = SameData d.committed b.committed
  ByStatus b d failed = SameData d.committed b.committed ⊎ Landed b d
  ByStatus b d running = ⊥

  -- After a load: no data waits in the transaction, and the committed data is as the status says,
  -- or an exception went on and the data is as before, but for a rollback that fails behind the commit.
  abbrev pub AllOrNothing : Connection → Outcome EntityOutcome × World → Type 0
  AllOrNothing b (ok o, w) = Idle w.connection × ByStatus b w.connection o.status
  AllOrNothing b (raised e, w) =
      Still b w.connection
      ⊎ (Idle w.connection × Landed b w.connection × ((n : ℕ) × (s.rollback_fails n ≡ true)))

  -- After the body of the `try`, an exception may have left writes in the transaction.
  abbrev Tried : Connection → Outcome EntityOutcome × World → Type 0
  Tried b (ok o, w) = Idle w.connection × ByStatus b w.connection o.status
  Tried b (raised e, w) = SameData w.connection.committed b.committed ⊎ Landed b w.connection

  Landed-Still : {b c d : Connection} → Landed b c → Still c d → Landed b d
  Landed-Still h k = record {
    run_id = h.run_id;
    checked = h.checked;
    requests = h.requests;
    retries = h.retries;
    start = h.start;
    result = h.result;
    idle = h.idle;
    from = h.from;
    complete = h.complete;
    to = SameData-trans k.same h.to;
  }

  Still-Landed : {b c d : Connection} → Still b c → Landed c d → Landed b d
  Still-Landed k h = record {
    run_id = h.run_id;
    checked = h.checked;
    requests = h.requests;
    retries = h.retries;
    start = h.start;
    result = h.result;
    idle = h.idle;
    from = SameData-trans h.from k.same;
    complete = h.complete;
    to = h.to;
  }

  skipped_end :
      (b : Connection) (p : Outcome (Unit {0}) × World) (o : EntityOutcome)
      → o.status ≡ skipped
      → Still b p.1.connection
      → Tried b (after p (λ _. pure o))
  skipped_end b (ok _, w) o e h = (h.idle, subst (ByStatus b w.connection) (sym e) h.same)
  skipped_end b (raised x, w) o e h = inl h.same

  counted_end :
      (b : Connection) (p : Outcome ℕ × World) (f : ℕ → World → World) (o : EntityOutcome)
      → ((n : ℕ) (w : World) → (f n w).connection ≡ w.connection)
      → o.status ≡ success
      → Landed b p.1.connection
      → Idle p.1.connection
      → Tried b (after p (λ n w. (ok o, f n w)))
  counted_end b (ok n, w) f o e k h i = (
    subst Idle (sym (e n w)) i,
    subst (λ c. ByStatus b c o.status) (sym (e n w)) (subst (ByStatus b w.connection) (sym k) h),
  )
  counted_end b (raised x, w) f o e k h i = inr h

  module _ (run_id : ℕ) (before : Before) where
    skip_write-Tried :
        (b : Connection) (c : Checked) (w : World)
        → SameData w.connection.committed b.committed
        → Tried b (skip_write s spec run_id before c w)
    unfolding skip_write
    skip_write-Tried b c w h = skipped_end b _ _ refl (
        after-Still b (on_connection (rollback s.rollback_fails) w) _
          (rollback-Still s.rollback_fails b w.connection h) (λ _. QuietJob-close s spec run_id _))

    report-Tried :
        (b : Connection) (c : Checked) (result : LoadResult) (w : World)
        → Landed b w.connection
        → Idle w.connection
        → Tried b (report s spec run_id before c result w)
    unfolding report
    report-Tried b c result w h i =
        let counted = (Quiet-table_count s.faults spec.table).at w.connection i in
        counted_end b _ _ _ (λ n w. refl) refl (Landed-Still h counted) counted.idle

    module _ (b : Connection) (c : Checked) (w : World) (i : Idle w.connection)
        (h : SameData w.connection.committed b.committed) where
      written_end :
          (p : Outcome LoadResult × Connection)
          → Atomic
              (write_batch s spec run_id c (requests_of before w) (retries_of before w))
              w.connection
              p
          → Tried b (after (p.0, record w { connection = p.1 }) (report s spec run_id before c))
      written_end (ok result, d) (returned, committed, working) =
          report-Tried b c result (record w { connection = d })
            (record {
              run_id = run_id;
              checked = c;
              requests = requests_of before w;
              retries = retries_of before w;
              start = w.connection;
              result = result;
              idle = i;
              from = h;
              complete = returned;
              to = subst (SameData d.committed) committed (SameData-refl d.committed);
            })
            (subst (SameData d.working) (working ∙ sym committed) (SameData-refl d.working))
      written_end (raised e, d) same = inl (subst (λ x. SameData x b.committed) (sym same) h)

      write_and_report-Tried : Tried b (write_and_report s spec run_id before c w)
      unfolding write_and_report
      write_and_report-Tried = written_end _ (unit_of_work-Atomic s spec run_id c _ _ w.connection)

    checked_end :
        (b : Connection) (dry_run : Bool) (r : Outcome Checked) (w : World)
        → Still b w.connection
        → Tried b (
            after
              (r, w)
              (λ c.
                if dry_run
                then skip_write s spec run_id before c
                else write_and_report s spec run_id before c))
    checked_end b true (ok c) w h = skip_write-Tried b c w h.same
    checked_end b false (ok c) w h = write_and_report-Tried b c w h.idle h.same
    checked_end b dry_run (raised e) w h = inl h.same

    fetched_end :
        (b : Connection) (dry_run : Bool) (p : Outcome (List Value) × World)
        → Still b p.1.connection
        → Tried b (
            after p (λ raws. (λ w. (check_batch s spec raws, w)) >>= (λ c.
              if dry_run
              then skip_write s spec run_id before c
              else write_and_report s spec run_id before c)))
    fetched_end b dry_run (ok raws, w) h = checked_end b dry_run (check_batch s spec raws) w h
    fetched_end b dry_run (raised e, w) h = inl h.same

    try_load-Tried :
        (b : Connection) (limit : Option ℕ) (dry_run : Bool) (w : World)
        → Still b w.connection
        → Tried b (try_load s spec run_id before limit dry_run w)
    unfolding try_load
    try_load-Tried b limit dry_run w h =
        fetched_end b dry_run (fetch_records s spec limit w)
          (Still-trans h ((QuietJob-fetch_records s spec limit).at w h.idle))

    closed-Still :
        (b : Connection) (p : Outcome (Unit {0}) × World)
        → Still b p.1.connection
        → Still b (closed s spec run_id before p).1.connection
    closed-Still b (ok _, w) h = h
    closed-Still b (raised e, w) h = rollback-Still s.rollback_fails b w.connection h.same

    pub undo-Still :
        (b : Connection) (e : Exception) (w : World)
        → SameData w.connection.committed b.committed
        → Still b (undo s spec run_id before e w).1.connection
    unfolding undo
    undo-Still b e w h =
        after-Still b (on_connection (rollback s.rollback_fails) w) _
          (rollback-Still s.rollback_fails b w.connection h)
          (λ _. record {
            at = λ w i. closed-Still w.connection _ ((QuietJob-close s spec run_id _).at w i);
          })

    failed_end :
        (b : Connection) (e : Exception) (q : Outcome (Unit {0}) × World)
        → Still b q.1.connection ⊎ (Idle q.1.connection × Landed b q.1.connection)
        → ((x : Exception) → q.0 ≡ raised x → (n : ℕ) × (s.rollback_fails n ≡ true))
        → AllOrNothing b (after q (λ _. report_failed s spec run_id before e))
    unfolding report_failed
    failed_end b e (ok _, w) (inl k) f = (k.idle, inl k.same)
    failed_end b e (ok _, w) (inr (i, l)) f = (i, inr l)
    failed_end b e (raised x, w) (inl k) f = inl k
    failed_end b e (raised x, w) (inr (i, l)) f = inr (i, l, f x refl)

    handled-AllOrNothing :
        (b : Connection) (p : Outcome EntityOutcome × World)
        → Tried b p
        → AllOrNothing b (handled s spec run_id before p)
    unfolding fail_load
    handled-AllOrNothing b (ok o, w) h = h
    handled-AllOrNothing b (raised e, w) (inl h) =
        failed_end b e (undo s spec run_id before e w) (inl (undo-Still b e w h))
          (undo-raised s spec run_id before e w)
    handled-AllOrNothing b (raised e, w) (inr h) =
        let k = undo-Still w.connection e w (SameData-refl w.connection.committed) in
        failed_end b e (undo s spec run_id before e w) (inr (k.idle, Landed-Still h k))
          (undo-raised s spec run_id before e w)

  started_end :
      (b : Connection) (limit : Option ℕ) (dry_run : Bool) (p : Outcome ℕ × World)
      → Still b p.1.connection
      → AllOrNothing b (
          after p (λ run_id w.
            handled s spec run_id
              (before_of w.client)
              (try_load s spec run_id (before_of w.client) limit dry_run w)))
  started_end b limit dry_run (ok run_id, w) h =
      handled-AllOrNothing run_id (before_of w.client) b _
        (try_load-Tried run_id (before_of w.client) b limit dry_run w h)
  started_end b limit dry_run (raised e, w) h = inl h

  -- On a connection without loaded data in its transaction, with any failures of statements,
  -- commits and rollbacks, the load of an entity leaves none there. The committed data is the same
  -- as before where the load was skipped or raised, that of all the writes of one unit of work where
  -- it succeeded, and one of the two where it failed. Only where a rollback fails may it raise and
  -- the data be that of all the writes.
  pub load_entity-AllOrNothing :
      (limit : Option ℕ) (dry_run : Bool) (w : World)
      → Idle w.connection
      → AllOrNothing w.connection (load_entity s limit dry_run spec w)
  unfolding load_entity
  load_entity-AllOrNothing limit dry_run w i =
      started_end w.connection limit dry_run _
        ((Quiet-start_run s.faults spec.name).at w.connection i)
