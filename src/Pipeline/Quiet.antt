-- ===== src/Pipeline/Quiet.antt =====
-- The fetch of ingestion/fineract_ingest/pipeline.py against the loaded data.
use fineract_analytics_platf.Prelude.{ℕ, Option, List, [], ◌∷◌}
use fineract_analytics_platf.Prelude.Int.{ℤ}
use fineract_analytics_platf.Outcome.{Outcome, ok, raised}
use fineract_analytics_platf.Entities.Spec.{EntitySpec, full, parent, Mode}
use fineract_analytics_platf.Loader.Store.{Connection, Tx, commit}
use fineract_analytics_platf.Loader.Control.{finish_run}
use fineract_analytics_platf.Loader.Quiet.{
  Idle, Still, Still-refl, Still-trans, Quiet, Quiet-finish_run, Quiet-commit,
  Quiet-fetch_parent_ids,
}
use fineract_analytics_platf.Pipeline.World.{
  World, Setting, Job, after, ◌>>=◌, ◌>>◌, pure, on_connection,
}
use fineract_analytics_platf.Pipeline.Fetch.{
  fetch_as, fetch_records, fetch_children, fetch_flat, walk,
}
use fineract_analytics_platf.Loader.Control.{Closing}

-- A job that leaves the loaded data alone.
pub record QuietJob {A : Type 0} (m : Job A) : Type 0 where
  pub at : (w : World) → Idle w.connection → Still w.connection (m w).1.connection

module _ {A : Type 0} where
  QuietJob-pure : (a : A) → QuietJob (pure a)
  QuietJob-pure a = record { at = λ w h. Still-refl w.connection h }

  pub QuietJob-on_connection : (m : Tx A) → Quiet m → QuietJob (on_connection m)
  QuietJob-on_connection m h = record { at = λ w i. h.at w.connection i }

module _ {A B : Type 0} where
  pub after-Still :
      (b : Connection) (p : Outcome A × World) (f : A → Job B)
      → Still b p.1.connection
      → ((a : A) → QuietJob (f a))
      → Still b (after p f).1.connection
  after-Still b (ok a, w) f h k = Still-trans h ((k a).at w h.idle)
  after-Still b (raised e, w) f h k = h

  pub QuietJob-bind :
      (m : Job A) (f : A → Job B) → QuietJob m → ((a : A) → QuietJob (f a)) → QuietJob (m >>= f)
  QuietJob-bind m f h k = record { at = λ w i. after-Still w.connection (m w) f (h.at w i) k }

module _ (s : Setting) (spec : EntitySpec) where
  QuietJob-fetch_flat : QuietJob (fetch_flat s spec)
  unfolding fetch_flat walk
  QuietJob-fetch_flat = record { at = λ w h. Still-refl w.connection h }

  QuietJob-fetch_children : (ids : List ℤ) → QuietJob (fetch_children s spec ids)
  unfolding fetch_children walk
  QuietJob-fetch_children [] = QuietJob-pure []
  QuietJob-fetch_children (id ∷ ids) =
      QuietJob-bind _ _ (record { at = λ w h. Still-refl w.connection h })
        (λ vs. QuietJob-bind _ _ (QuietJob-fetch_children ids) (λ rest. QuietJob-pure _))

  QuietJob-fetch_as : (limit : Option ℕ) (m : Mode) → QuietJob (fetch_as s spec limit m)
  QuietJob-fetch_as limit full = QuietJob-fetch_flat
  QuietJob-fetch_as limit parent =
      QuietJob-bind _ _ (QuietJob-on_connection _ (Quiet-fetch_parent_ids s.faults _ limit))
        QuietJob-fetch_children

  pub QuietJob-fetch_records : (limit : Option ℕ) → QuietJob (fetch_records s spec limit)
  unfolding fetch_records
  QuietJob-fetch_records limit = QuietJob-fetch_as limit spec.mode

  pub QuietJob-close :
      (run_id : ℕ) (c : Closing)
      → QuietJob (on_connection (finish_run s.faults run_id c) >> on_connection (commit s.faults))
  QuietJob-close run_id c =
      QuietJob-bind _ _ (QuietJob-on_connection _ (Quiet-finish_run s.faults run_id c))
        (λ _. QuietJob-on_connection _ (Quiet-commit s.faults))
