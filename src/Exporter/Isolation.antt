-- ===== src/Exporter/Isolation.antt =====
-- What `run_once` of observability/exporter/pipeline_exporter/exporter.py reports, collector by
-- collector.
use mathlib.Core.Path.{subst}
use fineract_analytics_platf.Prelude.{
  ℕ, ◌+◌, String, ◌≡◌, refl, sym, ap, ◌∙◌, Option, none, some, List, [], ◌∷◌, All, str_eq,
  if◌then◌else◌,
}
use fineract_analytics_platf.Values.{Text, Number}
use fineract_analytics_platf.Outcome.{Outcome, ok, raised}
use fineract_analytics_platf.Exporter.Sources.{Sources, Executors}
use fineract_analytics_platf.Exporter.Samples.{Results}
use fineract_analytics_platf.Exporter.Collectors.{Collector, all_collectors}
use fineract_analytics_platf.Exporter.Gauges.{
  GaugeOps, Spec, specs, find_spec, build_gauges, gauge_for,
}
use fineract_analytics_platf.Exporter.Labels.{Carries}
use fineract_analytics_platf.Exporter.Declared.{IsDeclared, all_collectors-IsDeclared}
use fineract_analytics_platf.Exporter.Scrape.{
  Exporter, init_exporter, keep, collected, run_collector, run_once,
}
use fineract_analytics_platf.Exporter.Readings.{applied, reading, HasGauges, Matches, apply-Applied}

-- How each collector's `collect` ends, one after the other, whatever the gauges are.
abbrev pub outcomes : Sources → List Collector → Executors → List (String × Outcome Results)
outcomes src [] s = []
outcomes src (c ∷ cs) s = let (r, t) = c.collect src s in (c.name, r) ∷ outcomes src cs t

-- The collectors of a name that raised, added to `n`.
abbrev pub failures : String → List (String × Outcome Results) → ℕ → ℕ
failures d [] n = n
failures d ((c, ok results) ∷ outs) n = failures d outs n
failures d ((c, raised e) ∷ outs) n = failures d outs (if str_eq c d then n + 1 else n)

module _ {G : Type 0} (ops : GaugeOps G) where
  -- The reading that the outcomes ask for, where `v` was before: a collector that raised leaves it.
  abbrev pub reported :
      List (String × Outcome Results) → String → String → List Text → Option Number → Option Number
  reported [] d l key v = v
  reported ((c, ok results) ∷ outs) d l key v =
      reported outs d l key (applied ops c results d l key v)
  reported ((c, raised e) ∷ outs) d l key v = reported outs d l key v

  -- The exporter `y` shows what the outcomes ask for, where `x` was before.
  pub record Shows (outs : List (String × Outcome Results)) (x y : Exporter G) : Type 0 where
    pub has : HasGauges ops y.gauges
    pub readings :
        (d l : String) (key : List Text)
        → reading ops (y.gauges d l) key ≡ reported outs d l key (reading ops (x.gauges d l) key)
    pub errors : (d : String) → y.errors d ≡ failures d outs (x.errors d)

  Shows-cons :
      (c : String) (r : Outcome Results) (outs : List (String × Outcome Results))
      (x y z : Exporter G)
      → Shows ((c, r) ∷ []) x y
      → Shows outs y z
      → Shows ((c, r) ∷ outs) x z
  Shows-cons c (ok results) outs x y z h k = record {
    has = k.has;
    readings = λ d l key. k.readings d l key ∙ ap (reported outs d l key) (h.readings d l key);
    errors = λ d. k.errors d ∙ ap (failures d outs) (h.errors d);
  }
  Shows-cons c (raised e) outs x y z h k = record {
    has = k.has;
    readings = λ d l key. k.readings d l key ∙ ap (reported outs d l key) (h.readings d l key);
    errors = λ d. k.errors d ∙ ap (failures d outs) (h.errors d);
  }

  collected-Shows :
      (c : String) (r : Outcome Results) (s : Executors) (x : Exporter G)
      → HasGauges ops x.gauges
      → Carries (All (IsDeclared c)) r
      → Shows ((c, r) ∷ []) x (collected ops c (r, s) x)
        × ((collected ops c (r, s) x).executors ≡ s)
  unfolding collected
  collected-Shows c (raised e) s x has declared =
      (record { has = has; readings = λ d l key. refl; errors = λ d. refl }, refl)
  collected-Shows c (ok results) s x has declared =
      let a = apply-Applied ops c results x.gauges has declared in
      subst
        (λ o.
          Shows ((c, ok results) ∷ []) x (keep ops c s x o) × ((keep ops c s x o).executors ≡ s))
        (sym a.applies) (record { has = a.has; readings = a.readings; errors = λ d. refl }, refl)

  run_once-Shows :
      (src : Sources) (cs : List Collector) (x : Exporter G)
      → HasGauges ops x.gauges
      → All (λ c. (s : Executors) → Carries (All (IsDeclared c.name)) (c.collect src s).0) cs
      → Shows (outcomes src cs x.executors) x (run_once ops src cs x)
  unfolding run_once run_collector
  run_once-Shows src [] x has declared = record {
    has = has;
    readings = λ d l key. refl;
    errors = λ d. refl;
  }
  run_once-Shows src (c ∷ cs) x has declared =
      let o = c.collect src x.executors in
      let h = collected-Shows c.name o.0 o.1 x has (declared.0 x.executors) in
      let y = run_collector ops src c x in
      let first : Shows ((c.name, o.0) ∷ []) x y = record {
        has = h.0.has;
        readings = h.0.readings;
        errors = h.0.errors;
      } in
      let rest = run_once-Shows src cs y first.has declared.1 in
      Shows-cons c.name o.0 (outcomes src cs o.1) x y (run_once ops src cs y) first
        (subst (λ s. Shows (outcomes src cs s) y (run_once ops src cs y)) h.1 rest)

  -- The gauges that the exporter starts with.
  pub init_exporter-HasGauges : HasGauges ops (init_exporter ops).gauges
  unfolding init_exporter build_gauges
  init_exporter-HasGauges c k = gauge_for-Matches (find_spec c k specs)
    where
      gauge_for-Matches : (o : Option Spec) → Matches ops o (gauge_for ops o)
      gauge_for-Matches none = tt
      gauge_for-Matches (some s) = ops.names-new s.labelnames

-- Collectors are isolated from each other. After a scrape of all nine, whatever the databases answer,
-- each gauge reads, at any label texts, what the outcomes of the collectors ask for: the collector
-- that owns the gauge has replaced every label set by those of its new samples if its `collect`
-- succeeded, and left the gauge as it was if it raised; and the error counter of a collector has gone
-- up by one if and only if it raised. The exporter has its gauges before, as it has from the start.
pub run_once-reports :
    {G : Type 0} (ops : GaugeOps G) (src : Sources) (x : Exporter G)
    → HasGauges ops x.gauges
    → Shows ops (outcomes src all_collectors x.executors) x (run_once ops src all_collectors x)
run_once-reports ops src x has =
    run_once-Shows ops src all_collectors x has (all_collectors-IsDeclared src)
