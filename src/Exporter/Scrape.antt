-- ===== src/Exporter/Scrape.antt =====
-- `PipelineExporter` of observability/exporter/pipeline_exporter/exporter.py: `run_once` and `_apply`.
-- The clock of the durations is left out: `timed` lists the collectors whose duration was set.
use fineract_analytics_platf.Prelude.{
  ℕ, zero, suc, ◌+◌, String, ◌&&◌, false, Option, none, some, List, [], ◌∷◌, str_eq, if◌then◌else◌,
}
use fineract_analytics_platf.Outcome.{Outcome, ok, raised}
use fineract_analytics_platf.Exporter.Sources.{Sources, Executors}
use fineract_analytics_platf.Exporter.Samples.{MetricSample, Results}
use fineract_analytics_platf.Exporter.Collectors.{Collector}
use fineract_analytics_platf.Exporter.Gauges.{GaugeOps, build_gauges}

-- `_gauges`, `_collector_errors`, the label sets of `_scrape_duration`, and the executors.
pub record Exporter (G : Type 0) : Type 0 where
  pub gauges : String → String → Option G
  pub errors : String → ℕ
  pub timed : List String
  pub executors : Executors

-- PipelineExporter.__init__
unfoldable pub init_exporter : {G : Type 0} → GaugeOps G → Exporter G
init_exporter ops = record {
  gauges = build_gauges ops;
  errors = λ c. 0;
  timed = [];
  executors = record { connected = false; calls = 0 };
}

module _ {G : Type 0} (ops : GaugeOps G) where
  -- `for sample in samples`: the gauge as far as it got, where a sample raises.
  unfoldable pub set_samples : List MetricSample → G → Outcome (Unit {0}) × G
  set_samples [] g = (ok tt, g)
  set_samples (s ∷ ss) g = elim (ops.set s.labels s.value g) [
    | raised e ↦ (raised e, g)
    | ok h ↦ set_samples ss h
  ]

  -- gauges[(c, k)] = g
  abbrev pub put_gauge :
      String → String → G → (String → String → Option G) → String → String → Option G
  put_gauge c k g gauges d l = if str_eq c d && str_eq k l then some g else gauges d l

  abbrev and_then :
      Outcome (Unit {0})
      → (String → String → Option G)
      → ((String → String → Option G) → Outcome (Unit {0}) × (String → String → Option G))
      → Outcome (Unit {0}) × (String → String → Option G)
  and_then (raised e) gauges f = (raised e, gauges)
  and_then (ok _) gauges f = f gauges

  -- PipelineExporter._apply: an unmapped key is skipped.
  unfoldable pub apply :
      String
      → Results
      → (String → String → Option G)
      → Outcome (Unit {0}) × (String → String → Option G)
  apply c [] gauges = (ok tt, gauges)
  apply c ((k, ss) ∷ results) gauges = elim (gauges c k) [
    | none ↦ apply c results gauges
    | some g ↦
        let (r, h) = set_samples ss (ops.clear g) in
        and_then r (put_gauge c k h gauges) (apply c results)
  ]

  -- `labels(collector=c).inc()`
  abbrev pub count_error : String → (String → ℕ) → String → ℕ
  count_error c errors d = if str_eq c d then errors d + 1 else errors d

  -- What `_apply` has left, whether it has raised or not.
  abbrev pub keep :
      String
      → Executors
      → Exporter G
      → Outcome (Unit {0}) × (String → String → Option G)
      → Exporter G
  keep c s x (ok _, gauges) = record x { gauges = gauges; executors = s }
  keep c s x (raised e, gauges) = record x {
    gauges = gauges;
    errors = count_error c x.errors;
    executors = s;
  }

  -- The `try` of `run_once` and its handler, behind `collect`.
  unfoldable pub collected : String → Outcome Results × Executors → Exporter G → Exporter G
  collected c (raised e, s) x = record x { errors = count_error c x.errors; executors = s }
  collected c (ok results, s) x = keep c s x (apply c results x.gauges)

  -- One pass of the loop in `run_once`, with its `finally`
  unfoldable pub run_collector : Sources → Collector → Exporter G → Exporter G
  run_collector src c x =
      let y = collected c.name (c.collect src x.executors) x in
      record y { timed = c.name ∷ y.timed }

  -- PipelineExporter.run_once, over some collectors
  unfoldable pub run_once : Sources → List Collector → Exporter G → Exporter G
  run_once src [] x = x
  run_once src (c ∷ cs) x = run_once src cs (run_collector src c x)

  -- The first `n` passes of `_loop`; the sources go on from one to the next.
  unfoldable pub loop : ℕ → Sources → List Collector → Exporter G → Exporter G
  loop zero src cs x = x
  loop (suc n) src cs x = loop n src cs (run_once src cs x)
