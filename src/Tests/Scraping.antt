-- ===== src/Tests/Scraping.antt =====
-- Tests of the exporter, with gauges that are lists of label texts and values.
use fineract_analytics_platf.Prelude.{
  String, ◌≡◌, ◌≢◌, refl, sym, inl, inr, Bool, true, false, ◌&&◌, Option, none, some, List, [], ◌∷◌,
  All, str_eq, str_eq_refl, if◌then◌else◌, Bool-cases,
}
use fineract_analytics_platf.Prelude.Int.{pos}
use fineract_analytics_platf.Values.{Value, int, Text, chars, Number, fin}
use fineract_analytics_platf.Outcome.{Outcome, ok, raised, value_error}
use fineract_analytics_platf.Exporter.Sources.{
  Sources, rows, response, pg_query, ch_query, ask, connect, retried,
}
use fineract_analytics_platf.Parsers.Scalars.{float_of}
use fineract_analytics_platf.Exporter.Rows.{
  run_samples, success_samples, reject_sample, slot_samples,
}
use fineract_analytics_platf.Exporter.Samples.{Labels, float_or_zero}
use fineract_analytics_platf.Exporter.Collectors.{
  collect_ingestion_runs, collect_rejects, collect_slots, collect_cdc_freshness, collect_raw_tables,
  collect_parse_errors, collect_reconciliation, collect_merge_health, collect_dbt_results,
  all_collectors,
}
use fineract_analytics_platf.Exporter.Gauges.{GaugeOps, names_of, find_spec, specs, build_gauges}
use fineract_analytics_platf.Exporter.Labels.{Carries}
use fineract_analytics_platf.Exporter.Declared.{IsDeclared, all_collectors-IsDeclared}
use fineract_analytics_platf.Exporter.Scrape.{
  init_exporter, run_once, run_collector, collected, apply, set_samples,
}
use fineract_analytics_platf.Exporter.Readings.{reading, texts_eq, texts_eq-true, texts_eq_refl}
use fineract_analytics_platf.Exporter.Isolation.{
  outcomes, Shows, init_exporter-HasGauges, run_once-reports,
}

record Plain : Type 0 where
  labelnames : List String
  series : List (List Text × Number)

abbrev names_eq : List String → List String → Bool
names_eq [] [] = true
names_eq (a ∷ as1) (b ∷ bs) = str_eq a b && names_eq as1 bs
names_eq _ _ = false

names_eq_refl : (ns : List String) → names_eq ns ns ≡ true
names_eq_refl [] = refl
names_eq_refl (n ∷ ns) = rw (str_eq_refl n, names_eq_refl ns)

abbrev text_of : Value → Text
text_of (Value.text t) = t
text_of _ = []

abbrev texts_of : Labels → List Text
texts_of [] = []
texts_of ((_, v) ∷ ls) = text_of v ∷ texts_of ls

abbrev found : List (List Text × Number) → List Text → Option Number
found [] k = none
found ((j, x) ∷ series) k = if texts_eq j k then some x else found series k

abbrev set_plain : Labels → Number → Plain → Outcome Plain
set_plain ls x g =
    if names_eq (names_of ls) g.labelnames
    then ok (record g { series = (texts_of ls, x) ∷ g.series })
    else raised value_error

found-other :
    (j k : List Text) (x : Number) (series : List (List Text × Number))
    → k ≢ j
    → found ((j, x) ∷ series) k ≡ found series k
found-other j k x series h = elim (Bool-cases (texts_eq j k)) [
  | inl y ↦ absurd (h (sym (texts_eq-true j k y)))
  | inr n ↦ rw n
]

abbrev plain : GaugeOps Plain
plain = record {
  new = λ ns. record { labelnames = ns; series = [] };
  clear = λ g. record g { series = [] };
  set = set_plain;
  names = λ g. g.labelnames;
  key = texts_of;
  value = λ g. found g.series;
  names-new = λ ns. refl;
  names-clear = λ g. refl;
  value-clear = λ g k. refl;
  set-names = λ ls x g e. (
    record g { series = (texts_of ls, x) ∷ g.series },
    set_plain-ok ls x g e,
    refl,
    rw (texts_eq_refl (texts_of ls)),
    λ k h. found-other (texts_of ls) k x g.series h,
  );
}
  where
    set_plain-ok :
        (ls : Labels) (x : Number) (g : Plain)
        → names_of ls ≡ g.labelnames
        → set_plain ls x g ≡ ok (record g { series = (texts_of ls, x) ∷ g.series })
    set_plain-ok ls x g e = rw e (rw (names_eq_refl g.labelnames) refl)

-- One reject count from Postgres, and a ClickHouse that answers 500.
abbrev half_broken : Sources
half_broken = record {
  connects = λ n. true;
  answers = λ n q. rows ((Value.text (chars "loans") ∷ int (pos 7) ∷ []) ∷ []);
  responses = λ n q. response 500 none;
}

all_collectors-IsDeclared_example :
    All
      (λ c. (s : _) → Carries (All (IsDeclared c.name)) (c.collect half_broken s).0)
      all_collectors
all_collectors-IsDeclared_example = all_collectors-IsDeclared half_broken

run_once-reports_example :
    Shows plain
      (outcomes half_broken all_collectors (init_exporter plain).executors)
      (init_exporter plain)
      (run_once plain half_broken all_collectors (init_exporter plain))
run_once-reports_example =
    run_once-reports plain half_broken (init_exporter plain) (init_exporter-HasGauges plain)

-- The rejects are shown, and ClickHouse's collectors are counted as failed.
loans_rejected :
    let x = run_once plain half_broken all_collectors (init_exporter plain) in
    (reading plain (x.gauges "ingestion_reject" "rejected_rows_total") (chars "loans" ∷ [])
      ≡ some (fin (pos 7) 0))
    × (x.errors "cdc_freshness" ≡ 1)
    × (x.errors "ingestion_reject" ≡ 0)
unfolding run_once run_collector collected apply set_samples all_collectors init_exporter
    build_gauges find_spec specs collect_ingestion_runs collect_rejects collect_slots
    collect_cdc_freshness collect_raw_tables collect_parse_errors collect_reconciliation
    collect_merge_health collect_dbt_results pg_query ch_query ask connect retried reject_sample
    run_samples success_samples slot_samples chars float_of float_or_zero
loans_rejected = (refl, refl, refl)
