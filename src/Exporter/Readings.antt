-- ===== src/Exporter/Readings.antt =====
-- What `_apply` of observability/exporter/pipeline_exporter/exporter.py leaves in the gauges.
use mathlib.Core.Bool.{true≢false}
use mathlib.Core.Path.{subst}
use fineract_analytics_platf.Prelude.{
  String, ◌≡◌, ◌≢◌, refl, sym, ap, ◌∙◌, inl, inr, Bool, true, false, ◌&&◌, Option, none, some, List,
  [], ◌∷◌, All, str_eq, str_eq_true, if◌then◌else◌, Bool-cases, arith, and_true,
}
use fineract_analytics_platf.Values.{Text, text_eq, text_eq_refl, text_eq-true, Number}
use fineract_analytics_platf.Outcome.{ok}
use fineract_analytics_platf.Exporter.Samples.{MetricSample, Results}
use fineract_analytics_platf.Exporter.Gauges.{GaugeOps, Spec, specs, find_spec}
use fineract_analytics_platf.Exporter.Labels.{Named}
use fineract_analytics_platf.Exporter.Declared.{IsDeclared}
use fineract_analytics_platf.Exporter.Scrape.{set_samples, put_gauge, apply}

abbrev pub texts_eq : List Text → List Text → Bool
texts_eq [] [] = true
texts_eq (s ∷ ss) (t ∷ ts) = text_eq s t && texts_eq ss ts
texts_eq _ _ = false

pub texts_eq-true : (s t : List Text) → texts_eq s t ≡ true → s ≡ t
texts_eq-true [] [] e = refl
texts_eq-true [] (b ∷ t) e = ground arith
texts_eq-true (a ∷ s) [] e = ground arith
texts_eq-true (a ∷ s) (b ∷ t) e =
    let h = and_true (text_eq a b) (texts_eq s t) e in
    ap (λ (x : Text). x ∷ s) (text_eq-true a b h.0)
    ∙ ap (λ (u : List Text). b ∷ u) (texts_eq-true s t h.1)

pub texts_eq_refl : (s : List Text) → texts_eq s s ≡ true
texts_eq_refl [] = refl
texts_eq_refl (a ∷ s) = rw (text_eq_refl a, texts_eq_refl s)

module _ {G : Type 0} (ops : GaugeOps G) where
  -- The last sample with the label texts `key`, else `v`.
  abbrev pub latest : List Text → List MetricSample → Option Number → Option Number
  latest key [] v = v
  latest key (m ∷ ms) v =
      latest key ms (if texts_eq (ops.key m.labels) key then some m.value else v)

  record Filled (ns : List String) (ms : List MetricSample) (g : G) : Type 0 where
    gauge : G
    sets : set_samples ops ms g ≡ (ok tt, gauge)
    names : ops.names gauge ≡ ns
    values : (key : List Text) → ops.value gauge key ≡ latest key ms (ops.value g key)

  set_samples-Filled :
      (ns : List String) (ms : List MetricSample) (g : G)
      → ops.names g ≡ ns
      → All (Named ns) ms
      → Filled ns ms g
  unfolding set_samples
  set_samples-Filled ns [] g e named = record {
    gauge = g;
    sets = refl;
    names = e;
    values = λ key. refl;
  }
  set_samples-Filled ns (m ∷ ms) g e named =
      let (h, sets, names, value, others) = ops.set-names m.labels m.value g (named.0 ∙ sym e) in
      let f = set_samples-Filled ns ms h (names ∙ e) named.1 in
      record {
        gauge = f.gauge;
        sets = rw (set_samples, sets) f.sets;
        names = f.names;
        values = λ key. f.values key ∙ ap (latest key ms) (found g m key h value others);
      }
    where
      found :
          (g : G) (m : MetricSample) (key : List Text) (h : G)
          → ops.value h (ops.key m.labels) ≡ some m.value
          → ((k : List Text) → k ≢ ops.key m.labels → ops.value h k ≡ ops.value g k)
          → ops.value h key
            ≡ (if texts_eq (ops.key m.labels) key then some m.value else ops.value g key)
      found g m key h value others = elim (Bool-cases (texts_eq (ops.key m.labels) key)) [
        | inl y ↦ rw (y, ← texts_eq-true (ops.key m.labels) key y) value
        | inr n ↦ rw n (
            others key λ e.
              let p = ap (texts_eq (ops.key m.labels)) e ∙ texts_eq_refl (ops.key m.labels) in
              true≢false (sym p ∙ n))
      ]

  -- What a pass of `_apply` over the results of the collector `c` leaves in the gauge of `d` and `l`
  -- at the label texts `key`, where `v` was before.
  abbrev pub applied :
      String → Results → String → String → List Text → Option Number → Option Number
  applied c [] d l key v = v
  applied c ((k, ms) ∷ results) d l key v =
      applied c results d l key (if str_eq c d && str_eq k l then latest key ms none else v)

  abbrev pub reading : Option G → List Text → Option Number
  reading none key = none
  reading (some g) key = ops.value g key

  -- The exporter has a gauge for each metric, with its labels, and no other.
  abbrev pub Matches : Option Spec → Option G → Type 0
  Matches none none = Unit
  Matches none (some g) = ⊥
  Matches (some s) none = ⊥
  Matches (some s) (some g) = ops.names g ≡ s.labelnames

  abbrev pub HasGauges : (String → String → Option G) → Type 0
  HasGauges gauges = (c k : String) → Matches (find_spec c k specs) (gauges c k)

  pub record Applied (c : String) (results : Results) (gauges : String → String → Option G)
      : Type 0 where
    pub after : String → String → Option G
    pub applies : apply ops c results gauges ≡ (ok tt, after)
    pub has : HasGauges after
    pub readings :
        (d l : String) (key : List Text)
        → reading (after d l) key ≡ applied c results d l key (reading (gauges d l) key)

  gauge_of :
      (s : Spec) (o : Option G)
      → Matches (some s) o
      → (g : G) × (o ≡ some g) × (ops.names g ≡ s.labelnames)
  gauge_of s none h = elim h [ ]
  gauge_of s (some g) h = (g, refl, h)

  module _ (c k : String) (gauges : String → String → Option G) (g : G) where
    put-HasGauges :
        (s : Spec)
        → find_spec c k specs ≡ some s
        → ops.names g ≡ s.labelnames
        → HasGauges gauges
        → HasGauges (put_gauge ops c k g gauges)
    put-HasGauges s e n has d l = elim (Bool-cases (str_eq c d && str_eq k l)) [
      | inl y ↦
          let h = and_true (str_eq c d) (str_eq k l) y in
          rw (y, ← str_eq_true c d h.0, ← str_eq_true k l h.1, e) n
      | inr n1 ↦ rw n1 (has d l)
    ]

    reading-put :
        (d l : String) (key : List Text)
        → reading (put_gauge ops c k g gauges d l) key
          ≡ (if str_eq c d && str_eq k l then ops.value g key else reading (gauges d l) key)
    reading-put d l key = elim (Bool-cases (str_eq c d && str_eq k l)) [
      | inl y ↦ rw y
      | inr n ↦ rw n
    ]

  pub apply-Applied :
      (c : String) (results : Results) (gauges : String → String → Option G)
      → HasGauges gauges
      → All (IsDeclared c) results
      → Applied c results gauges
  unfolding apply
  apply-Applied c [] gauges has declared = record {
    after = gauges;
    applies = refl;
    has = has;
    readings = λ d l key. refl;
  }
  apply-Applied c ((k, ms) ∷ results) gauges has declared =
      let (s, e, named) = declared.0 in
      let (g, is, names) =
        gauge_of s (gauges c k) (subst (λ o. Matches o (gauges c k)) e (has c k)) in
      let f = set_samples-Filled s.labelnames ms (ops.clear g) (ops.names-clear g ∙ names) named in
      let rest =
        apply-Applied c results (put_gauge ops c k f.gauge gauges)
          (put-HasGauges c k gauges f.gauge s e f.names has) declared.1 in
      record {
        after = rest.after;
        applies = rw (apply, is, f.sets) rest.applies;
        has = rest.has;
        readings = λ d l key.
            rest.readings d l key
            ∙ ap (applied c results d l key) (
                reading-put c k gauges f.gauge d l key
                ∙ ap (λ v. if str_eq c d && str_eq k l then v else reading (gauges d l) key)
                    (f.values key ∙ ap (latest key ms) (ops.value-clear g key)));
      }
