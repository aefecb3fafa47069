-- ===== src/Exporter/Labels.antt =====
-- Which samples the collectors of observability/exporter/pipeline_exporter/collectors.py return, with
-- which labels.
use fineract_analytics_platf.Prelude.{
  String, ◌≡◌, refl, inl, inr, List, [], ◌∷◌, map, concat, All, All-append, if◌then◌else◌,
  Bool-cases,
}
use fineract_analytics_platf.Values.{Value, Number}
use fineract_analytics_platf.Parsers.Scalars.{float_of}
use fineract_analytics_platf.Outcome.{Outcome, ok, raised, ◌>>=◌ as ◌then◌}
use fineract_analytics_platf.Exporter.Sources.{Executors, Query, after, ◌>>=◌, item}
use fineract_analytics_platf.Exporter.Samples.{
  MetricSample, traverse, triple_of, pair_of, float_or_zero,
}
use fineract_analytics_platf.Exporter.Rows.{
  is_none, run_samples, success_samples, reject_sample, slot_samples, Freshness, freshness_samples,
  event_sample, op_columns, column_samples, merge_samples,
}
use fineract_analytics_platf.Exporter.Gauges.{names_of}

-- What an outcome carries, where it is no exception.
abbrev pub Carries {ℓ} : {A : Type ℓ} → (A → Type 0) → Outcome A → Type 0
Carries P (ok a) = P a
Carries P (raised e) = Unit

module _ {ℓ κ} {A : Type ℓ} {B : Type κ} (P : B → Type 0) where
  pub then-Carries :
      (r : Outcome A) (f : A → Outcome B) → ((a : A) → Carries P (f a)) → Carries P (r then f)
  then-Carries (ok a) f h = h a
  then-Carries (raised e) f h = tt

module _ {ℓ κ} {A : Type ℓ} {B : Type κ} (P : A → Type 0) (Q : B → Type 0) where
  from-Carries :
      (r : Outcome A) (f : A → Outcome B)
      → Carries P r
      → ((a : A) → P a → Carries Q (f a))
      → Carries Q (r then f)
  from-Carries (ok a) f h k = k a h
  from-Carries (raised e) f h k = tt

module _ {ℓ} {A B : Type ℓ} (P : A → Type 0) (Q : B → Type 0) where
  pub >>=-Carries :
      (m : Query A) (f : A → Query B) (s : Executors)
      → Carries P (m s).0
      → ((a : A) (t : Executors) → P a → Carries Q (f a t).0)
      → Carries Q ((m >>= f) s).0
  >>=-Carries m f s h k = after_Carries (m s) h
    where
      after_Carries : (r : Outcome A × Executors) → Carries P r.0 → Carries Q (after r f).0
      after_Carries (ok a, t) h = k a t h
      after_Carries (raised e, t) h = tt

module _ {ℓ κ} {A : Type ℓ} {B : Type κ} (Q : B → Type 0) where
  pub traverse-All :
      (f : A → Outcome B) (xs : List A)
      → ((x : A) → Carries Q (f x))
      → Carries (All Q) (traverse f xs)
  traverse-All f [] h = tt
  traverse-All f (x ∷ xs) h = both (f x) (traverse f xs) (h x) (traverse-All f xs h)
    where
      both :
          (r : Outcome B) (rs : Outcome (List B))
          → Carries Q r
          → Carries (All Q) rs
          → Carries (All Q) (r then λ y. rs then λ ys. ok (y ∷ ys))
      both (raised e) rs h k = tt
      both (ok y) (raised e) h k = tt
      both (ok y) (ok ys) h k = (h, k)

  pub All-mapped : (g : A → B) (xs : List A) → All (λ x. Q (g x)) xs → All Q (map g xs)
  All-mapped g [] h = tt
  All-mapped g (x ∷ xs) h = (h.0, All-mapped g xs h.1)

module _ {ℓ} {A : Type ℓ} (Q : A → Type 0) where
  pub All-concat : (xss : List (List A)) → All (All Q) xss → All Q (concat xss)
  All-concat [] h = tt
  All-concat (xs ∷ xss) h = All-append Q xs (concat xss) h.0 (All-concat xss h.1)

-- A sample whose labels have some names.
abbrev pub Named : List String → MetricSample → Type 0
Named ns m = names_of m.labels ≡ ns

abbrev pub BothNamed : List String → MetricSample × MetricSample → Type 0
BothNamed ns p = Named ns p.0 × Named ns p.1

pub run_samples-Named : (row : List Value) → Carries (BothNamed ("entity" ∷ [])) (run_samples row)
unfolding run_samples
run_samples-Named row =
    then-Carries (BothNamed ("entity" ∷ [])) (triple_of row) _
      λ t. then-Carries (BothNamed ("entity" ∷ [])) (float_or_zero t.2) _ λ n. (refl, refl)

pub success_samples-Named :
    (row : List Value) → Carries (All (Named ("entity" ∷ []))) (success_samples row)
unfolding success_samples
success_samples-Named row = then-Carries (All (Named ("entity" ∷ []))) (pair_of row) _ λ p.
    elim (Bool-cases (is_none p.1)) [
      | inl y ↦ rw y tt
      | inr n ↦ rw n (then-Carries (All (Named ("entity" ∷ []))) (float_of p.1) _ λ x. (refl, tt))
    ]

pub reject_sample-Named : (row : List Value) → Carries (Named ("entity" ∷ [])) (reject_sample row)
unfolding reject_sample
reject_sample-Named row =
    then-Carries (Named ("entity" ∷ [])) (pair_of row) _
      λ p. then-Carries (Named ("entity" ∷ [])) (float_of p.1) _ λ x. refl

pub slot_samples-Named : (row : List Value) → Carries (BothNamed ("slot" ∷ [])) (slot_samples row)
unfolding slot_samples
slot_samples-Named row =
    then-Carries (BothNamed ("slot" ∷ [])) (triple_of row) _
      λ t. then-Carries (BothNamed ("slot" ∷ [])) (float_or_zero t.2) _ λ x. (refl, refl)

event_sample-Named :
    (table r : Value) (o : String × String)
    → Carries (Named ("table" ∷ "op" ∷ [])) (event_sample table r o)
unfolding event_sample
event_sample-Named table r (op, column) =
    then-Carries (Named ("table" ∷ "op" ∷ [])) (item column r then float_or_zero) _ λ n. refl

pub record FreshnessNamed (f : Freshness) : Type 0 where
  pub age : Named ("table" ∷ []) f.age
  pub p50 : Named ("table" ∷ []) f.p50
  pub p95 : Named ("table" ∷ []) f.p95
  pub events : All (Named ("table" ∷ "op" ∷ [])) f.events

pub freshness_samples-Named : (r : Value) → Carries FreshnessNamed (freshness_samples r)
unfolding freshness_samples
freshness_samples-Named r = then-Carries FreshnessNamed (item "source_table" r) _ λ table.
    then-Carries FreshnessNamed (item "freshness_seconds" r then float_of) _ λ age.
      then-Carries FreshnessNamed (item "lag_p50_seconds" r then float_or_zero) _ λ p50.
        then-Carries FreshnessNamed (item "lag_p95_seconds" r then float_or_zero) _ λ p95.
          from-Carries (All (Named ("table" ∷ "op" ∷ []))) FreshnessNamed
            (traverse (event_sample table r) op_columns) _
            (traverse-All (Named ("table" ∷ "op" ∷ [])) (event_sample table r) op_columns
              (event_sample-Named table r))
            λ events named. record { age = refl; p50 = refl; p95 = refl; events = named }

pub column_samples-Named :
    (label key : String) (number : Value → Outcome Number) (column : String) (rs : List Value)
    → Carries (All (Named (label ∷ []))) (column_samples label key number column rs)
unfolding column_samples
column_samples-Named label key number column rs = traverse-All (Named (label ∷ [])) _ rs λ r.
    then-Carries (Named (label ∷ [])) (item key r) _
      λ v. then-Carries (Named (label ∷ [])) (item column r then number) _ λ x. refl

pub merge_samples-Named :
    (r : Value) → Carries (BothNamed ("database" ∷ "table" ∷ [])) (merge_samples r)
unfolding merge_samples
merge_samples-Named r =
    let P = BothNamed ("database" ∷ "table" ∷ []) in
    then-Carries P (item "database" r) _ λ d. then-Carries P (item "table" r) _ λ t.
      then-Carries P (item "active_parts" r then float_of) _
        λ n. then-Carries P (item "size_mb" r then float_of) _ λ m. (refl, refl)
