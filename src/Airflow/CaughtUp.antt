-- ===== src/Airflow/CaughtUp.antt =====
-- When the `CDCCaughtUpSensor` of orchestration/plugins/fineract/sensors.py lets a run go on.
use mathlib.Core.Bool.{true≢false}
use fineract_analytics_platf.Prelude.{
  ℕ, suc, ◌≤◌, ◌≡◌, refl, sym, ap, ◌∙◌, ◌↔◌, String, Bool, true, false, List, [], ◌∷◌, All, ltb,
  if◌then◌else◌, arith,
}
use fineract_analytics_platf.Prelude.Int.{ℤ, pos}
use fineract_analytics_platf.Values.{Value, Number, fin, number_lt}
use fineract_analytics_platf.Exporter.Samples.{traverse}
use fineract_analytics_platf.Exporter.Rows.{live_count}
use fineract_analytics_platf.Outcome.{Outcome, ok, raised, ◌>>=◌}
use fineract_analytics_platf.Airflow.Sensors.{
  magnitude, Observed, delta_of, check_rows, age_of, check_ages, poke_caught_up,
}

-- Each entity's counts differ by no more than the tolerance.
abbrev pub WithinRows : Observed → List (Value × ℤ) → ℕ → ℕ → List String → Type 0
WithinRows o counts tolerance n [] = Unit
WithinRows o counts tolerance n (e ∷ es) =
    ((d : ℤ) × (delta_of o counts n e ≡ ok d) × (magnitude d ≤ tolerance))
    × WithinRows o counts tolerance (suc n) es

-- A row whose age is a number, and no greater than the limit.
abbrev pub IsFresh : ℕ → Value → Type 0
IsFresh max_lag row =
    (x : Number) × (age_of row ≡ ok x) × (number_lt (fin (pos max_lag) 0) x ≡ false)

-- Row parity and freshness, of answers that came and could be read.
pub record IsCaughtUp (o : Observed) (tolerance max_lag : ℕ) (entities : List String) : Type 0 where
  pub rows : List Value
  pub counts : List (Value × ℤ)
  pub ages : List Value
  pub counted : o.live_keys ≡ ok rows
  pub read : traverse live_count rows ≡ ok counts
  pub parity : WithinRows o counts tolerance 0 entities
  pub aged : o.freshness ≡ ok ages
  pub fresh : All (IsFresh max_lag) ages

module _ {A B : Type 0} where
  pub bind-ok :
      (r : Outcome A) (f : A → Outcome B) (b : B)
      → (r >>= f) ≡ ok b
      → (a : A) × (r ≡ ok a) × (f a ≡ ok b)
  bind-ok (ok a) f b e = (a, refl, e)
  bind-ok (raised x) f b e = absurd cc

  pub ok-bind :
      (r : Outcome A) (f : A → Outcome B) (a : A) (b : B) → r ≡ ok a → f a ≡ ok b → (r >>= f) ≡ ok b
  ok-bind r f a b e h = ap (λ o. o >>= f) e ∙ h

ok-inj : (a b : Bool) → Path (Outcome Bool) (ok a) (ok b) → a ≡ b
ok-inj a b e = cc

unless : (b before : Bool) → (if b then false else before) ≡ true → (b ≡ false) × (before ≡ true)
unless true before e = absurd (true≢false (sym e))
unless false before e = (refl, e)

module _ (o : Observed) (counts : List (Value × ℤ)) (tolerance : ℕ) where
  check_rows-true :
      (n : ℕ) (es : List String) (before : Bool)
      → check_rows o counts tolerance n es before ≡ ok true
      → (before ≡ true) × WithinRows o counts tolerance n es
  unfolding check_rows
  check_rows-true n [] before e = (ok-inj before true e, tt)
  check_rows-true n (e ∷ es) before h =
      let (d, is, rest) = bind-ok (delta_of o counts n e) _ true h in
      let (now, within) =
        check_rows-true (suc n) es (if ltb tolerance (magnitude d) then false else before) rest in
      let (le, same) = unless (ltb tolerance (magnitude d)) before now in
      (same, ((d, is, ground arith), within))

  check_rows-Within :
      (n : ℕ) (es : List String)
      → WithinRows o counts tolerance n es
      → check_rows o counts tolerance n es true ≡ ok true
  unfolding check_rows
  check_rows-Within n [] h = refl
  check_rows-Within n (e ∷ es) ((d, is, le), within) =
      let k : ltb tolerance (magnitude d) ≡ false = ground arith in
      rw (check_rows, is, k) (check_rows-Within (suc n) es within)

module _ (max_lag : ℕ) where
  check_ages-true :
      (rows : List Value) (before : Bool)
      → check_ages max_lag rows before ≡ ok true
      → (before ≡ true) × All (IsFresh max_lag) rows
  unfolding check_ages
  check_ages-true [] before e = (ok-inj before true e, tt)
  check_ages-true (row ∷ rows) before h =
      let (x, is, rest) = bind-ok (age_of row) _ true h in
      let (now, fresh) =
        check_ages-true rows (if number_lt (fin (pos max_lag) 0) x then false else before) rest in
      let (le, same) = unless (number_lt (fin (pos max_lag) 0) x) before now in
      (same, ((x, is, le), fresh))

  check_ages-Fresh :
      (rows : List Value) → All (IsFresh max_lag) rows → check_ages max_lag rows true ≡ ok true
  unfolding check_ages
  check_ages-Fresh [] h = refl
  check_ages-Fresh (row ∷ rows) ((x, is, le), fresh) =
      rw (check_ages, is, le) (check_ages-Fresh rows fresh)

-- The sensor lets the run go on if and only if ClickHouse and Postgres have answered, each watched
-- entity is known and its two counts differ by no more than the tolerance, and no row of the
-- freshness is older than the limit, where every count and age can be read.
pub poke_caught_up_iff :
    (o : Observed) (tolerance max_lag : ℕ) (entities : List String)
    → (poke_caught_up o tolerance max_lag entities ≡ ok true)
      ↔ IsCaughtUp o tolerance max_lag entities
unfolding poke_caught_up
poke_caught_up_iff o tolerance max_lag entities = (
  λ e.
      let (rows, counted, e1) = bind-ok o.live_keys _ true e in
      let (counts, read, e2) = bind-ok (traverse live_count rows) _ true e1 in
      let (caught, checked, e3) =
        bind-ok (check_rows o counts tolerance 0 entities true) _ true e2 in
      let (ages, aged, e4) = bind-ok o.freshness _ true e3 in
      let (same, fresh) = check_ages-true max_lag ages caught e4 in
      record {
        rows = rows;
        counts = counts;
        ages = ages;
        counted = counted;
        read = read;
        parity = (check_rows-true o counts tolerance 0 entities true (checked ∙ ap ok same)).1;
        aged = aged;
        fresh = fresh;
      },
  λ h. ok-bind o.live_keys _ h.rows true h.counted (
      ok-bind (traverse live_count h.rows) _ h.counts true h.read (
        ok-bind (check_rows o h.counts tolerance 0 entities true) _ true true
          (check_rows-Within o h.counts tolerance 0 entities h.parity)
          (ok-bind o.freshness _ h.ages true h.aged (check_ages-Fresh max_lag h.ages h.fresh)))),
)
