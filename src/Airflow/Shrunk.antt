-- ===== src/Airflow/Shrunk.antt =====
-- When `verify_after` of orchestration/dags/fineract_backfill.py passes.
use fineract_analytics_platf.Prelude.{
  ℕ, suc, ◌≡◌, refl, ap, ◌∙◌, ◌↔◌, inl, inr, String, false, List, [], ◌∷◌, map, Bool-cases,
}
use fineract_analytics_platf.Prelude.Int.{ℤ, ltb_ℤ}
use fineract_analytics_platf.Values.{Value}
use fineract_analytics_platf.Outcome.{Outcome, ok}
use fineract_analytics_platf.Airflow.CaughtUp.{bind-ok, ok-bind}
use fineract_analytics_platf.Airflow.Hooks.{pg_scalar}
use fineract_analytics_platf.Airflow.Sensors.{count_or_zero}
use fineract_analytics_platf.Airflow.Backfill.{
  Counts, counts_of, shrunk, Verified, unless_shrunk, verify_after,
}

-- From the n-th query on, each table's count can be read and is no smaller than before.
abbrev pub HasKept : (ℕ → Outcome (List (List Value))) → ℕ → Counts → Type 0
HasKept answers n [] = Unit
HasKept answers n ((t, b) ∷ before) =
    ((a : ℤ) × (count_or_zero (pg_scalar (answers n)) ≡ ok a) × (ltb_ℤ a b ≡ false))
    × HasKept answers (suc n) before

module _ (answers : ℕ → Outcome (List (List Value))) where
  abbrev names : Counts → List String
  names before = map (λ p. p.0) before

  counts_of-HasKept :
      (n : ℕ) (before : Counts)
      → HasKept answers n before
      → (after : Counts) × (counts_of answers n (names before) ≡ ok after)
        × (shrunk before after ≡ [])
  unfolding counts_of shrunk
  counts_of-HasKept n [] h = ([], refl, refl)
  counts_of-HasKept n ((t, b) ∷ before) ((a, is, le), h) =
      let (after, counted, same) = counts_of-HasKept (suc n) before h in
      (
        (t, a) ∷ after,
        ok-bind (count_or_zero (pg_scalar (answers n))) _ a _ is
            (ok-bind (counts_of answers (suc n) (names before)) _ after _ counted refl),
        rw le same,
      )

  none_shrunk :
      (t : String) (b a : ℤ) (before after : Counts)
      → shrunk ((t, b) ∷ before) ((t, a) ∷ after) ≡ []
      → (ltb_ℤ a b ≡ false) × (shrunk before after ≡ [])
  unfolding shrunk
  none_shrunk t b a before after e = elim (Bool-cases (ltb_ℤ a b)) [
    | inl y ↦ absurd (cons-nil (rw y at e))
    | inr k ↦ (k, rw k at e)
  ]
    where
      cons-nil : {x : String} {xs : List String} → x ∷ xs ≡ [] → ⊥
      cons-nil e = cc

  HasKept-counts_of :
      (n : ℕ) (before after : Counts)
      → counts_of answers n (names before) ≡ ok after
      → shrunk before after ≡ []
      → HasKept answers n before
  unfolding counts_of
  HasKept-counts_of n [] after e h = tt
  HasKept-counts_of n ((t, b) ∷ before) after e h =
      let (a, is, e1) = bind-ok (count_or_zero (pg_scalar (answers n))) _ after e in
      let (rest, counted, e2) = bind-ok (counts_of answers (suc n) (names before)) _ after e1 in
      let (le, same) =
        none_shrunk t b a before rest
          (ap (λ (c : Counts). shrunk ((t, b) ∷ before) c) (ok-inj e2) ∙ h) in
      ((a, is, le), HasKept-counts_of (suc n) before rest counted same)
    where
      ok-inj : {c d : Counts} → Path (Outcome Counts) (ok c) (ok d) → c ≡ d
      ok-inj e = cc

-- The check after a rebuild passes if and only if the count of every table that was counted before can
-- be read again and is no smaller than it was.
pub verify_after_iff :
    (answers : ℕ → Outcome (List (List Value))) (before : Counts)
    → ((v : Verified) × (verify_after answers before ≡ ok v)) ↔ HasKept answers 0 before
unfolding verify_after
verify_after_iff answers before = (
  λ p.
      let (after, counted, rest) =
        bind-ok (counts_of answers 0 (map (λ (q : String × ℤ). q.0) before)) _ p.0 p.1 in
      HasKept-counts_of answers 0 before after counted (none_left after (shrunk before after) rest),
  λ h.
      let (after, counted, same) = counts_of-HasKept answers 0 before h in
      (
        _,
        ok-bind (counts_of answers 0 (map (λ (q : String × ℤ). q.0) before)) _ after _ counted
            (ap (λ ts. unless_shrunk before after ts) same),
      ),
)
  where
    none_left :
        (after : Counts) (ts : List String) {v : Verified}
        → unless_shrunk before after ts ≡ ok v
        → ts ≡ []
    none_left after [] e = refl
    none_left after (t ∷ ts) e = absurd cc
