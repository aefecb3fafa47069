-- ===== src/Pipeline/KeyChecks.antt =====
-- The expectations of ingestion/fineract_ingest/entities.py on a primary key, on the batch that
-- `_map_and_validate` of ingestion/fineract_ingest/pipeline.py has left.
use mathlib.Core.Path.{subst}
use fineract_analytics_platf.Prelude.{
  ℕ, suc, ◌-◌, ◌≡◌, refl, sym, ap, ◌∙◌, ◌⊎◌, inl, inr, String, true, false, List, [], ◌∷◌, length,
  any, map, count_if, All, arith, ◌==◌,
}
use fineract_analytics_platf.Values.{Text, Value, Cell, Row, get_cell, is_null, cell_eq}
use fineract_analytics_platf.Parsers.Scalars.{Library}
use fineract_analytics_platf.Entities.Spec.{EntitySpec, Expectation, not_null, unique}
use fineract_analytics_platf.Entities.Keys.{HasIntKeys}
use fineract_analytics_platf.Validation.Expectations.{
  tally, present, distinct, check_not_null, check_unique, evaluate_one, by_kind,
}
use fineract_analytics_platf.Loader.Stored.{IntKey, same_key, DistinctKeys}
use fineract_analytics_platf.Pipeline.Batch.{map_and_validate}
use fineract_analytics_platf.Pipeline.Conserve.{OwnKey, map_and_validate-Deduped}

tally_one : (failing : String → ℕ) (c : String) → failing c ≡ 0 → (tally failing (c ∷ [])).0 ≡ 0
unfolding tally
tally_one failing c h = rw h

module _ (pk : String) where
  none_null :
      (rows : List Row)
      → All (IntKey pk) rows
      → count_if (λ (r : Row). is_null (get_cell r pk)) rows ≡ 0
  none_null [] is = refl
  none_null (r ∷ rows) is = rw (ap is_null is.0.1) (none_null rows is.1)

  abbrev keys : List Row → List Cell
  keys rows = map (λ (r : Row). get_cell r pk) rows

  all_present : (rows : List Row) → All (IntKey pk) rows → present rows pk ≡ keys rows
  all_present [] is = refl
  all_present (r ∷ rows) is =
      rw (ap is_null is.0.1) (ap (λ (l : List Cell). get_cell r pk ∷ l) (all_present rows is.1))

  no_match :
      (r : Row) (rows : List Row)
      → All (λ q. same_key pk r q ≡ false) rows
      → any (cell_eq (get_cell r pk)) (keys rows) ≡ false
  no_match r [] ds = refl
  no_match r (q ∷ rows) ds = rw ds.0 (no_match r rows ds.1)

  distinct_length :
      (rows : List Row) → DistinctKeys pk rows → distinct (keys rows) ≡ length (keys rows)
  distinct_length [] ds = refl
  distinct_length (r ∷ rows) ds = rw (no_match r rows ds.0) (ap suc (distinct_length rows ds.1))

  not_null_passes : (rows : List Row) → All (IntKey pk) rows → (check_not_null rows (pk ∷ [])).0 ≡ 0
  unfolding check_not_null
  not_null_passes rows is = tally_one _ pk (none_null rows is)

  unique_passes :
      (rows : List Row)
      → All (IntKey pk) rows
      → DistinctKeys pk rows
      → (check_unique rows (pk ∷ [])).0 ≡ 0
  unfolding check_unique
  unique_passes rows is ds = tally_one _ pk (
      ap (λ l. length l - distinct l) (all_present rows is)
      ∙ omega (arith, distinct_length rows ds))

  passes :
      (e : Expectation) (rows : List Row)
      → (e.kind ≡ not_null) ⊎ (e.kind ≡ unique)
      → e.columns ≡ pk ∷ []
      → All (IntKey pk) rows
      → DistinctKeys pk rows
      → (evaluate_one e rows).passed ≡ true
  unfolding evaluate_one
  passes e rows (inl k) c is ds =
      subst (λ k. (by_kind k e rows).passed ≡ true) (sym k)
        (ap (λ cs. (check_not_null rows cs).0 == 0) c ∙ ap (λ n. n == 0) (not_null_passes rows is))
  passes e rows (inr k) c is ds =
      subst (λ k. (by_kind k e rows).passed ≡ true) (sym k)
        (ap (λ cs. (check_unique rows cs).0 == 0) c ∙ ap (λ n. n == 0) (unique_passes rows is ds))

-- For an entity whose mapper gives integer keys, in a column that the pipeline does not write itself,
-- and whatever was read: an expectation that the primary key is not null, or unique, passes on the
-- batch that is left to load.
pub map_and_validate-key_checks :
    (lib : Library) (digest : Row → Text) (spec : EntitySpec) (raws : List Value) (e : Expectation)
    → OwnKey spec.primary_key
    → HasIntKeys spec
    → (e.kind ≡ not_null) ⊎ (e.kind ≡ unique)
    → e.columns ≡ spec.primary_key ∷ []
    → (evaluate_one e (map_and_validate lib digest spec raws).rows).passed ≡ true
map_and_validate-key_checks lib digest spec raws e own i k c =
    let h = map_and_validate-Deduped lib digest spec raws own i in
    passes spec.primary_key e (map_and_validate lib digest spec raws).rows k c h.keys h.distinct
