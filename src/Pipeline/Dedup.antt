-- ===== src/Pipeline/Dedup.antt =====
-- The invariant of the loop of `_map_and_validate` in ingestion/fineract_ingest/pipeline.py, and the
-- rows that stay when a record is accepted.
use fineract_analytics_platf.Prelude.{
  ℕ, ◌+◌, ◌≡◌, refl, sym, ap, ◌∙◌, inl, inr, String, Bool, true, false, not, ◌||◌, List, [], ◌∷◌,
  ◌++◌, length, any, any-select, select, All, All-append, All-select, Bool-cases, arith,
}
use fineract_analytics_platf.Prelude.Int.{ℤ, eqb_ℤ_iff}
use fineract_analytics_platf.Values.{Cell, Row, get_cell, cell_eq}
use fineract_analytics_platf.Loader.Stored.{IntKey, TextHash, same_key, DistinctKeys}
use fineract_analytics_platf.Pipeline.Batch.{Batch, is_seen, without_key}

abbrev pub IsInt : Cell → Type 0
IsInt c = (z : ℤ) × (c ≡ Cell.int z)

pub int_refl : (c : Cell) → IsInt c → cell_eq c c ≡ true
unfolding cell_eq
int_refl c (z, e) = ap (λ d. cell_eq d d) e ∙ (eqb_ℤ_iff z z).1 refl

int_equal : (c d : Cell) → IsInt c → IsInt d → cell_eq c d ≡ true → c ≡ d
unfolding cell_eq
int_equal c d (x, e) (y, f) h =
    e
    ∙ ap Cell.int
        ((eqb_ℤ_iff x y).0 (sym (ap (λ b. cell_eq b (Cell.int y)) e) ∙ sym (ap (cell_eq c) f) ∙ h))
    ∙ sym f

-- A row of the rows has a key equal to `k`.
abbrev pub is_covered : String → List Row → Cell → Bool
is_covered pk rows k = any (λ r. cell_eq (get_cell r pk) k) rows

-- The state of the loop after `n` records: one row per key, integer keys and hashes, and each record
-- was either rejected or its key, which a row has, is noted as seen.
pub record Deduped (pk : String) (n : ℕ) (b : Batch) : Type 0 where
  pub distinct : DistinctKeys pk b.rows
  pub keys : All (IntKey pk) b.rows
  pub hashes : All TextHash b.rows
  pub noted : All (λ r. is_seen (get_cell r pk) b.seen ≡ true) b.rows
  pub ints : All IsInt b.seen
  pub covered : All (λ k. is_covered pk b.rows k ≡ true) b.seen
  pub conserved : length b.rejects + length b.seen ≡ n

module _ (pk : String) where
  pub DistinctKeys-append :
      (rows : List Row) (new : Row)
      → DistinctKeys pk rows
      → All (λ r. same_key pk r new ≡ false) rows
      → DistinctKeys pk (rows ++ new ∷ [])
  DistinctKeys-append [] new ds fs = (tt, tt)
  DistinctKeys-append (r ∷ rows) new ds fs =
      (All-append _ rows (new ∷ []) ds.0 (fs.0, tt), DistinctKeys-append rows new ds.1 fs.1)

  DistinctKeys-select :
      (q : Row → Bool) (rows : List Row) → DistinctKeys pk rows → DistinctKeys pk (select q rows)
  DistinctKeys-select q [] ds = tt
  DistinctKeys-select q (r ∷ rows) ds = elim (Bool-cases (q r)) [
    | inl e ↦ rw e (All-select _ q rows ds.0, DistinctKeys-select q rows ds.1)
    | inr e ↦ rw e (DistinctKeys-select q rows ds.1)
  ]

  -- The rows that stay when a record with the key `key` is accepted.
  pub record Kept (key : Cell) (seen : List Cell) (kept : List Row) : Type 0 where
    pub distinct : DistinctKeys pk kept
    pub keys : All (IntKey pk) kept
    pub hashes : All TextHash kept
    pub noted : All (λ r. is_seen (get_cell r pk) seen ≡ true) kept
    pub differs : All (λ r. cell_eq (get_cell r pk) key ≡ false) kept
    pub covered : All (λ k. (is_covered pk kept k || cell_eq key k) ≡ true) seen

  differ_unseen :
      (key : Cell) (seen : List Cell) (r : Row)
      → All IsInt seen
      → IntKey pk r
      → is_seen key seen ≡ false
      → is_seen (get_cell r pk) seen ≡ true
      → cell_eq (get_cell r pk) key ≡ false
  differ_unseen key [] r is i h k = absurd (ground arith)
  differ_unseen key (s ∷ seen) r is i h k = elim (Bool-cases (cell_eq s (get_cell r pk))) [
    | inl e ↦ ap (λ c. cell_eq c key) (sym (int_equal s (get_cell r pk) is.0 i e)) ∙ (ground arith)
    | inr e ↦ differ_unseen key seen r is.1 i (ground arith) (rw e at k)
  ]

  all_differ_unseen :
      (key : Cell) (seen : List Cell) (rows : List Row)
      → All IsInt seen
      → All (IntKey pk) rows
      → is_seen key seen ≡ false
      → All (λ r. is_seen (get_cell r pk) seen ≡ true) rows
      → All (λ r. cell_eq (get_cell r pk) key ≡ false) rows
  all_differ_unseen key seen [] is js h ks = tt
  all_differ_unseen key seen (r ∷ rows) is js h ks =
      (differ_unseen key seen r is js.0 h ks.0, all_differ_unseen key seen rows is js.1 h ks.1)

  weaken_covered :
      (key : Cell) (rows : List Row) (seen : List Cell)
      → All (λ k. is_covered pk rows k ≡ true) seen
      → All (λ k. (is_covered pk rows k || cell_eq key k) ≡ true) seen
  weaken_covered key rows [] hs = tt
  weaken_covered key rows (s ∷ seen) hs = (ground arith, weaken_covered key rows seen hs.1)

  pub Kept-unseen :
      (key : Cell) (n : ℕ) (b : Batch)
      → Deduped pk n b
      → is_seen key b.seen ≡ false
      → Kept key b.seen b.rows
  Kept-unseen key n b h e = record {
    distinct = h.distinct;
    keys = h.keys;
    hashes = h.hashes;
    noted = h.noted;
    differs = all_differ_unseen key b.seen b.rows h.ints h.keys e h.noted;
    covered = weaken_covered key b.rows b.seen h.covered;
  }

  selected_differ :
      (key : Cell) (rows : List Row)
      → All (λ r. cell_eq (get_cell r pk) key ≡ false) (without_key pk key rows)
  selected_differ key [] = tt
  selected_differ key (r ∷ rows) = elim (Bool-cases (cell_eq (get_cell r pk) key)) [
    | inl e ↦ rw e (selected_differ key rows)
    | inr e ↦ rw e (e, selected_differ key rows)
  ]

  -- What covers a key other than the new one is not removed.
  others_stay :
      (key k : Cell) (rows : List Row)
      → IsInt key
      → All (IntKey pk) rows
      → cell_eq key k ≡ false
      → All
          (λ r. (cell_eq (get_cell r pk) k ≡ true) → not (cell_eq (get_cell r pk) key) ≡ true)
          rows
  others_stay key k [] i is h = tt
  others_stay key k (r ∷ rows) i is h = (
    (λ e. elim (Bool-cases (cell_eq (get_cell r pk) key)) [
      | inl g ↦
          let f : cell_eq key k ≡ true =
            ap (λ c. cell_eq c k) (sym (int_equal (get_cell r pk) key is.0 i g)) ∙ e in
          absurd (ground arith)
      | inr g ↦ ap not g
    ]),
    others_stay key k rows i is.1 h,
  )

  covered_without :
      (key : Cell) (rows : List Row) (seen : List Cell)
      → IsInt key
      → All (IntKey pk) rows
      → All (λ k. is_covered pk rows k ≡ true) seen
      → All (λ k. (is_covered pk (without_key pk key rows) k || cell_eq key k) ≡ true) seen
  covered_without key rows [] i is hs = tt
  covered_without key rows (k ∷ seen) i is hs = (
    elim (Bool-cases (cell_eq key k)) [
      | inl e ↦ ground arith
      | inr e ↦
          let f =
            any-select _ (λ r. not (cell_eq (get_cell r pk) key)) rows
              (others_stay key k rows i is e)
            ∙ hs.0 in
          rw f
    ],
    covered_without key rows seen i is hs.1,
  )

  pub Kept-seen :
      (key : Cell) (n : ℕ) (b : Batch)
      → Deduped pk n b
      → IsInt key
      → Kept key b.seen (without_key pk key b.rows)
  Kept-seen key n b h i = record {
    distinct = DistinctKeys-select _ b.rows h.distinct;
    keys = All-select _ _ b.rows h.keys;
    hashes = All-select _ _ b.rows h.hashes;
    noted = All-select _ _ b.rows h.noted;
    differs = selected_differ key b.rows;
    covered = covered_without key b.rows b.seen i h.keys h.covered;
  }
