-- ===== src/Loader/Stored.antt =====
-- Rows that a table already has, by key and hash, under the upsert of
-- ingestion/fineract_ingest/loader.py.
use fineract_analytics_platf.Prelude.{
  ◌≡◌, refl, sym, ap, ◌∙◌, inl, inr, String, Bool, true, false, none, List, [], ◌∷◌, All,
  Bool-cases, arith, if◌then◌else◌,
}
use fineract_analytics_platf.Prelude.Int.{ℤ, eqb_ℤ_iff}
use fineract_analytics_platf.Values.{Text, text_eq_refl, Cell, Row, get_cell, cell_eq}
use fineract_analytics_platf.Parsers.Hash.{contains}
use fineract_analytics_platf.Loader.Upsert.{upsert_row, assign, hash_of}
use fineract_analytics_platf.Loader.Reference.{table_after, returned_by, inserts, changes}
use fineract_analytics_platf.Loader.Cells.{get_cell-assign, get_cell-assign_other}

abbrev pub IntKey : String → Row → Type 0
IntKey key row = (z : ℤ) × (get_cell row key ≡ Cell.int z)

abbrev pub TextHash : Row → Type 0
TextHash row = (t : Text) × (hash_of row ≡ Cell.text t)

abbrev pub same_key : String → Row → Row → Bool
same_key key a b = cell_eq (get_cell a key) (get_cell b key)

-- The rows have pairwise different keys.
abbrev pub DistinctKeys : String → List Row → Type 0
DistinctKeys key [] = Unit
DistinctKeys key (r ∷ rs) = All (λ q. same_key key r q ≡ false) rs × DistinctKeys key rs

same_hash : (a : Row) → TextHash a → cell_eq (hash_of a) (hash_of a) ≡ true
unfolding cell_eq
same_hash a (t, e) = ap (λ c. cell_eq c c) e ∙ text_eq_refl t

-- The first row with the key of `new` has its hash.
abbrev pub holds : String → Row → List Row → Bool
holds key new [] = false
holds key new (old ∷ rows) =
    let rest = holds key new rows in
    if same_key key old new then cell_eq (hash_of old) (hash_of new) else rest

module _ (key : String) where
  same_key_refl : (a : Row) → IntKey key a → same_key key a a ≡ true
  unfolding cell_eq
  same_key_refl a (z, e) = ap (λ c. cell_eq c c) e ∙ (eqb_ℤ_iff z z).1 refl

  same_key-equal :
      (a b : Row)
      → IntKey key a
      → IntKey key b
      → same_key key a b ≡ true
      → get_cell a key ≡ get_cell b key
  unfolding cell_eq
  same_key-equal a b (x, e) (y, f) h =
      e
      ∙ ap Cell.int (
          (eqb_ℤ_iff x y).0 (
            sym (ap (λ c. cell_eq c (Cell.int y)) e)
            ∙ sym (ap (λ c. cell_eq (get_cell a key) c) f)
            ∙ h))
      ∙ sym f

  module _ (updates : List String) where
    -- A row that is held is left alone.
    pub upsert_row-holds :
        (new : Row) (t : List Row)
        → holds key new t ≡ true
        → upsert_row key updates new t ≡ (none, t)
    unfolding upsert_row
    upsert_row-holds new [] h = absurd (ground arith)
    upsert_row-holds new (old ∷ t) h = elim (Bool-cases (same_key key old new)) [
      | inl e ↦ rw e (rw (rw e at h))
      | inr e ↦ rw e (ap (λ p. (p.0, old ∷ p.1)) (upsert_row-holds new t (rw e at h)))
    ]

    module _ (no_key : contains key updates ≡ false)
        (with_hash : contains "_payload_hash" updates ≡ true) where
      -- The key of an updated row is the old one, its hash the new one.
      updated-key :
          (new old row : Row) → same_key key (assign updates new old) row ≡ same_key key old row
      updated-key new old row =
          ap (λ c. cell_eq c (get_cell row key)) (get_cell-assign_other updates new old key no_key)

      updated-hash : (new old : Row) → hash_of (assign updates new old) ≡ hash_of new
      updated-hash new old = get_cell-assign updates new old "_payload_hash" with_hash

      pub holds-upsert_row :
          (new : Row) (t : List Row)
          → IntKey key new
          → TextHash new
          → holds key new (upsert_row key updates new t).1 ≡ true
      unfolding upsert_row
      holds-upsert_row new [] i h = rw (same_key_refl new i) (same_hash new h)
      holds-upsert_row new (old ∷ t) i h = elim (Bool-cases (same_key key old new)) [
        | inl e ↦ elim (Bool-cases (cell_eq (hash_of old) (hash_of new))) [
          | inl g ↦ rw e (rw g (rw e g))
          | inr g ↦ rw e (
              rw g (
                rw (updated-key new old new ∙ e)
                  (ap (λ c. cell_eq c (hash_of new)) (updated-hash new old) ∙ same_hash new h)))
        ]
        | inr e ↦ rw e (rw e (holds-upsert_row new t i h))
      ]

      keep :
          (a new : Row) (t : List Row)
          → IntKey key a
          → All (IntKey key) t
          → same_key key a new ≡ false
          → holds key a t ≡ true
          → holds key a (upsert_row key updates new t).1 ≡ true
      unfolding upsert_row
      keep a new [] i is d h = absurd (ground arith)
      keep a new (old ∷ t) i is d h = elim (Bool-cases (same_key key old new)) [
        | inl e ↦ elim (Bool-cases (same_key key old a)) [
          | inl g ↦
              let k : same_key key a new ≡ true =
                sym (ap (λ c. cell_eq c (get_cell new key)) (same_key-equal old a is.0 i g)) ∙ e in
              absurd (ground arith)
          | inr g ↦ elim (Bool-cases (cell_eq (hash_of old) (hash_of new))) [
            | inl f ↦ rw e (rw f (rw g (rw g at h)))
            | inr f ↦ rw e (rw f (rw (updated-key new old a ∙ g) (rw g at h)))
          ]
        ]
        | inr e ↦ elim (Bool-cases (same_key key old a)) [
          | inl g ↦ rw e (rw g (rw g at h))
          | inr g ↦ rw e (rw g (keep a new t i is.1 d (rw g at h)))
        ]
      ]

      IntKey-upsert_row :
          (new : Row) (t : List Row)
          → IntKey key new
          → All (IntKey key) t
          → All (IntKey key) (upsert_row key updates new t).1
      unfolding upsert_row
      IntKey-upsert_row new [] i is = (i, tt)
      IntKey-upsert_row new (old ∷ t) i is = elim (Bool-cases (same_key key old new)) [
        | inl e ↦ elim (Bool-cases (cell_eq (hash_of old) (hash_of new))) [
          | inl g ↦ rw e (rw g is)
          | inr g ↦
              rw e
                (rw g ((is.0.0, get_cell-assign_other updates new old key no_key ∙ is.0.1), is.1))
        ]
        | inr e ↦ rw e (is.0, IntKey-upsert_row new t i is.1)
      ]

      keep_all :
          (a : Row) (news t : List Row)
          → IntKey key a
          → All (IntKey key) news
          → All (IntKey key) t
          → All (λ q. same_key key a q ≡ false) news
          → holds key a t ≡ true
          → holds key a (table_after key updates news t) ≡ true
      keep_all a [] t i is js ds h = h
      keep_all a (new ∷ news) t i is js ds h =
          keep_all a news (upsert_row key updates new t).1 i is.1 (IntKey-upsert_row new t is.0 js)
            ds.1 (keep a new t i js ds.0 h)

      -- After rows of pairwise different keys, the table holds each of them.
      pub all_held :
          (news t : List Row)
          → All (IntKey key) news
          → All TextHash news
          → DistinctKeys key news
          → All (IntKey key) t
          → All (λ a. holds key a (table_after key updates news t) ≡ true) news
      all_held [] t is hs ds js = tt
      all_held (new ∷ news) t is hs ds js =
          let u = (upsert_row key updates new t).1 in
          let ks = IntKey-upsert_row new t is.0 js in
          (
            keep_all new news u is.0 is.1 ks ds.0 (holds-upsert_row new t is.0 hs.0),
            all_held news u is.1 hs.1 ds.1 ks,
          )

    -- Rows that are all held change nothing.
    pub table_after-held :
        (news t : List Row)
        → All (λ a. holds key a t ≡ true) news
        → table_after key updates news t ≡ t
    table_after-held [] t hs = refl
    table_after-held (new ∷ news) t hs =
        ap (λ p. table_after key updates news p.1) (upsert_row-holds new t hs.0)
        ∙ table_after-held news t hs.1

    pub returned_by-held :
        (news t : List Row)
        → All (λ a. holds key a t ≡ true) news
        → (inserts (returned_by key updates news t) ≡ 0)
          × (changes (returned_by key updates news t) ≡ 0)
    returned_by-held [] t hs = (refl, refl)
    returned_by-held (new ∷ news) t hs =
        rw (upsert_row-holds new t hs.0) (returned_by-held news t hs.1)
