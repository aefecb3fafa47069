-- ===== src/Pipeline/Conserve.antt =====
-- The loop of `_map_and_validate` of ingestion/fineract_ingest/pipeline.py, record by record, against
-- the invariant of `Dedup`.
use mathlib.Core.Path.{subst}
use fineract_analytics_platf.Prelude.{
  ℕ, suc, ◌+◌, ◌≡◌, refl, ap, ◌∙◌, inl, inr, String, true, false, ◌||◌, Option, none, some, List,
  [], ◌∷◌, ◌++◌, length, length-append, any-append, All, All-append, Bool-cases, str_eq, arith,
}
use fineract_analytics_platf.Values.{Text, Value, Cell, Row, get_cell, set_cell, is_null, cell_eq}
use fineract_analytics_platf.Outcome.{Outcome, ok, raised}
use fineract_analytics_platf.Parsers.Scalars.{Library}
use fineract_analytics_platf.Parsers.Hash.{payload_hash}
use fineract_analytics_platf.Entities.Spec.{EntitySpec}
use fineract_analytics_platf.Entities.Keys.{IntOrNull, KeyIsInt, HasIntKeys}
use fineract_analytics_platf.Validation.Records.{RejectedRecord, validate_record}
use fineract_analytics_platf.Loader.Cells.{get_cell-set_cell, get_cell-set_cell_other}
use fineract_analytics_platf.Loader.Stored.{IntKey, TextHash, same_key}
use fineract_analytics_platf.Pipeline.Batch.{
  source_system, Batch, empty, stamp, reject, is_seen, accept, admit, mapped_as, take_record,
  map_and_validate_from, map_and_validate,
}
use fineract_analytics_platf.Pipeline.Dedup.{
  IsInt, int_refl, is_covered, Deduped, Kept, Kept-unseen, Kept-seen, DistinctKeys-append,
}

-- The key is none of the two columns that a record is stamped with.
pub record OwnKey (pk : String) : Type 0 where
  pub source : str_eq "_source_system" pk ≡ false
  pub hash : str_eq "_payload_hash" pk ≡ false

module _ (digest : Row → Text) (pk : String) (own : OwnKey pk) where
  stamp-key : (mapped : Row) → get_cell (stamp digest mapped) pk ≡ get_cell mapped pk
  unfolding stamp
  stamp-key mapped =
      get_cell-set_cell_other _ "_payload_hash" pk _ own.hash
      ∙ get_cell-set_cell_other mapped "_source_system" pk _ own.source

  stamp-hash : (mapped : Row) → TextHash (stamp digest mapped)
  unfolding stamp
  stamp-hash mapped =
      let sourced = set_cell mapped "_source_system" source_system in
      (
        payload_hash digest [] sourced,
        get_cell-set_cell sourced "_payload_hash" (Cell.text (payload_hash digest [] sourced)),
      )

  differ_new :
      (new : Row) (key : Cell) (kept : List Row)
      → get_cell new pk ≡ key
      → All (λ r. cell_eq (get_cell r pk) key ≡ false) kept
      → All (λ r. same_key pk r new ≡ false) kept
  differ_new new key [] e ds = tt
  differ_new new key (r ∷ kept) e ds =
      (ap (cell_eq (get_cell r pk)) e ∙ ds.0, differ_new new key kept e ds.1)

  note_more :
      (key : Cell) (seen : List Cell) (rows : List Row)
      → All (λ r. is_seen (get_cell r pk) seen ≡ true) rows
      → All (λ r. is_seen (get_cell r pk) (key ∷ seen) ≡ true) rows
  note_more key seen [] hs = tt
  note_more key seen (r ∷ rows) hs = (ground arith, note_more key seen rows hs.1)

  covers_one :
      (new : Row) (key : Cell) (kept : List Row) (k : Cell)
      → get_cell new pk ≡ key
      → (is_covered pk kept k || cell_eq key k) ≡ true
      → is_covered pk (kept ++ new ∷ []) k ≡ true
  covers_one new key kept k e h =
      let f = any-append (λ r. cell_eq (get_cell r pk) k) kept (new ∷ []) in
      let g : cell_eq (get_cell new pk) k ≡ cell_eq key k = ap (λ c. cell_eq c k) e in ground arith

  cover_more :
      (new : Row) (key : Cell) (kept : List Row) (seen : List Cell)
      → get_cell new pk ≡ key
      → All (λ k. (is_covered pk kept k || cell_eq key k) ≡ true) seen
      → All (λ k. is_covered pk (kept ++ new ∷ []) k ≡ true) seen
  cover_more new key kept [] e hs = tt
  cover_more new key kept (k ∷ seen) e hs =
      (covers_one new key kept k e hs.0, cover_more new key kept seen e hs.1)

  accepted :
      (n : ℕ) (b : Batch) (mapped : Row) (kept : List Row)
      → Deduped pk n b
      → IsInt (get_cell mapped pk)
      → Kept pk (get_cell mapped pk) b.seen kept
      → Deduped pk
          (suc n)
          (record b { rows = kept ++ stamp digest mapped ∷ []; seen = get_cell mapped pk ∷ b.seen })
  accepted n b mapped kept h i k = record {
    distinct =
        DistinctKeys-append pk kept (stamp digest mapped) k.distinct
          (differ_new (stamp digest mapped) (get_cell mapped pk) kept (stamp-key mapped) k.differs);
    keys =
        All-append (IntKey pk) kept (stamp digest mapped ∷ []) k.keys
          ((i.0, stamp-key mapped ∙ i.1), tt);
    hashes = All-append TextHash kept (stamp digest mapped ∷ []) k.hashes (stamp-hash mapped, tt);
    noted =
        All-append _ kept (stamp digest mapped ∷ [])
          (note_more (get_cell mapped pk) b.seen kept k.noted)
          (
            rw (
                ap (cell_eq (get_cell mapped pk)) (stamp-key mapped)
                ∙ int_refl (get_cell mapped pk) i),
            tt,
          );
    ints = (i, h.ints);
    covered = (
      covers_one (stamp digest mapped) (get_cell mapped pk) kept (get_cell mapped pk)
          (stamp-key mapped) (rw (int_refl (get_cell mapped pk) i) (ground arith)),
      cover_more (stamp digest mapped) (get_cell mapped pk) kept b.seen (stamp-key mapped)
          k.covered,
    );
    conserved = omega (arith, h.conserved);
  }

  accept-Deduped :
      (n : ℕ) (b : Batch) (mapped : Row)
      → Deduped pk n b
      → IsInt (get_cell mapped pk)
      → Deduped pk (suc n) (accept digest pk mapped b)
  unfolding accept
  accept-Deduped n b mapped h i = elim (Bool-cases (is_seen (get_cell mapped pk) b.seen)) [
    | inl e ↦ rw e (accepted n b mapped _ h i (Kept-seen pk (get_cell mapped pk) n b h i))
    | inr e ↦ rw e (accepted n b mapped _ h i (Kept-unseen pk (get_cell mapped pk) n b h e))
  ]

reject-Deduped :
    (pk : String) (n : ℕ) (b : Batch) (r : RejectedRecord)
    → Deduped pk n b
    → Deduped pk (suc n) (reject r b)
reject-Deduped pk n b r h = record {
  distinct = h.distinct;
  keys = h.keys;
  hashes = h.hashes;
  noted = h.noted;
  ints = h.ints;
  covered = h.covered;
  conserved = omega (arith, h.conserved, length-append b.rejects (r ∷ []));
}

-- A record that passes the gate has a key.
validate_record-key :
    (spec : EntitySpec) (mapped : Row) (raw : Value)
    → validate_record spec mapped raw ≡ none
    → is_null (get_cell mapped spec.primary_key) ≡ false
unfolding validate_record
validate_record-key spec mapped raw h =
    elim (Bool-cases (is_null (get_cell mapped spec.primary_key))) [
      | inl e ↦ let k = rw e at h in absurd (ground arith)
      | inr e ↦ e
    ]

module _ (lib : Library) (digest : Row → Text) (spec : EntitySpec) where
  admitted :
      (n : ℕ) (b : Batch) (raw : Value) (mapped : Row) (o : Option RejectedRecord)
      → OwnKey spec.primary_key
      → Deduped spec.primary_key n b
      → IntOrNull (get_cell mapped spec.primary_key)
      → (o ≡ none → is_null (get_cell mapped spec.primary_key) ≡ false)
      → Deduped spec.primary_key (suc n) (admit digest spec raw mapped o b)
  admitted n b raw mapped (some r) own h i k = reject-Deduped spec.primary_key n b r h
  admitted n b raw mapped none own h (inl e) k = absurd (ground (arith, k refl, ap is_null e))
  admitted n b raw mapped none own h (inr i) k =
      accept-Deduped digest spec.primary_key own n b mapped h i

  mapped_as-Deduped :
      (n : ℕ) (b : Batch) (raw : Value) (o : Outcome Row)
      → OwnKey spec.primary_key
      → Deduped spec.primary_key n b
      → KeyIsInt spec.primary_key o
      → Deduped spec.primary_key (suc n) (mapped_as digest spec raw o b)
  mapped_as-Deduped n b raw (raised e) own h i = reject-Deduped spec.primary_key n b _ h
  mapped_as-Deduped n b raw (ok mapped) own h i =
      admitted n b raw mapped (validate_record spec mapped raw) own h i
        (validate_record-key spec mapped raw)

  from-Deduped :
      (n : ℕ) (b : Batch) (raws : List Value)
      → OwnKey spec.primary_key
      → HasIntKeys spec
      → Deduped spec.primary_key n b
      → Deduped spec.primary_key (n + length raws) (map_and_validate_from lib digest spec raws b)
  unfolding map_and_validate_from take_record
  from-Deduped n b [] own i h = subst (λ m. Deduped spec.primary_key m b) (omega arith) h
  from-Deduped n b (raw ∷ raws) own i h =
      subst (λ m. Deduped spec.primary_key m (map_and_validate_from lib digest spec (raw ∷ raws) b))
        (omega arith)
        (from-Deduped (suc n) _ raws own i
          (mapped_as-Deduped n b raw (spec.mapper lib raw) own h (i lib raw)))

  -- For an entity whose mapper gives integer keys, the batch has one row per key, with an integer key
  -- and a hash, and each of the records read is a reject or has its key among those of the rows.
  pub map_and_validate-Deduped :
      (raws : List Value)
      → OwnKey spec.primary_key
      → HasIntKeys spec
      → Deduped spec.primary_key (length raws) (map_and_validate lib digest spec raws)
  unfolding map_and_validate
  map_and_validate-Deduped raws own i =
      subst (λ m. Deduped spec.primary_key m (map_and_validate_from lib digest spec raws empty))
        (omega arith)
        (from-Deduped 0 empty raws own i (record {
          distinct = tt;
          keys = tt;
          hashes = tt;
          noted = tt;
          ints = tt;
          covered = tt;
          conserved = refl;
        }))
