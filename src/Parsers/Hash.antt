-- ===== src/Parsers/Hash.antt =====
-- `payload_hash` and `chunked` of ingestion/fineract_ingest/parsers.py. The digest, SHA-256 of the
-- JSON text with sorted keys, is a parameter.
use Prim.Native.Nat.{Ordering}
use Prim.Native.String.{compare}
use fineract_analytics_platf.Prelude.{
  ℕ, zero, suc, String, Bool, true, false, not, List, [], ◌∷◌, ◌++◌, str_eq, if◌then◌else◌, length,
  take, drop, select, any,
}
use fineract_analytics_platf.Values.{Text, Cell, Row}
use fineract_analytics_platf.Outcome.{Outcome, ok, raised, value_error}

abbrev pub le_string : String → String → Bool
le_string a b = elim (compare a b) [ Ordering.gt ↦ false | _ ↦ true ]

unfoldable pub insert_sorted : String × Cell → Row → Row
insert_sorted e [] = e ∷ []
insert_sorted e (f ∷ row) =
    let rest = insert_sorted e row in if le_string e.0 f.0 then e ∷ f ∷ row else f ∷ rest

-- sorted(record.items()): the keys of a dict differ, so only they are compared.
unfoldable pub sorted : Row → Row
unfolding insert_sorted
sorted [] = []
sorted (e ∷ row) = insert_sorted e (sorted row)

abbrev pub contains : String → List String → Bool
contains k = any (λ j. str_eq j k)

-- The columns that the loader and the table keep for themselves.
abbrev pub own_columns : List String
own_columns = "_ingested_at" ∷ "_updated_at" ∷ "_payload_hash" ∷ []

unfoldable pub material : List String → Row → Row
unfolding sorted
material exclude record_ =
    select (λ (e : String × Cell). not (contains e.0 (exclude ++ own_columns))) (sorted record_)

unfoldable pub payload_hash : (Row → Text) → List String → Row → Text
payload_hash digest exclude record_ = digest (material exclude record_)

-- One slice after the other, from the start; `fuel` bounds their number.
unfoldable pub slices {ℓ} : {A : Type ℓ} → ℕ → ℕ → List A → List (List A)
slices zero size xs = []
slices (suc fuel) size [] = []
slices (suc fuel) size (x ∷ xs) = take size (x ∷ xs) ∷ slices fuel size (drop size (x ∷ xs))

-- A size of zero is the `ValueError` of `range`.
unfoldable pub chunked {ℓ} : {A : Type ℓ} → List A → ℕ → Outcome (List (List A))
chunked xs zero = raised value_error
chunked xs (suc n) = ok (slices (length xs) (suc n) xs)
