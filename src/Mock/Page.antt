-- ===== src/Mock/Page.antt =====
-- `FineractDataset._strip_private` and `FineractDataset.page` of
-- ingestion/fineract_ingest/mock_server.py. A row of the dataset may hold dates under its private
-- keys; `json.dumps` of a date is the `TypeError` that `none` stands for.
use text.Mathlib.Text.{starts_with}
use fineract_analytics_platf.Prelude.{
  ℕ, zero, suc, ◌-◌, String, Bool, false, not, Option, none, some, List, [], ◌∷◌, str_eq,
  if◌then◌else◌, length, take, drop, select, map,
}
use fineract_analytics_platf.Prelude.Int.{ℤ, pos, negsuc, add_ℤ}
use fineract_analytics_platf.Values.{
  Value, int, array, object, Items, nil, cons, Fields, end, field, Text, text_eq, Date,
}
use fineract_analytics_platf.Parsers.Scan.{int_of_text, lower}

-- A value of a row of the dataset: JSON, or a date.
pub data Held : Type 0 where
  json : Value → Held
  date : Date → Held

abbrev pub Entry : Type 0
Entry = String × Held

abbrev pub DataRow : Type 0
DataRow = List Entry

abbrev pub is_public : Entry → Bool
is_public (k, v) = not (starts_with k "_")

-- FineractDataset._strip_private
unfoldable pub strip_private : List DataRow → List DataRow
strip_private = map (select is_public)

abbrev pub with_field : String → Held → Option Fields → Option Fields
with_field k (json v) (some fs) = some (field k v fs)
with_field k _ _ = none

-- json.dumps of a row, and of a list of rows
unfoldable pub encode : DataRow → Option Fields
encode [] = some end
encode ((k, v) ∷ row) = with_field k v (encode row)

abbrev pub with_item : Option Fields → Option Items → Option Items
with_item (some fs) (some vs) = some (cons (object fs) vs)
with_item _ _ = none

unfoldable pub encode_rows : List DataRow → Option Items
encode_rows [] = some nil
encode_rows (row ∷ rows) = with_item (encode row) (encode_rows rows)

-- The parameters of a URL, in order; `parse_qs` keeps no empty value.
abbrev pub Query : Type 0
Query = List (String × Text)

-- query.get(k)[0]
unfoldable pub first_value : Query → String → Option Text
first_value [] k = none
first_value ((j, v) ∷ query) k = if str_eq j k then some v else first_value query k

abbrev pub count_from : ℕ → Option Text → Option ℤ
count_from n none = some (pos n)
count_from n (some []) = some (pos n)
count_from n (some (c ∷ t)) = int_of_text (c ∷ t)

-- int(query.get(k, [n])[0] or n), where `none` is the `ValueError` of `int`
unfoldable pub count_of : Query → String → ℕ → Option ℤ
count_of query k n = count_from n (first_value query k)

-- Where an index of a slice lies: a negative one counts from the end.
abbrev pub position : ℕ → ℤ → ℕ
position size (pos n) = n
position size (negsuc n) = size - suc n

-- rows[start:stop]
unfoldable pub slice {ℓ} : {A : Type ℓ} → List A → ℤ → ℤ → List A
slice xs start stop =
    let i = position (length xs) start in take (position (length xs) stop - i) (drop i xs)

unfoldable pub paged_from : Option Text → Bool
unfolding lower
paged_from none = false
paged_from (some t) = text_eq (lower t) (b't' ∷ b'r' ∷ b'u' ∷ b'e' ∷ [])

-- `query.get("paged", ["false"])[0].lower() != "true"` is false
unfoldable pub is_paged : Query → Bool
is_paged query = paged_from (first_value query "paged")

-- `rows[:limit] if limit else rows`
unfoldable pub limited {ℓ} : {A : Type ℓ} → List A → ℤ → List A
unfolding slice
limited xs (pos zero) = xs
limited xs limit = slice xs (pos 0) limit

abbrev pub page_object : ℕ → Items → Value
page_object total vs =
    object (field "totalFilteredRecords" (int (pos total)) (field "pageItems" (array vs) end))

abbrev pub map_option {ℓ κ} : {A : Type ℓ} {B : Type κ} → (A → B) → Option A → Option B
map_option f none = none
map_option f (some a) = some (f a)

abbrev pub bind_option {ℓ κ} : {A : Type ℓ} {B : Type κ} → Option A → (A → Option B) → Option B
bind_option none f = none
bind_option (some a) f = f a

-- FineractDataset.page, as it is sent: `none` where it raises, or where a date is left.
unfoldable pub page : List DataRow → Query → Option Value
page rows query =
    let rows' = strip_private rows in
    if is_paged query
    then bind_option (count_of query "offset" 0) (λ offset.
      bind_option (count_of query "limit" 200) (λ limit.
        map_option (page_object (length rows'))
          (encode_rows (slice rows' offset (add_ℤ offset limit)))))
    else bind_option (count_of query "limit" 0)
        (λ limit. map_option array (encode_rows (limited rows' limit)))
