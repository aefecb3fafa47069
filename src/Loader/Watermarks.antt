-- ===== src/Loader/Watermarks.antt =====
-- The watermarks of ingestion/fineract_ingest/loader.py, written and read.
use fineract_analytics_platf.Prelude.{
  ℕ, ◌+◌, ◌≡◌, refl, ap, ◌∙◌, inl, inr, String, false, Option, none, some, List, [], ◌∷◌, str_eq,
  str_eq_refl, str_eq_true, Bool-cases, if◌then◌else◌, arith,
}
use fineract_analytics_platf.Values.{Cell}
use fineract_analytics_platf.Loader.Store.{Watermark}
use fineract_analytics_platf.Loader.Control.{advance, coalesce}
use fineract_analytics_platf.Loader.Status.{find_watermark}

abbrev pub cursor_of : Option Watermark → Option Cell
cursor_of none = none
cursor_of (some w) = w.last_cursor

abbrev pub total_of : Option Watermark → ℕ
total_of none = 0
total_of (some w) = w.total_rows_loaded

-- What a new load makes of the watermark that was read before it.
abbrev pub IsAdvanced : String → Option Cell → ℕ → Option Watermark → Option Watermark → Type 0
IsAdvanced entity cursor n old none = ⊥
IsAdvanced entity cursor n old (some w) =
    (w.entity ≡ entity)
    × (w.last_cursor ≡ coalesce cursor (cursor_of old))
    × (w.last_row_count ≡ n)
    × (w.total_rows_loaded ≡ total_of old + n)

coalesce-none : (c : Option Cell) → c ≡ coalesce c none
coalesce-none none = refl
coalesce-none (some c) = refl

advance-IsAdvanced :
    (entity : String) (cursor : Option Cell) (n : ℕ) (ws : List Watermark)
    → IsAdvanced entity cursor n
        (find_watermark entity ws)
        (find_watermark entity (advance entity cursor n ws))
unfolding advance
advance-IsAdvanced entity cursor n [] =
    rw (str_eq_refl entity) (refl, coalesce-none cursor, refl, omega arith)
advance-IsAdvanced entity cursor n (w ∷ ws) = elim (Bool-cases (str_eq w.entity entity)) [
  | inl e ↦ rw e (rw e (str_eq_true w.entity entity e, refl, refl, refl))
  | inr e ↦ rw e (rw e (advance-IsAdvanced entity cursor n ws))
]

advance_others :
    (entity other : String) (cursor : Option Cell) (n : ℕ) (ws : List Watermark)
    → str_eq entity other ≡ false
    → find_watermark other (advance entity cursor n ws) ≡ find_watermark other ws
unfolding advance
advance_others entity other cursor n [] h = rw h
advance_others entity other cursor n (w ∷ ws) h = elim (Bool-cases (str_eq w.entity entity)) [
  | inl e ↦
      let g : str_eq w.entity other ≡ false =
        ap (λ s. str_eq s other) (str_eq_true w.entity entity e) ∙ h in
      rw e (rw g)
  | inr e ↦ rw e (
      ap (λ o. if str_eq w.entity other then some w else o)
        (advance_others entity other cursor n ws h))
]

-- An update of an entity's watermark is what is read next: the rows of the load, their number added
-- to the total, and the new cursor, or the old one where the load had none. The watermark of every
-- other entity is read as before.
pub advance-find :
    (entity : String) (cursor : Option Cell) (n : ℕ) (ws : List Watermark)
    → IsAdvanced entity cursor n
        (find_watermark entity ws)
        (find_watermark entity (advance entity cursor n ws))
      × ((other : String)
          → str_eq entity other ≡ false
          → find_watermark other (advance entity cursor n ws) ≡ find_watermark other ws)
advance-find entity cursor n ws =
    (advance-IsAdvanced entity cursor n ws, λ other h. advance_others entity other cursor n ws h)
