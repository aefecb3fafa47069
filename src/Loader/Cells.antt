-- ===== src/Loader/Cells.antt =====
-- The cells of a row under the projections and assignments of the upsert in
-- ingestion/fineract_ingest/loader.py.
use mathlib.Core.Path.{subst}
use fineract_analytics_platf.Prelude.{
  ◌≡◌, refl, sym, ap, ◌∙◌, inl, inr, String, true, false, not, List, [], ◌∷◌, str_eq, str_eq_refl,
  str_eq_true, Bool-cases, arith, if◌then◌else◌, select,
}
use fineract_analytics_platf.Values.{Cell, Row, columns, get_cell, set_cell, is_null}
use fineract_analytics_platf.Parsers.Hash.{contains}
use fineract_analytics_platf.Loader.Upsert.{project, assign}

pub get_cell-project :
    (cols : List String) (row : Row) (k : String)
    → contains k cols ≡ true
    → get_cell (project cols row) k ≡ get_cell row k
get_cell-project [] row k h = absurd (ground arith)
get_cell-project (c ∷ cols) row k h = elim (Bool-cases (str_eq c k)) [
  | inl e ↦ rw e (ap (get_cell row) (str_eq_true c k e))
  | inr e ↦ rw e (get_cell-project cols row k (rw e at h))
]

pub contains-columns :
    (row : Row) (k : String) → is_null (get_cell row k) ≡ false → contains k (columns row) ≡ true
contains-columns [] k h = ground arith
contains-columns ((c, v) ∷ row) k h = elim (Bool-cases (str_eq c k)) [
  | inl e ↦ rw e
  | inr e ↦ rw e (contains-columns row k (rw e at h))
]

pub get_cell-set_cell : (row : Row) (c : String) (v : Cell) → get_cell (set_cell row c v) c ≡ v
get_cell-set_cell [] c v = rw (str_eq_refl c)
get_cell-set_cell ((k, w) ∷ row) c v = elim (Bool-cases (str_eq k c)) [
  | inl e ↦ rw e (rw e)
  | inr e ↦ rw e (rw e (get_cell-set_cell row c v))
]

pub get_cell-set_cell_other :
    (row : Row) (c k : String) (v : Cell)
    → str_eq c k ≡ false
    → get_cell (set_cell row c v) k ≡ get_cell row k
get_cell-set_cell_other [] c k v h = rw h
get_cell-set_cell_other ((j, w) ∷ row) c k v h = elim (Bool-cases (str_eq j c)) [
  | inl e ↦ rw e (
      ap (λ b. if b then v else get_cell row k) (ap (λ s. str_eq s k) (str_eq_true j c e) ∙ h)
      ∙ sym (
          ap (λ b. if b then w else get_cell row k) (ap (λ s. str_eq s k) (str_eq_true j c e) ∙ h)))
  | inr e ↦ rw e (ap (λ x. if str_eq j k then w else x) (get_cell-set_cell_other row c k v h))
]

pub get_cell-assign_other :
    (cols : List String) (new old : Row) (k : String)
    → contains k cols ≡ false
    → get_cell (assign cols new old) k ≡ get_cell old k
get_cell-assign_other [] new old k h = refl
get_cell-assign_other (c ∷ cols) new old k h =
    get_cell-assign_other cols new (set_cell old c (get_cell new c)) k (ground arith)
    ∙ get_cell-set_cell_other old c k (get_cell new c) (ground arith)

get_cell-assign_same :
    (cols : List String) (new old : Row) (k : String)
    → get_cell old k ≡ get_cell new k
    → get_cell (assign cols new old) k ≡ get_cell new k
get_cell-assign_same [] new old k h = h
get_cell-assign_same (c ∷ cols) new old k h =
    get_cell-assign_same cols new (set_cell old c (get_cell new c)) k
      (elim (Bool-cases (str_eq c k)) [
        | inl e ↦
            subst (λ j. get_cell (set_cell old c (get_cell new c)) j ≡ get_cell new j)
              (str_eq_true c k e) (get_cell-set_cell old c (get_cell new c))
        | inr e ↦ get_cell-set_cell_other old c k (get_cell new c) e ∙ h
      ])

pub get_cell-assign :
    (cols : List String) (new old : Row) (k : String)
    → contains k cols ≡ true
    → get_cell (assign cols new old) k ≡ get_cell new k
get_cell-assign [] new old k h = absurd (ground arith)
get_cell-assign (c ∷ cols) new old k h = elim (Bool-cases (str_eq c k)) [
  | inl e ↦ get_cell-assign_same cols new (set_cell old c (get_cell new c)) k (
      subst (λ j. get_cell (set_cell old c (get_cell new c)) j ≡ get_cell new j) (str_eq_true c k e)
        (get_cell-set_cell old c (get_cell new c)))
  | inr e ↦ get_cell-assign cols new (set_cell old c (get_cell new c)) k (rw e at h)
]

-- The columns that are assigned are all but the key.
pub contains-select_others :
    (cols : List String) (key k : String)
    → str_eq key k ≡ false
    → contains k (select (λ c. not (str_eq c key)) cols) ≡ contains k cols
contains-select_others [] key k h = refl
contains-select_others (c ∷ cols) key k h = elim (Bool-cases (str_eq c key)) [
  | inl e ↦
      let g : str_eq c k ≡ false = ap (λ s. str_eq s k) (str_eq_true c key e) ∙ h in
      ground (arith, contains-select_others cols key k h)
  | inr e ↦ ground (arith, contains-select_others cols key k h)
]

pub contains-select_key :
    (cols : List String) (key : String)
    → contains key (select (λ c. not (str_eq c key)) cols) ≡ false
contains-select_key [] key = refl
contains-select_key (c ∷ cols) key = ground (arith, contains-select_key cols key)
