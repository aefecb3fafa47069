-- ===== src/Entities/Keys.antt =====
-- The primary key of what the mappers of ingestion/fineract_ingest/entities.py return.
use fineract_analytics_platf.Prelude.{
  ◌≡◌, refl, ◌⊎◌, inl, inr, String, Option, none, some, List, ◌∷◌, All, str_eq_refl,
}
use fineract_analytics_platf.Prelude.Int.{ℤ}
use fineract_analytics_platf.Values.{
  Value, null, bool, int, float, text, array, object, Fields, Cell, Row, get_cell,
}
use fineract_analytics_platf.Outcome.{Outcome, ok, raised, ◌>>=◌}
use fineract_analytics_platf.Parsers.Scalars.{Library, parse_int, map_outcome}
use fineract_analytics_platf.Entities.Cells.{int_cell, or_null, build}
use fineract_analytics_platf.Entities.Spec.{EntitySpec, mapper_of}
use fineract_analytics_platf.Entities.Registry.{entities}
use fineract_analytics_platf.Entities.Products.{
  office_cells, staff_cells, loan_product_cells, savings_product_cells,
}
use fineract_analytics_platf.Entities.Clients.{client_cells, savings_account_cells}
use fineract_analytics_platf.Entities.Loans.{loan_cells, loan_transaction_cells}

abbrev pub IntOrNull : Cell → Type 0
IntOrNull c = (c ≡ Cell.null) ⊎ ((z : ℤ) × (c ≡ Cell.int z))

-- A mapped record has an integer or nothing at its key; an exception says nothing.
abbrev pub KeyIsInt : String → Outcome Row → Type 0
KeyIsInt key (ok row) = IntOrNull (get_cell row key)
KeyIsInt key (raised e) = Unit

after_key :
    (key : String) (c : Cell) (o : Outcome Row)
    → IntOrNull c
    → KeyIsInt key (o >>= (λ row. ok ((key, c) ∷ row)))
after_key key c (ok row) h = rw (str_eq_refl key) h
after_key key c (raised e) h = tt

parsed_key :
    (key : String) (o : Outcome (Option ℤ)) (rest : Outcome Row)
    → KeyIsInt key
        (map_outcome (or_null Cell.int) o >>= (λ c. rest >>= (λ row. ok ((key, c) ∷ row))))
parsed_key key (ok none) rest = after_key key Cell.null rest (inl refl)
parsed_key key (ok (some z)) rest = after_key key (Cell.int z) rest (inr (z, refl))
parsed_key key (raised e) rest = tt

-- The key stands first in every mapper.
build-KeyIsInt :
    (key : String) (v : Value) (cells : List (String × Outcome Cell))
    → KeyIsInt key (build ((key, int_cell v) ∷ cells))
unfolding build
build-KeyIsInt key v cells = parsed_key key (parse_int v) (build cells)

mapper_of-KeyIsInt :
    (key : String) (cells : Library → Fields → List (String × Outcome Cell))
    → ((lib : Library) (r : Fields) → KeyIsInt key (build (cells lib r)))
    → (lib : Library) (raw : Value) → KeyIsInt key (mapper_of cells lib raw)
mapper_of-KeyIsInt key cells h lib null = tt
mapper_of-KeyIsInt key cells h lib (bool b) = tt
mapper_of-KeyIsInt key cells h lib (int z) = tt
mapper_of-KeyIsInt key cells h lib (float n) = tt
mapper_of-KeyIsInt key cells h lib (text s) = tt
mapper_of-KeyIsInt key cells h lib (array vs) = tt
mapper_of-KeyIsInt key cells h lib (object r) = h lib r

abbrev pub HasIntKeys : EntitySpec → Type 0
HasIntKeys spec = (lib : Library) (raw : Value) → KeyIsInt spec.primary_key (spec.mapper lib raw)

-- Every entity of the registry maps each record to an integer or nothing at its primary key, or
-- raises.
pub entities-HasIntKeys : All HasIntKeys entities
unfolding office_cells staff_cells loan_product_cells savings_product_cells client_cells loan_cells
    savings_account_cells loan_transaction_cells
entities-HasIntKeys = (
  mapper_of-KeyIsInt "office_id" office_cells (λ lib r. build-KeyIsInt "office_id" _ _),
  (
    mapper_of-KeyIsInt "staff_id" staff_cells (λ lib r. build-KeyIsInt "staff_id" _ _),
    (
      mapper_of-KeyIsInt "product_id" loan_product_cells (λ lib r. build-KeyIsInt "product_id" _ _),
      (
        mapper_of-KeyIsInt "product_id" savings_product_cells
            (λ lib r. build-KeyIsInt "product_id" _ _),
        (
          mapper_of-KeyIsInt "client_id" client_cells (λ lib r. build-KeyIsInt "client_id" _ _),
          (
            mapper_of-KeyIsInt "loan_id" loan_cells (λ lib r. build-KeyIsInt "loan_id" _ _),
            (
              mapper_of-KeyIsInt "savings_id" savings_account_cells
                  (λ lib r. build-KeyIsInt "savings_id" _ _),
              (
                mapper_of-KeyIsInt "transaction_id" loan_transaction_cells
                    (λ lib r. build-KeyIsInt "transaction_id" _ _),
                tt,
              ),
            ),
          ),
        ),
      ),
    ),
  ),
)
