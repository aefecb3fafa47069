-- ===== src/Entities/Columns.antt =====
-- The columns of what the mappers of ingestion/fineract_ingest/entities.py return.
use fineract_analytics_platf.Prelude.{◌≡◌, String, false, List, ◌∷◌, str_eq, str_eq_refl}
use fineract_analytics_platf.Values.{Cell, Row, get_cell}
use fineract_analytics_platf.Outcome.{Outcome, ok, raised, ◌>>=◌}
use fineract_analytics_platf.Entities.Cells.{build}

-- What holds of a column of the row, or of a cell, where there is one.
abbrev pub OfColumn : (Cell → Type 0) → String → Outcome Row → Type 0
OfColumn P c (ok row) = P (get_cell row c)
OfColumn P c (raised e) = Unit

abbrev pub OfCell : (Cell → Type 0) → Outcome Cell → Type 0
OfCell P (ok v) = P v
OfCell P (raised e) = Unit

module _ (P : Cell → Type 0) (c : String) where
  skip_row :
      (k : String) (v : Cell) (o : Outcome Row)
      → str_eq k c ≡ false
      → OfColumn P c o
      → OfColumn P c (o >>= (λ row. ok ((k, v) ∷ row)))
  skip_row k v (ok row) e h = rw e h
  skip_row k v (raised x) e h = tt

  skip_cell :
      (k : String) (o : Outcome Cell) (rest : Outcome Row)
      → str_eq k c ≡ false
      → OfColumn P c rest
      → OfColumn P c (o >>= (λ v. rest >>= (λ row. ok ((k, v) ∷ row))))
  skip_cell k (ok v) rest e h = skip_row k v rest e h
  skip_cell k (raised x) rest e h = tt

  hit_row : (v : Cell) (o : Outcome Row) → P v → OfColumn P c (o >>= (λ row. ok ((c, v) ∷ row)))
  hit_row v (ok row) h = rw (str_eq_refl c) h
  hit_row v (raised x) h = tt

  hit_cell :
      (o : Outcome Cell) (rest : Outcome Row)
      → OfCell P o
      → OfColumn P c (o >>= (λ v. rest >>= (λ row. ok ((c, v) ∷ row))))
  hit_cell (ok v) rest h = hit_row v rest h
  hit_cell (raised x) rest h = tt

  pub build-skip :
      (k : String) (o : Outcome Cell) (cells : List (String × Outcome Cell))
      → str_eq k c ≡ false
      → OfColumn P c (build cells)
      → OfColumn P c (build ((k, o) ∷ cells))
  unfolding build
  build-skip k o cells e h = skip_cell k o (build cells) e h

  pub build-hit :
      (o : Outcome Cell) (cells : List (String × Outcome Cell))
      → OfCell P o
      → OfColumn P c (build ((c, o) ∷ cells))
  unfolding build
  build-hit o cells h = hit_cell o (build cells) h
