-- ===== src/Values.antt =====
-- The Python values that the ingestion package passes about: decoded JSON (`Any` in
-- ingestion/fineract_ingest), and the mapped records that the loader writes (`Record` in
-- ingestion/fineract_ingest/entities.py, whose values are what the functions of parsers.py return).
-- A text is the list of its code points; a float or a `Decimal` is a decimal fraction, an infinity
-- or not a number.
use Prim.Native.Char.{code}
use Prim.Native.String.{◌∷◌ as ◌∷ˢ◌, [] as []ˢ}
use fineract_analytics_platf.Prelude.{
  ℕ, ◌^◌, ◌≡◌, refl, ap, ◌∙◌, ==_iff, and_true, arith, String, Bool, true, false, not, ◌&&◌, Option,
  none, some, List, [], ◌∷◌, str_eq, ◌==◌, if◌then◌else◌,
}
use fineract_analytics_platf.Prelude.Int.{ℤ, pos, scale_ℤ, eqb_ℤ, ltb_ℤ}

abbrev pub Text : Type 0
Text = List ℕ

-- `fin m s` is m / 10 ^ s; `inf true` is minus infinity.
pub data Number : Type 0 where
  fin : ℤ → ℕ → Number
  nan : Number
  inf : Bool → Number

pub record Date : Type 0 where
  pub year : ℕ
  pub month : ℕ
  pub day : ℕ

mutual
  pub data Value : Type 0 where
    null : Value
    bool : Bool → Value
    int : ℤ → Value
    float : Number → Value
    text : Text → Value
    array : Items → Value
    object : Fields → Value

  pub data Items : Type 0 where
    nil : Items
    cons : Value → Items → Items

  pub data Fields : Type 0 where
    end : Fields
    field : String → Value → Fields → Fields

-- A dict's `get`: the value at a key, `None` where it is missing.
abbrev pub get_field? : Fields → String → Option Value
get_field? end k = none
get_field? (field j v fs) k = if str_eq j k then some v else get_field? fs k

abbrev pub get_field : Fields → String → Value
get_field fs k = elim (get_field? fs k) [ none ↦ null | some v ↦ v ]

-- A list of records, as Python's list.
abbrev pub items : Items → List Value
items nil = []
items (cons v vs) = v ∷ items vs

-- What a mapped record holds in a column.
pub data Cell : Type 0 where
  null : Cell
  bool : Bool → Cell
  int : ℤ → Cell
  decimal : Number → Cell
  text : Text → Cell
  date : Date → Cell

-- `value is None`
abbrev pub is_null : Cell → Bool
is_null Cell.null = true
is_null _ = false

abbrev pub Row : Type 0
Row = List (String × Cell)

-- row.get(column)
abbrev pub get_cell : Row → String → Cell
get_cell [] c = Cell.null
get_cell ((k, v) ∷ row) c = if str_eq k c then v else get_cell row c

-- row[column] = v
abbrev pub set_cell : Row → String → Cell → Row
set_cell [] c v = (c, v) ∷ []
set_cell ((k, w) ∷ row) c v = if str_eq k c then (k, v) ∷ row else (k, w) ∷ set_cell row c v

-- list(row.keys())
abbrev pub columns : Row → List String
columns [] = []
columns ((k, _) ∷ row) = k ∷ columns row

abbrev pub text_eq : Text → Text → Bool
text_eq [] [] = true
text_eq [] (_ ∷ _) = false
text_eq (_ ∷ _) [] = false
text_eq (a ∷ s) (b ∷ t) = a == b && text_eq s t

abbrev pub bool_eq : Bool → Bool → Bool
bool_eq true b = b
bool_eq false b = not b

abbrev pub date_eq : Date → Date → Bool
date_eq a b = a.year == b.year && a.month == b.month && a.day == b.day

abbrev pub number_eq : Number → Number → Bool
number_eq (fin m s) (fin n t) = eqb_ℤ (scale_ℤ m (10 ^ t)) (scale_ℤ n (10 ^ s))
number_eq (inf a) (inf b) = bool_eq a b
number_eq _ _ = false

abbrev pub number_lt : Number → Number → Bool
number_lt (fin m s) (fin n t) = ltb_ℤ (scale_ℤ m (10 ^ t)) (scale_ℤ n (10 ^ s))
number_lt (inf a) (inf b) = a && not b
number_lt (inf a) (fin _ _) = a
number_lt (fin _ _) (inf b) = not b
number_lt _ _ = false

-- The number that `==` compares: Python's booleans are integers.
abbrev number_of : Cell → Option Number
number_of (Cell.bool true) = some (fin (pos 1) 0)
number_of (Cell.bool false) = some (fin (pos 0) 0)
number_of (Cell.int z) = some (fin z 0)
number_of (Cell.decimal n) = some n
number_of _ = none

abbrev same_number : Option Number → Option Number → Bool
same_number (some a) (some b) = number_eq a b
same_number _ _ = false

-- Python's `==` on the values of mapped records.
unfoldable pub cell_eq : Cell → Cell → Bool
cell_eq (Cell.int a) (Cell.int b) = eqb_ℤ a b
cell_eq Cell.null Cell.null = true
cell_eq (Cell.text s) (Cell.text t) = text_eq s t
cell_eq (Cell.date a) (Cell.date b) = date_eq a b
cell_eq a b = same_number (number_of a) (number_of b)

-- The code points of a string.
unfoldable pub chars : String → Text
chars []ˢ = []
chars (c ∷ˢ s) = code c ∷ chars s

pub text_eq_refl : (t : Text) → text_eq t t ≡ true
text_eq_refl [] = refl
text_eq_refl (a ∷ t) = ground (arith, text_eq_refl t)

pub text_eq-true : (s t : Text) → text_eq s t ≡ true → s ≡ t
text_eq-true [] [] e = refl
text_eq-true [] (b ∷ t) e = ground arith
text_eq-true (a ∷ s) [] e = ground arith
text_eq-true (a ∷ s) (b ∷ t) e =
    let h = and_true (a == b) (text_eq s t) e in
    ap (λ (x : ℕ). x ∷ s) ((==_iff a b).0 h.0) ∙ ap (λ (u : Text). b ∷ u) (text_eq-true s t h.1)
