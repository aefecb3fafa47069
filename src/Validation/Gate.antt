-- ===== src/Validation/Gate.antt =====
-- The last rule of `validate_record` in ingestion/fineract_ingest/validation.py on mapped records.
use text.Mathlib.Text.{starts_with}
use fineract_analytics_platf.Prelude.{
  ◌≡◌, ◌≢◌, refl, ap, ◌∙◌, inl, inr, String, Bool, true, false, not, ◌&&◌, Option, none, some, [],
  ◌∷◌, str_eq, str_eq_true, Bool-cases, all, arith,
}
use fineract_analytics_platf.Values.{Value, Fields, Cell, Row, get_cell, is_null}
use fineract_analytics_platf.Outcome.{Outcome, ok, raised}
use fineract_analytics_platf.Parsers.Scalars.{Library}
use fineract_analytics_platf.Entities.Cells.{build, or_false}
use fineract_analytics_platf.Entities.Columns.{OfColumn, build-skip, build-hit}
use fineract_analytics_platf.Entities.Spec.{EntitySpec}
use fineract_analytics_platf.Entities.Registry.{loan_transactions}
use fineract_analytics_platf.Entities.Loans.{loan_transaction_cells}
use fineract_analytics_platf.Validation.Records.{
  RejectedRecord, Rule, record_not_empty, validate_record, business_values, nonempty, is_negative,
}

abbrev is_business : String → String → Bool
is_business key c = not (str_eq c key) && not (starts_with c "_")

-- A business column that is not null keeps a record from being empty.
not_all_null :
    (row : Row) (key c : String)
    → is_business key c ≡ true
    → is_null (get_cell row c) ≡ false
    → all is_null (business_values key row) ≡ false
not_all_null [] key c b n = absurd (ground arith)
not_all_null ((k, v) ∷ row) key c b n = elim (Bool-cases (str_eq k c)) [
  | inl e ↦ rw (ap (is_business key) (str_eq_true k c e) ∙ b) (rw (rw e at n))
  | inr e ↦
      let ih = not_all_null row key c b (rw e at n) in
      elim (Bool-cases (is_business key k)) [ inl d ↦ rw d (ground (arith, ih)) | inr d ↦ rw d ih ]
]

-- The rule of a rejection, if there is one.
abbrev pub RuleIsNot : Rule → Option RejectedRecord → Type 0
RuleIsNot rule none = Unit
RuleIsNot rule (some r) = r.rule ≢ rule

kept_or_keyed :
    (spec : EntitySpec) (row : Row) (raw : Value)
    → all is_null (business_values spec.primary_key row) ≡ false
    → RuleIsNot record_not_empty (validate_record spec row raw)
unfolding validate_record
kept_or_keyed spec row raw h =
    let key = get_cell row spec.primary_key in
    let values = business_values spec.primary_key row in
    let g : (nonempty values && all is_null values) ≡ false = ground arith in
    elim (Bool-cases (is_null key)) [
      | inl a ↦ rw a (λ e. absurd (ground arith))
      | inr a ↦ elim (Bool-cases (is_negative key)) [
        | inl b ↦ rw a (rw b (λ e. absurd (ground arith)))
        | inr b ↦ rw a (rw b (rw g tt))
      ]
    ]

abbrev pub NotNull : Cell → Type 0
NotNull c = is_null c ≡ false

or_false-NotNull : (c : Cell) → NotNull (or_false c)
or_false-NotNull Cell.null = refl
or_false-NotNull (Cell.bool b) = refl
or_false-NotNull (Cell.int z) = refl
or_false-NotNull (Cell.decimal n) = refl
or_false-NotNull (Cell.text s) = refl
or_false-NotNull (Cell.date d) = refl

-- A mapped loan transaction has `is_reversed`, true or false.
is_reversed-NotNull :
    (lib : Library) (r : Fields)
    → OfColumn NotNull "is_reversed" (build (loan_transaction_cells lib r))
unfolding loan_transaction_cells
is_reversed-NotNull lib r = build-skip NotNull "is_reversed" "transaction_id" _ _ refl (
    build-skip NotNull "is_reversed" "loan_id" _ _ refl (
      build-skip NotNull "is_reversed" "office_id" _ _ refl (
        build-skip NotNull "is_reversed" "office_name" _ _ refl (
          build-skip NotNull "is_reversed" "type_id" _ _ refl (
            build-skip NotNull "is_reversed" "type_code" _ _ refl (
              build-skip NotNull "is_reversed" "type_value" _ _ refl
                (build-hit NotNull "is_reversed" _ _ (or_false-NotNull _))))))))

-- What `validate_record` says of what the mapper returned.
abbrev pub GateOf : (Option RejectedRecord → Type 0) → EntitySpec → Value → Outcome Row → Type 0
GateOf P spec raw (ok row) = P (validate_record spec row raw)
GateOf P spec raw (raised e) = Unit

gate :
    (raw : Value) (o : Outcome Row)
    → OfColumn NotNull "is_reversed" o
    → GateOf (RuleIsNot record_not_empty) loan_transactions raw o
gate raw (ok row) h =
    kept_or_keyed loan_transactions row raw (not_all_null row "transaction_id" "is_reversed" refl h)
gate raw (raised e) h = tt

-- No loan transaction is rejected by the rule that all its columns but the key are null, whatever
-- its JSON record: the mapper gives `is_reversed` a value where the record has none.
pub loan_transactions-never_empty :
    (lib : Library) (raw : Value)
    → GateOf (RuleIsNot record_not_empty) loan_transactions raw (loan_transactions.mapper lib raw)
loan_transactions-never_empty lib Value.null = tt
loan_transactions-never_empty lib (Value.bool b) = tt
loan_transactions-never_empty lib (Value.int z) = tt
loan_transactions-never_empty lib (Value.float n) = tt
loan_transactions-never_empty lib (Value.text s) = tt
loan_transactions-never_empty lib (Value.array vs) = tt
loan_transactions-never_empty lib (Value.object r) =
    gate (Value.object r) _ (is_reversed-NotNull lib r)
