-- ===== src/Parsers/Scalars.antt =====
-- The parse functions of ingestion/fineract_ingest/parsers.py. `strptime`, `fromisoformat` and the
-- `str` of floats and containers are the parameter `Library`; `parse_timestamp`, which no mapper
-- calls, and the branches of `parse_date` for values that are dates already are left out: decoded
-- JSON holds none.
use fineract_analytics_platf.Prelude.{
  ℕ, zero, suc, ◌/◌, ◌^◌, String, Bool, true, false, not, ◌||◌, Option, none, some, [], ◌∷◌,
  if◌then◌else◌, take,
}
use fineract_analytics_platf.Prelude.Int.{ℤ, pos, negsuc, eqb_ℤ}
use fineract_analytics_platf.Values.{
  Text, text_eq, Number, fin, nan, inf, Date, Value, null, bool, int, float,
}
use fineract_analytics_platf.Outcome.{
  Exception, Outcome, ok, raised, type_error, value_error, overflow_error, ◌>>=◌,
}
use fineract_analytics_platf.Parsers.Scan.{
  strip, lower, int_of_text, float_of_text, decimal_of_text, str_of_int, negate,
}

-- What the parse functions call of Python's library.
pub record Library : Type 0 where
  pub strptime : Text → String → Option Date
  pub fromisoformat : Text → Option Date
  pub repr : Value → Text

-- m / 10 ^ s rounded towards zero, as `int` does
abbrev pub truncate : ℤ → ℕ → ℤ
truncate (pos n) s = pos (n / 10 ^ s)
truncate (negsuc n) s = negate (suc n / 10 ^ s)

-- int(x) of a float
unfoldable pub int_of_number : Number → Outcome ℤ
int_of_number (fin m s) = ok (truncate m s)
int_of_number nan = raised value_error
int_of_number (inf _) = raised overflow_error

abbrev pub int_of_bool : Bool → ℤ
int_of_bool true = pos 1
int_of_bool false = pos 0

abbrev pub or_value_error {ℓ} : {A : Type ℓ} → Option A → Outcome A
or_value_error none = raised value_error
or_value_error (some a) = ok a

-- int(value)
unfoldable pub int_of : Value → Outcome ℤ
unfolding int_of_number
int_of (bool b) = ok (int_of_bool b)
int_of (int z) = ok z
int_of (float n) = int_of_number n
int_of (Value.text t) = or_value_error (int_of_text t)
int_of _ = raised type_error

-- float(value)
unfoldable pub float_of : Value → Outcome Number
float_of (bool b) = ok (fin (int_of_bool b) 0)
float_of (int z) = ok (fin z 0)
float_of (float n) = ok n
float_of (Value.text t) = or_value_error (float_of_text t)
float_of _ = raised type_error

-- `except (ValueError, TypeError)`: the handler, or the exception that goes on.
abbrev pub except_value_or_type {ℓ} : {A : Type ℓ} → Outcome A → Outcome A → Outcome A
except_value_or_type (raised Exception.value_error) handler = handler
except_value_or_type (raised Exception.type_error) handler = handler
except_value_or_type r handler = r

abbrev pub map_outcome {ℓ κ} : {A : Type ℓ} {B : Type κ} → (A → B) → Outcome A → Outcome B
map_outcome f r = r >>= λ a. ok (f a)

-- int(value), else int(float(value)), else None
unfoldable pub int_or_none : Value → Outcome (Option ℤ)
unfolding int_of float_of int_of_number
int_or_none v =
    except_value_or_type (map_outcome some (int_of v))
      (except_value_or_type (map_outcome some (float_of v >>= int_of_number)) (ok none))

-- `value is None or value == ""`
abbrev pub is_blank : Value → Bool
is_blank null = true
is_blank (Value.text []) = true
is_blank _ = false

unfoldable pub parse_int : Value → Outcome (Option ℤ)
unfolding int_or_none
parse_int v = if is_blank v then ok none else int_or_none v

-- Decimal(str(value)): the text of a Boolean or of a container is no number.
abbrev decimal_of : Value → Option Number
decimal_of (int z) = some (fin z 0)
decimal_of (float n) = some n
decimal_of (Value.text t) = decimal_of_text t
decimal_of _ = none

unfoldable pub parse_decimal : Value → Option Number
parse_decimal v = if is_blank v then none else decimal_of v

abbrev number_nonzero : Number → Bool
number_nonzero (fin m s) = not (eqb_ℤ m (pos 0))
number_nonzero _ = true

abbrev is_yes : Text → Bool
is_yes t =
    text_eq t (b't' ∷ b'r' ∷ b'u' ∷ b'e' ∷ [])
    || text_eq t (b'1' ∷ [])
    || text_eq t (b'y' ∷ b'e' ∷ b's' ∷ [])
    || text_eq t (b'y' ∷ [])

abbrev bool_of : Library → Value → Option Bool
bool_of lib (bool b) = some b
bool_of lib (int z) = some (not (eqb_ℤ z (pos 0)))
bool_of lib (float n) = some (number_nonzero n)
bool_of lib (Value.text t) = some (is_yes (lower (strip t)))
bool_of lib v = some (is_yes (lower (strip (lib.repr v))))

unfoldable pub parse_bool : Library → Value → Option Bool
parse_bool lib v = if is_blank v then none else bool_of lib v

-- str(value)
unfoldable pub str_of : Library → Value → Text
str_of lib (Value.text t) = t
str_of lib (int z) = str_of_int z
str_of lib (bool true) = b'T' ∷ b'r' ∷ b'u' ∷ b'e' ∷ []
str_of lib (bool false) = b'F' ∷ b'a' ∷ b'l' ∷ b's' ∷ b'e' ∷ []
str_of lib v = lib.repr v

-- `text[:max_length] if max_length else text`
abbrev pub cut : Option ℕ → Text → Text
cut none t = t
cut (some zero) t = t
cut (some (suc n)) t = take (suc n) t

abbrev nonempty : Option ℕ → Text → Option Text
nonempty limit [] = none
nonempty limit (c ∷ t) = some (cut limit (c ∷ t))

abbrev is_none : Value → Bool
is_none null = true
is_none _ = false

unfoldable pub parse_text : Library → Option ℕ → Value → Option Text
unfolding str_of
parse_text lib limit v = if is_none v then none else nonempty limit (strip (str_of lib v))
