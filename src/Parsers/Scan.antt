-- ===== src/Parsers/Scan.antt =====
-- The parts of Python's `str`, `int`, `float` and `Decimal` that
-- ingestion/fineract_ingest/parsers.py calls. Digits are the ASCII digits. A number is read exactly:
-- the rounding of `float` to 53 bits, and to infinity past its range, is not modelled.
use fineract_analytics_platf.Prelude.{
  ℕ, zero, suc, ◌+◌, ◌-◌, ◌*◌, ◌/◌, ◌%◌, ◌^◌, Bool, true, false, ◌&&◌, ◌||◌, Option, none, some, [],
  ◌∷◌, ltb, leb, ◌==◌, if◌then◌else◌,
}
use fineract_analytics_platf.Prelude.Int.{ℤ, pos, negsuc}
use fineract_analytics_platf.Values.{Text, text_eq, Number, fin, nan, inf}

-- str.isspace, of one character
abbrev pub is_space : ℕ → Bool
is_space c =
    c == 32
    || (leb 9 c && leb c 13)
    || (leb 28 c && leb c 31)
    || c == 133
    || c == 160
    || c == 5760
    || (leb 8192 c && leb c 8202)
    || c == 8232
    || c == 8233
    || c == 8239
    || c == 8287
    || c == 12288

unfoldable pub lstrip : Text → Text
lstrip [] = []
lstrip (c ∷ s) = let rest = lstrip s in if is_space c then rest else c ∷ s

-- A trailing run of spaces goes with the last character that is none.
unfoldable pub rstrip : Text → Text
rstrip [] = []
rstrip (c ∷ s) = keep c (rstrip s)
  where
    keep : ℕ → Text → Text
    keep c [] = if is_space c then [] else c ∷ []
    keep c (d ∷ t) = c ∷ d ∷ t

unfoldable pub strip : Text → Text
unfolding lstrip rstrip
strip s = rstrip (lstrip s)

-- str.lower, of the ASCII letters
unfoldable pub lower : Text → Text
lower [] = []
lower (c ∷ s) = (if leb b'A' c && leb c b'Z' then c + 32 else c) ∷ lower s

-- str.upper, of the ASCII letters
unfoldable pub upper : Text → Text
upper [] = []
upper (c ∷ s) = (if leb b'a' c && leb c b'z' then c - 32 else c) ∷ upper s

abbrev pub is_digit : ℕ → Bool
is_digit c = leb b'0' c && leb c b'9'

-- The value of a run of digits behind `acc`, its length, and what follows.
unfoldable pub scan_digits : ℕ → ℕ → Text → ℕ × ℕ × Text
scan_digits acc n [] = (acc, n, [])
scan_digits acc n (c ∷ s) =
    let rest = scan_digits (acc * 10 + (c - b'0')) (suc n) s in
    if is_digit c then rest else (acc, n, c ∷ s)

-- An underscore may stand between two digits.
unfoldable pub without_underscores : Bool → Text → Option Text
without_underscores after_digit [] = some []
without_underscores after_digit (c ∷ []) = if c == b'_' then none else some (c ∷ [])
without_underscores after_digit (c ∷ d ∷ s) =
    let rest = without_underscores (is_digit c) (d ∷ s) in
    if c == b'_' then (if after_digit && is_digit d then rest else none) else push c rest
  where
    push : ℕ → Option Text → Option Text
    push c none = none
    push c (some t) = some (c ∷ t)

unfoldable pub drop_underscores : Text → Text
drop_underscores [] = []
drop_underscores (c ∷ s) = let rest = drop_underscores s in if c == b'_' then rest else c ∷ rest

abbrev pub negate : ℕ → ℤ
negate zero = pos 0
negate (suc n) = negsuc n

-- A sign, and what follows it.
abbrev pub sign_of : Text → Bool × Text
sign_of [] = (false, [])
sign_of (c ∷ s) = if c == b'-' then (true, s) else if c == b'+' then (false, s) else (false, c ∷ s)

abbrev pub signed : Bool → ℕ → ℤ
signed negative n = if negative then negate n else pos n

-- A whole text of one or more digits.
abbrev pub all_digits : ℕ × ℕ × Text → Option ℕ
all_digits (v, zero, _) = none
all_digits (v, suc n, []) = some v
all_digits (v, suc n, _ ∷ _) = none

abbrev pub map_option {ℓ κ} : {A : Type ℓ} {B : Type κ} → (A → B) → Option A → Option B
map_option f none = none
map_option f (some a) = some (f a)

-- int(text)
unfoldable pub int_of_text : Text → Option ℤ
unfolding strip scan_digits without_underscores
int_of_text s =
    let (negative, t) = sign_of (strip s) in
    elim (without_underscores false t) [
      | none ↦ none
      | some u ↦ map_option (signed negative) (all_digits (scan_digits 0 0 u))
    ]

-- m / 10 ^ s times 10 ^ e, or divided by it
abbrev pub shifted : ℤ → ℕ → Bool → ℕ → Number
shifted m s true e = fin m (s + e)
shifted (pos n) s false e = if leb e s then fin (pos n) (s - e) else fin (pos (n * 10 ^ (e - s))) 0
shifted (negsuc n) s false e =
    if leb e s then fin (negsuc n) (s - e) else fin (negate (suc n * 10 ^ (e - s))) 0

-- The exponent behind the digits, if there is one.
abbrev pub with_exponent : ℤ → ℕ → Text → Option Number
with_exponent m s [] = some (fin m s)
with_exponent m s (c ∷ t) =
    if c == b'e' || c == b'E'
    then (let (negative, u) = sign_of t in
        map_option (shifted m s negative) (all_digits (scan_digits 0 0 u)))
    else none

-- The fraction behind the whole part.
abbrev pub with_fraction : Bool → ℕ × ℕ × Text → Option Number
with_fraction negative (v, n, []) = if n == 0 then none else some (fin (signed negative v) 0)
with_fraction negative (v, n, c ∷ t) =
    if c == b'.'
    then (let (w, k, u) = scan_digits v 0 t in
        if n + k == 0 then none else with_exponent (signed negative w) k u)
    else if n == 0
    then none
    else with_exponent (signed negative v) 0 (c ∷ t)

abbrev pub word : Text → Bool → Option Number
word t negative =
    if text_eq t (b'i' ∷ b'n' ∷ b'f' ∷ [])
      || text_eq t (b'i' ∷ b'n' ∷ b'f' ∷ b'i' ∷ b'n' ∷ b'i' ∷ b't' ∷ b'y' ∷ [])
    then some (inf negative)
    else if text_eq t (b'n' ∷ b'a' ∷ b'n' ∷ [])
    then some nan
    else none

-- A number after its underscores are gone: a word, or digits with a point and an exponent.
unfoldable pub number_of_text : Text → Option Number
unfolding lower scan_digits
number_of_text s =
    let (negative, t) = sign_of s in
    elim (word (lower t) negative) [
      | some n ↦ some n
      | none ↦ with_fraction negative (scan_digits 0 0 t)
    ]

-- float(text)
unfoldable pub float_of_text : Text → Option Number
unfolding strip without_underscores number_of_text
float_of_text s = elim (without_underscores false (strip s)) [
  | none ↦ none
  | some t ↦ number_of_text t
]

-- Decimal(text); the signalling and the tagged NaNs of `Decimal` are not modelled
unfoldable pub decimal_of_text : Text → Option Number
unfolding strip drop_underscores number_of_text
decimal_of_text s = number_of_text (drop_underscores (strip s))

-- str(n)
unfoldable pub digits_of : ℕ → ℕ → Text → Text
digits_of zero n t = t
digits_of (suc fuel) n t =
    let more = digits_of fuel (n / 10) ((b'0' + n % 10) ∷ t) in
    if ltb n 10 then (b'0' + n) ∷ t else more

unfoldable pub str_of_int : ℤ → Text
unfolding digits_of
str_of_int (pos n) = digits_of (suc n) n []
str_of_int (negsuc n) = b'-' ∷ digits_of (suc (suc n)) (suc n) []
