-- ===== src/Parsers/Dates.antt =====
-- `parse_date` of ingestion/fineract_ingest/parsers.py. A float is taken at its exact value; the
-- rounding of `fromtimestamp` to microseconds is not modelled.
use fineract_analytics_platf.Prelude.{
  ℕ, ◌+◌, ◌-◌, ◌*◌, ◌/◌, ◌%◌, ◌^◌, String, Bool, true, false, not, ◌&&◌, ◌||◌, Option, none, some,
  List, [], ◌∷◌, ltb, leb, ◌==◌, if◌then◌else◌, take,
}
use fineract_analytics_platf.Prelude.Int.{ℤ, pos, negsuc}
use fineract_analytics_platf.Values.{
  Text, Number, fin, nan, inf, number_lt, Date, Value, null, bool, int, float, array, items,
}
use fineract_analytics_platf.Outcome.{Outcome, ok, ◌>>=◌}
use fineract_analytics_platf.Parsers.Scan.{strip}
use fineract_analytics_platf.Parsers.Scalars.{Library, int_of, is_blank, int_of_bool}

abbrev pub is_leap : ℕ → Bool
is_leap y = y % 4 == 0 && (not (y % 100 == 0) || y % 400 == 0)

abbrev pub days_in_month : ℕ → ℕ → ℕ
days_in_month y m =
    if m == 2
    then (if is_leap y then 29 else 28)
    else if m == 4 || m == 6 || m == 9 || m == 11
    then 30
    else 31

-- date(y, m, d), or its `ValueError`
unfoldable pub make_date : ℤ → ℤ → ℤ → Option Date
make_date (pos y) (pos m) (pos d) =
    if leb 1 y && leb y 9999 && leb 1 m && leb m 12 && leb 1 d && leb d (days_in_month y m)
    then some (record { year = y; month = m; day = d })
    else none
make_date _ _ _ = none

-- The proleptic Gregorian date of a day counted from the first of March of the year 0.
unfoldable pub civil : ℕ → Date
civil z =
    let era = z / 146097 in
    let doe = z % 146097 in
    let yoe = (doe - doe / 1460 + doe / 36524 - doe / 146096) / 365 in
    let doy = doe - (365 * yoe + yoe / 4 - yoe / 100) in
    let mp = (5 * doy + 2) / 153 in
    let m = if ltb mp 10 then mp + 3 else mp - 9 in
    record {
      year = if leb m 2 then yoe + era * 400 + 1 else yoe + era * 400;
      month = m;
      day = doy - (153 * mp + 2) / 5 + 1;
    }

-- Days before, or from, the epoch: 719468 is the epoch, 306 the first and 3652364 the last day of
-- the years 1 to 9999 that Python has.
unfoldable pub date_of_days : Bool → ℕ → Option Date
unfolding civil
date_of_days true n = if leb n 719162 then some (civil (719468 - n)) else none
date_of_days false n = if leb n 2932896 then some (civil (719468 + n)) else none

-- The day of m / (10 ^ s * unit) seconds since the epoch, rounded down.
abbrev pub date_of_seconds : ℤ → ℕ → Option Date
date_of_seconds (pos n) unit = date_of_days false (n / (unit * 86400))
date_of_seconds (negsuc n) unit = date_of_days true (n / (unit * 86400) + 1)

-- `float(value) / 1000.0 if float(value) > 1e11 else float(value)`, and the date of that time stamp;
-- what is no time of Python's calendar is `None`.
unfoldable pub epoch_date : Number → Option Date
unfolding date_of_days
epoch_date (fin m s) =
    date_of_seconds m
      (if number_lt (fin (pos 100000000000) 0) (fin m s) then 1000 * 10 ^ s else 10 ^ s)
epoch_date nan = none
epoch_date (inf _) = none

-- [int(p) for p in value[:3] if p is not None]
unfoldable pub date_parts : List Value → Outcome (List ℤ)
date_parts [] = ok []
date_parts (null ∷ vs) = date_parts vs
date_parts (v ∷ vs) = do n ← int_of v; rest ← date_parts vs; ok (n ∷ rest)

abbrev date_of_parts : List ℤ → Option Date
date_of_parts (y ∷ m ∷ d ∷ _) = make_date y m d
date_of_parts _ = none

-- The formats that `parse_date` tries, in order.
abbrev pub formats : List (String × ℕ)
formats =
    ("%Y-%m-%d", 8)
    ∷ ("%d %B %Y", 8)
    ∷ ("%d/%m/%Y", 8)
    ∷ ("%Y-%m-%dT%H:%M:%S", 17)
    ∷ ("%Y-%m-%dT%H:%M:%S.%f", 20)
    ∷ ("%Y-%m-%d %H:%M:%S", 17)
    ∷ []

abbrev or_next : Option Date → Option Date → Option Date
or_next (some d) next = some d
or_next none next = next

-- datetime.strptime(text[: len(fmt) + 8], fmt), the first that is no `ValueError`
unfoldable pub try_formats : Library → Text → List (String × ℕ) → Option Date
try_formats lib t [] = none
try_formats lib t ((fmt, width) ∷ rest) =
    or_next (lib.strptime (take (width + 8) t) fmt) (try_formats lib t rest)

-- text.replace("Z", "+00:00")
unfoldable pub replace_z : Text → Text
replace_z [] = []
replace_z (c ∷ s) =
    let rest = replace_z s in
    if c == b'Z' then b'+' ∷ b'0' ∷ b'0' ∷ b':' ∷ b'0' ∷ b'0' ∷ rest else c ∷ rest

unfoldable pub date_of_text : Library → Text → Option Date
date_of_text lib t =
    or_next (try_formats lib (strip t) formats) (lib.fromisoformat (replace_z (strip t)))

abbrev date_of : Library → Value → Outcome (Option Date)
date_of lib (array vs) = do parts ← date_parts (take 3 (items vs)); ok (date_of_parts parts)
date_of lib (bool b) = ok (epoch_date (fin (int_of_bool b) 0))
date_of lib (int z) = ok (epoch_date (fin z 0))
date_of lib (float n) = ok (epoch_date n)
date_of lib (Value.text t) = ok (date_of_text lib t)
date_of lib _ = ok none

-- A part of a list that `int` does not take raises: the list is read outside the `try`.
unfoldable pub parse_date : Library → Value → Outcome (Option Date)
parse_date lib v = if is_blank v then ok none else date_of lib v
