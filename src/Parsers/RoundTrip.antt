-- ===== src/Parsers/RoundTrip.antt =====
-- `int` of what `str` writes: the two ends of the numbers that the client puts into a URL and the
-- mock server reads back.
use fineract_analytics_platf.Prelude.{
  ℕ, zero, suc, ◌+◌, ◌*◌, ◌/◌, ◌%◌, ◌<◌, ◌≡◌, refl, ap, ◌∙◌, inl, inr, Bool, true, false, Option,
  none, some, [], ◌∷◌, ltb, ◌==◌, arith, Bool-cases,
}
use fineract_analytics_platf.Prelude.Int.{ℤ, pos, negsuc}
use fineract_analytics_platf.Values.{Text}
use fineract_analytics_platf.Parsers.Scan.{
  is_space, is_digit, lstrip, rstrip, strip, scan_digits, without_underscores, sign_of, all_digits,
  int_of_text, signed, map_option, digits_of, str_of_int,
}

abbrev AllDigits : Text → Type 0
AllDigits [] = Unit
AllDigits (c ∷ s) = (is_digit c ≡ true) × AllDigits s

-- What `digits_of` writes in front of `t` is digits whose value is `n`.
record Writes (n : ℕ) (t s : Text) : Type 0 where
  more : ℕ
  scans : scan_digits 0 0 s ≡ scan_digits n (suc more) t
  digits : AllDigits s

scan-digit :
    (acc k d : ℕ) (t : Text)
    → d < 10
    → scan_digits acc k ((b'0' + d) ∷ t) ≡ scan_digits (acc * 10 + d) (suc k) t
unfolding scan_digits
scan-digit acc k d t h = ground arith

digits_of-Writes :
    (fuel n : ℕ) (t : Text) → n < fuel → AllDigits t → Writes n t (digits_of fuel n t)
unfolding digits_of
digits_of-Writes zero n t h ds = absurd (omega arith)
digits_of-Writes (suc fuel) n t h ds = elim (Bool-cases (ltb n 10)) [
  | inl small ↦ rw small (record {
    more = 0;
    scans =
        scan-digit 0 0 n t (ground arith)
        ∙ ap (λ (m : ℕ). scan_digits m 1 t) (let e : 0 * 10 + n ≡ n = omega arith in e);
    digits = (ground arith, ds);
  })
  | inr large ↦
      let last : n % 10 < 10 = omega arith in
      let w =
        digits_of-Writes fuel (n / 10) ((b'0' + n % 10) ∷ t) (ground arith) (ground arith, ds) in
      rw large (record {
        more = suc w.more;
        scans =
            w.scans
            ∙ scan-digit (n / 10) (suc w.more) (n % 10) t last
            ∙ ap (λ (m : ℕ). scan_digits m (suc (suc w.more)) t)
                (let e : n / 10 * 10 + n % 10 ≡ n = omega arith in e);
        digits = w.digits;
      })
]

module _ (c : ℕ) (d : is_digit c ≡ true) where
  digit-no_space : is_space c ≡ false
  digit-no_space = ground arith

  digit-no_underscore : (c == b'_') ≡ false
  digit-no_underscore = ground arith

lstrip-digits : (c : ℕ) (s : Text) → AllDigits (c ∷ s) → lstrip (c ∷ s) ≡ c ∷ s
unfolding lstrip
lstrip-digits c s ds = rw (digit-no_space c ds.0)

rstrip-digits : (s : Text) → AllDigits s → rstrip s ≡ s
unfolding rstrip
rstrip-digits [] ds = refl
rstrip-digits (c ∷ []) ds = rw (digit-no_space c ds.0)
rstrip-digits (c ∷ d ∷ s) ds = rw (rstrip-digits (d ∷ s) ds.1)

without_underscores-digits : (b : Bool) (s : Text) → AllDigits s → without_underscores b s ≡ some s
unfolding without_underscores
without_underscores-digits b [] ds = refl
without_underscores-digits b (c ∷ []) ds = rw (digit-no_underscore c ds.0)
without_underscores-digits b (c ∷ d ∷ s) ds =
    rw (digit-no_underscore c ds.0, without_underscores-digits (is_digit c) (d ∷ s) ds.1)

sign_of-digits : (c : ℕ) (s : Text) → is_digit c ≡ true → sign_of (c ∷ s) ≡ (false, c ∷ s)
sign_of-digits c s d = ground arith

-- `int` behind the sign.
abbrev finish : Bool → Text → Option ℤ
finish negative t = elim (without_underscores false t) [
  | none ↦ none
  | some u ↦ map_option (signed negative) (all_digits (scan_digits 0 0 u))
]

int_of_text-finish :
    (s t : Text) (negative : Bool)
    → sign_of (strip s) ≡ (negative, t)
    → int_of_text s ≡ finish negative t
unfolding int_of_text
int_of_text-finish s t negative e = ap (λ (p : Bool × Text). finish p.0 p.1) e

finish-digits :
    (negative : Bool) (n : ℕ) (s : Text)
    → Writes n [] s
    → finish negative s ≡ some (signed negative n)
unfolding scan_digits
finish-digits negative n s w =
    rw (finish, without_underscores-digits false s w.digits)
      (ap (λ (r : ℕ × ℕ × Text). map_option (signed negative) (all_digits r)) w.scans)

int_of_text-digits : (n : ℕ) (s : Text) → Writes n [] s → int_of_text s ≡ some (pos n)
unfolding strip scan_digits
int_of_text-digits n [] w = absurd (omega (arith, ap (λ (r : ℕ × ℕ × Text). r.1) w.scans))
int_of_text-digits n (c ∷ s) w =
    int_of_text-finish (c ∷ s) (c ∷ s) false (
      rw (lstrip-digits c s w.digits, rstrip-digits (c ∷ s) w.digits)
        (sign_of-digits c s w.digits.0))
    ∙ finish-digits false n (c ∷ s) w

int_of_text-minus :
    (n : ℕ) (s : Text) → Writes (suc n) [] s → int_of_text (b'-' ∷ s) ≡ some (negsuc n)
unfolding strip lstrip rstrip scan_digits
int_of_text-minus n [] w = absurd (omega (arith, ap (λ (r : ℕ × ℕ × Text). r.1) w.scans))
int_of_text-minus n (c ∷ s) w =
    int_of_text-finish (b'-' ∷ c ∷ s) (c ∷ s) true (rw (rstrip-digits (c ∷ s) w.digits))
    ∙ finish-digits true (suc n) (c ∷ s) w

-- The integer that `int` reads in what `str` writes of it is that integer.
pub int_of_text-str_of_int : (z : ℤ) → int_of_text (str_of_int z) ≡ some z
unfolding str_of_int
int_of_text-str_of_int (pos n) =
    int_of_text-digits n (digits_of (suc n) n []) (digits_of-Writes (suc n) n [] (omega arith) tt)
int_of_text-str_of_int (negsuc n) =
    int_of_text-minus n (digits_of (suc (suc n)) (suc n) [])
      (digits_of-Writes (suc (suc n)) (suc n) [] (omega arith) tt)
