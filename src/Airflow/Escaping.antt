-- ===== src/Airflow/Escaping.antt =====
-- `PublishDbtResultsOperator._escape` of orchestration/plugins/fineract/operators.py, and how a
-- quoted text is read back.
use fineract_analytics_platf.Prelude.{
  ℕ, ◌≤◌, ◌≡◌, refl, ap, ◌∙◌, inl, inr, Bool, false, ◌||◌, Option, none, some, [], ◌∷◌, ◌==◌,
  if◌then◌else◌, length, take, take_all, Bool-cases, arith,
}
use fineract_analytics_platf.Values.{Text}

-- text.replace(c, "\" + c), for one character
unfoldable pub guard : ℕ → Text → Text
guard c [] = []
guard c (d ∷ t) = let rest = guard c t in if d == c then b'\\' ∷ d ∷ rest else d ∷ rest

-- The two replacements of `_escape`: first the backslashes, then the quotes.
unfoldable pub escape_all : Text → Text
escape_all t = guard b'\'' (guard b'\\' t)

-- PublishDbtResultsOperator._escape, of the text of the value
unfoldable pub escape : Text → Text
escape t = take 2000 (escape_all t)

abbrev push : ℕ → Option Text → Option Text
push c none = none
push c (some t) = some (c ∷ t)

-- The text between two quotes, read: a backslash takes the next character as it is, and a bare quote
-- would end the literal, as a backslash at the end would not.
abbrev pub unescape : Text → Option Text
unescape [] = some []
unescape (c ∷ []) = if c == b'\\' || c == b'\'' then none else some (c ∷ [])
unescape (c ∷ d ∷ t) =
    let escaped = push d (unescape t) in
    let plain = push c (unescape (d ∷ t)) in
    if c == b'\\' then escaped else if c == b'\'' then none else plain

abbrev is_special : ℕ → Bool
is_special c = c == b'\\' || c == b'\''

escape_all-cons :
    (c : ℕ) (t : Text)
    → escape_all (c ∷ t) ≡ (if is_special c then b'\\' ∷ c ∷ escape_all t else c ∷ escape_all t)
unfolding escape_all guard
escape_all-cons c t = ground arith

unescape-plain : (c : ℕ) (t : Text) → is_special c ≡ false → unescape (c ∷ t) ≡ push c (unescape t)
unescape-plain c [] h = rw h
unescape-plain c (d ∷ t) h = ground arith

unescape-escape_all : (t : Text) → unescape (escape_all t) ≡ some t
unfolding escape_all guard
unescape-escape_all [] = refl
unescape-escape_all (c ∷ t) = elim (Bool-cases (is_special c)) [
  | inl y ↦ rw (escape_all-cons c t, y) (ap (push c) (unescape-escape_all t))
  | inr n ↦
      rw (escape_all-cons c t, n)
        (unescape-plain c (escape_all t) n ∙ ap (push c) (unescape-escape_all t))
]

-- A text that is escaped for an INSERT is read back as it was, and cannot end its literal, where its
-- escaped form has no more than the 2000 characters that are kept.
pub unescape-escape : (t : Text) → length (escape_all t) ≤ 2000 → unescape (escape t) ≡ some t
unfolding escape
unescape-escape t h = rw (escape, take_all 2000 (escape_all t) h) (unescape-escape_all t)
