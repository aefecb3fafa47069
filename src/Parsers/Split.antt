-- ===== src/Parsers/Split.antt =====
-- `split` and `join` of a text at a character, which ingestion/fineract_ingest/cli.py and the scripts
-- call, with the strips of the parts.
use fineract_analytics_platf.Prelude.{
  ℕ, ◌≡◌, ◌≢◌, refl, ap, ◌∙◌, ◌==◌, ==_iff, false, List, [], ◌∷◌, ◌++◌, All, if◌then◌else◌,
}
use fineract_analytics_platf.Values.{Text}
use fineract_analytics_platf.Parsers.Scan.{strip}

abbrev pub push : ℕ → List Text → List Text
push c [] = (c ∷ []) ∷ []
push c (w ∷ ws) = (c ∷ w) ∷ ws

-- t.split(sep)
unfoldable pub split_on : ℕ → Text → List Text
split_on sep [] = [] ∷ []
split_on sep (c ∷ t) = let rest = split_on sep t in if c == sep then [] ∷ rest else push c rest

-- sep.join(ts)
abbrev pub join_on : ℕ → List Text → Text
join_on sep [] = []
join_on sep (t ∷ []) = t
join_on sep (t ∷ u ∷ us) = t ++ sep ∷ join_on sep (u ∷ us)

abbrev pub keep : Text → List Text → List Text
keep [] ts = ts
keep (c ∷ t) ts = (c ∷ t) ∷ ts

abbrev pub strip_all : List Text → List Text
strip_all [] = []
strip_all (w ∷ ws) = keep (strip w) (strip_all ws)

-- [s.strip() for s in t.split(sep) if s.strip()]
unfoldable pub stripped_parts : ℕ → Text → List Text
stripped_parts sep t = strip_all (split_on sep t)

abbrev pub HasNo : ℕ → Text → Type 0
HasNo sep t = All (λ (c : ℕ). (c == sep) ≡ false) t

-- A part with neither the separator nor spaces around it.
abbrev pub IsPart : ℕ → Text → Type 0
IsPart sep t = (t ≢ []) × HasNo sep t × (strip t ≡ t)

module _ (sep : ℕ) where
  split-last : (t : Text) → HasNo sep t → split_on sep t ≡ t ∷ []
  unfolding split_on
  split-last [] h = refl
  split-last (c ∷ t) h = rw h.0 (ap (λ ws. push c ws) (split-last t h.1))

  split-first : (t u : Text) → HasNo sep t → split_on sep (t ++ sep ∷ u) ≡ t ∷ split_on sep u
  unfolding split_on
  split-first [] u h = rw ((==_iff sep sep).1 refl) refl
  split-first (c ∷ t) u h = rw h.0 (ap (λ ws. push c ws) (split-first t u h.1))

  keep-part : (t : Text) (ts : List Text) → t ≢ [] → strip t ≡ t → keep (strip t) ts ≡ t ∷ ts
  keep-part [] ts h e = absurd (h refl)
  keep-part (c ∷ t) ts h e = ap (λ u. keep u ts) e

  pub stripped_parts-join_on :
      (t : Text) (ts : List Text)
      → All (IsPart sep) (t ∷ ts)
      → stripped_parts sep (join_on sep (t ∷ ts)) ≡ t ∷ ts
  unfolding stripped_parts
  stripped_parts-join_on t [] ((some_, plain, tight), h) =
      ap (λ ws. strip_all ws) (split-last t plain) ∙ keep-part t [] some_ tight
  stripped_parts-join_on t (u ∷ us) ((some_, plain, tight), h) =
      ap (λ ws. strip_all ws) (split-first t (join_on sep (u ∷ us)) plain)
      ∙ keep-part t _ some_ tight
      ∙ ap (λ ns. t ∷ ns) (stripped_parts-join_on u us h)
