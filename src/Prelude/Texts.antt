-- ===== src/Prelude/Texts.antt =====
-- The comparison of the names of tables and columns.
use Prim.Native.String.{String}
use mathlib.Core.Path.{◌≡◌, refl, sym, ap, ◌∙◌}
use mathlib.Core.Logic.{inl, inr}
use fineract_analytics_platf.Prelude.Tests.{Bool-cases}
use mathlib.Core.Bool.{true, false}
use text.Mathlib.Text.{◌==◌}
use text.Mathlib.TextEquality.{eq_iff}

pub str_eq_refl : (s : String) → (s == s) ≡ true
str_eq_refl s = (eq_iff s s).1 refl

pub str_eq_true : (s t : String) → (s == t) ≡ true → s ≡ t
str_eq_true s t h = (eq_iff s t).0 h

pub str_eq_sym_false : (s t : String) → (s == t) ≡ false → (t == s) ≡ false
str_eq_sym_false s t h = elim (Bool-cases (t == s)) [
  | inl e ↦ ap (λ u. u == s) (str_eq_true t s e) ∙ ap (λ u. s == u) (sym (str_eq_true t s e)) ∙ h
  | inr e ↦ e
]
