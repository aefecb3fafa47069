-- ===== src/Prelude/Select.antt =====
-- What `select` keeps, and where it is found again.
use Prim.Native.Nat.{◌+◌}
use mathlib.Core.Path.{◌≡◌, refl}
use mathlib.Core.Logic.{inl, inr}
use mathlib.Core.Bool.{Bool, true, not, ◌||◌}
use mathlib.Core.List.{List, [], ◌∷◌, ◌++◌}
use native.Mathlib.Omega.{arith}
use fineract_analytics_platf.Prelude.Tests.{Bool-cases}
use fineract_analytics_platf.Prelude.Lists.{any, select, All, count_if, length}

module _ {ℓ} {A : Type ℓ} where
  pub any-append : (p : A → Bool) (xs ys : List A) → any p (xs ++ ys) ≡ any p xs || any p ys
  any-append p [] ys = refl
  any-append p (x ∷ xs) ys = ground (arith, any-append p xs ys)

  -- What is selected differs only in what fails the test.
  pub any-select :
      (p q : A → Bool) (xs : List A)
      → All (λ x. (p x ≡ true) → q x ≡ true) xs
      → any p (select q xs) ≡ any p xs
  any-select p q [] h = refl
  any-select p q (x ∷ xs) h = let k = h.0 in ground (arith, any-select p q xs h.1)

  pub All-selected : (p : A → Bool) (xs : List A) → All (λ x. p x ≡ true) (select p xs)
  All-selected p [] = tt
  All-selected p (x ∷ xs) = elim (Bool-cases (p x)) [
    | inl e ↦ rw e (e, All-selected p xs)
    | inr e ↦ rw e (All-selected p xs)
  ]

  pub count_if-append :
      (p : A → Bool) (xs ys : List A) → count_if p (xs ++ ys) ≡ count_if p xs + count_if p ys
  count_if-append p [] ys = omega arith
  count_if-append p (x ∷ xs) ys = ground (arith, count_if-append p xs ys)

  pub count_if-not :
      (p : A → Bool) (xs : List A) → count_if p xs + count_if (λ x. not (p x)) xs ≡ length xs
  count_if-not p [] = omega arith
  count_if-not p (x ∷ xs) = elim (Bool-cases (p x)) [
    | inl e ↦ rw e (omega (arith, count_if-not p xs))
    | inr e ↦ rw e (omega (arith, count_if-not p xs))
  ]
