-- ===== src/Parsers/Chunked.antt =====
-- The chunks of `chunked` of ingestion/fineract_ingest/parsers.py.
use fineract_analytics_platf.Prelude.{
  ℕ, zero, suc, ◌≤◌, ◌≡◌, refl, ap, ◌∙◌, List, [], ◌∷◌, ◌++◌, length, take, drop, take-append-drop,
  length-take, length-drop, concat, All, arith,
}
use fineract_analytics_platf.Outcome.{ok}
use fineract_analytics_platf.Parsers.Hash.{slices, chunked}

-- Neither empty nor longer than `size`.
abbrev pub IsChunk {ℓ} : {A : Type ℓ} → ℕ → List A → Type 0
IsChunk size xs = (1 ≤ length xs) × (length xs ≤ size)

module _ {ℓ} {A : Type ℓ} where
  pub concat-slices :
      (fuel n : ℕ) (xs : List A) → length xs ≤ fuel → concat (slices fuel (suc n) xs) ≡ xs
  unfolding slices
  concat-slices zero n [] h = refl
  concat-slices zero n (x ∷ xs) h = absurd (omega arith)
  concat-slices (suc fuel) n [] h = refl
  concat-slices (suc fuel) n (x ∷ xs) h =
      ap (λ (l : List A). take (suc n) (x ∷ xs) ++ l)
        (concat-slices fuel n (drop (suc n) (x ∷ xs)) (omega (arith, length-drop n xs)))
      ∙ take-append-drop (suc n) (x ∷ xs)

  slices-IsChunk : (fuel n : ℕ) (xs : List A) → All (IsChunk (suc n)) (slices fuel (suc n) xs)
  unfolding slices
  slices-IsChunk zero n xs = tt
  slices-IsChunk (suc fuel) n [] = tt
  slices-IsChunk (suc fuel) n (x ∷ xs) = (
    (omega arith, omega (arith, length-take n xs)),
    slices-IsChunk fuel n (drop (suc n) (x ∷ xs)),
  )

  -- Every list is cut, with a positive size, into chunks that are neither empty nor longer than the
  -- size, and that are the list again one after the other.
  pub chunked-IsPartition :
      (xs : List A) (n : ℕ)
      → (chunks : List (List A)) × (chunked xs (suc n) ≡ ok chunks)
        × (concat chunks ≡ xs)
        × All (IsChunk (suc n)) chunks
  unfolding chunked
  chunked-IsPartition xs n = (
    slices (length xs) (suc n) xs,
    refl,
    concat-slices (length xs) n xs (omega arith),
    slices-IsChunk (length xs) n xs,
  )
