-- ===== src/Loader/Reference.antt =====
-- What `PostgresLoader.upsert` of ingestion/fineract_ingest/loader.py has to do, without chunks,
-- statements and counters: one `upsert_row` for each row, and what the rows returned.
use fineract_analytics_platf.Prelude.{
  ℕ, suc, ◌+◌, ◌-◌, ◌≤◌, ◌≡◌, refl, ap, String, Bool, true, false, Option, none, some, List, [],
  ◌∷◌, ◌++◌, length, length-append, arith,
}
use fineract_analytics_platf.Values.{Row}
use fineract_analytics_platf.Loader.Store.{LoadResult}
use fineract_analytics_platf.Loader.Upsert.{upsert_row, count_returned, affected}

module _ (key : String) (updates : List String) where
  abbrev pub table_after : List Row → List Row → List Row
  table_after [] t = t
  table_after (new ∷ news) t = table_after news (upsert_row key updates new t).1

  abbrev pub returned_by : List Row → List Row → List (Option Bool)
  returned_by [] t = []
  returned_by (new ∷ news) t =
      (upsert_row key updates new t).0 ∷ returned_by news (upsert_row key updates new t).1

  pub table_after-append :
      (xs ys : List Row) (t : List Row)
      → table_after (xs ++ ys) t ≡ table_after ys (table_after xs t)
  table_after-append [] ys t = refl
  table_after-append (x ∷ xs) ys t = table_after-append xs ys _

  pub returned_by-append :
      (xs ys : List Row) (t : List Row)
      → returned_by (xs ++ ys) t ≡ returned_by xs t ++ returned_by ys (table_after xs t)
  returned_by-append [] ys t = refl
  returned_by-append (x ∷ xs) ys t =
      ap (λ (l : List (Option Bool)). (upsert_row key updates x t).0 ∷ l)
        (returned_by-append xs ys (upsert_row key updates x t).1)

  pub length-returned_by : (xs : List Row) (t : List Row) → length (returned_by xs t) ≡ length xs
  length-returned_by [] t = refl
  length-returned_by (x ∷ xs) t =
      omega (arith, length-returned_by xs (upsert_row key updates x t).1)

-- How many rows were inserted, updated, and either.
abbrev pub inserts : List (Option Bool) → ℕ
inserts [] = 0
inserts (some true ∷ os) = suc (inserts os)
inserts (some false ∷ os) = inserts os
inserts (none ∷ os) = inserts os

abbrev pub changes : List (Option Bool) → ℕ
changes [] = 0
changes (some true ∷ os) = changes os
changes (some false ∷ os) = suc (changes os)
changes (none ∷ os) = changes os

abbrev pub touched : List (Option Bool) → ℕ
touched os = inserts os + changes os

abbrev pub count_all : List (Option Bool) → LoadResult → LoadResult
count_all os r = record r {
  rows_inserted = r.rows_inserted + inserts os;
  rows_updated = r.rows_updated + changes os;
}

-- The counters that the returned rows give.
abbrev pub tally : List (Option Bool) → LoadResult → LoadResult
tally os r = record (count_all os r) {
  rows_unchanged = r.rows_unchanged + (length os - touched os);
  rows_read = r.rows_read + length os;
}

pub touched-length : (os : List (Option Bool)) → touched os ≤ length os
touched-length [] = omega arith
touched-length (some true ∷ os) = omega (arith, touched-length os)
touched-length (some false ∷ os) = omega (arith, touched-length os)
touched-length (none ∷ os) = omega (arith, touched-length os)

pub inserts-append : (xs ys : List (Option Bool)) → inserts (xs ++ ys) ≡ inserts xs + inserts ys
inserts-append [] ys = omega arith
inserts-append (some true ∷ xs) ys = omega (arith, inserts-append xs ys)
inserts-append (some false ∷ xs) ys = inserts-append xs ys
inserts-append (none ∷ xs) ys = inserts-append xs ys

pub changes-append : (xs ys : List (Option Bool)) → changes (xs ++ ys) ≡ changes xs + changes ys
changes-append [] ys = omega arith
changes-append (some true ∷ xs) ys = changes-append xs ys
changes-append (some false ∷ xs) ys = omega (arith, changes-append xs ys)
changes-append (none ∷ xs) ys = changes-append xs ys

pub affected-touched :
    (o : Option Bool) (os : List (Option Bool)) (n : ℕ)
    → affected o n + touched os ≡ n + touched (o ∷ os)
affected-touched none os n = refl
affected-touched (some true) os n = omega arith
affected-touched (some false) os n = omega arith

pub count_all-returned :
    (o : Option Bool) (os : List (Option Bool)) (r : LoadResult)
    → count_all os (count_returned o r) ≡ count_all (o ∷ os) r
count_all-returned none os r = refl
count_all-returned (some true) os r = ground arith
count_all-returned (some false) os r = ground arith

pub tally-append :
    (xs ys : List (Option Bool)) (r : LoadResult) → tally ys (tally xs r) ≡ tally (xs ++ ys) r
tally-append xs ys r = ground (
  arith,
  inserts-append xs ys,
  changes-append xs ys,
  length-append xs ys,
  touched-length xs,
  touched-length ys,
)
