-- ===== src/Tests/Batches.antt =====
-- Tests of the upsert, the batch and the run.
use fineract_analytics_platf.Prelude.{
  map, ℕ, ◌+◌, ◌≤◌, ◌≡◌, refl, inr, String, true, false, none, List, [], ◌∷◌, length, concat, All,
  str_eq,
}
use fineract_analytics_platf.Parsers.Scan.{strip}
use fineract_analytics_platf.Validation.Records.{validate_record, record_not_empty}
use fineract_analytics_platf.Entities.Cells.{build}
use fineract_analytics_platf.Entities.Products.{office_cells}
use fineract_analytics_platf.Parsers.Dates.{parse_date}
use fineract_analytics_platf.Parsers.Scalars.{parse_int, int_or_none, parse_text}
use fineract_analytics_platf.Prelude.Int.{pos}
use fineract_analytics_platf.Values.{Cell, Row, get_cell, cell_eq}
use fineract_analytics_platf.Outcome.{ok}
use fineract_analytics_platf.Parsers.Hash.{chunked, payload_hash}
use fineract_analytics_platf.Parsers.Chunked.{IsChunk, chunked-IsPartition}
use fineract_analytics_platf.Entities.Spec.{expectation, unique, error}
use fineract_analytics_platf.Entities.Keys.{entities-HasIntKeys}
use fineract_analytics_platf.Entities.Registry.{loan_transactions, offices, entities}
use fineract_analytics_platf.Validation.Expectations.{evaluate_one}
use fineract_analytics_platf.Validation.Gate.{GateOf, RuleIsNot, loan_transactions-never_empty}
use fineract_analytics_platf.Loader.Store.{LoadResult, load_result, execute, commit}
use fineract_analytics_platf.Loader.Control.{start_run, insert_run}
use fineract_analytics_platf.Loader.Upsert.{upsert}
use fineract_analytics_platf.Loader.Reference.{tally, returned_by, table_after}
use fineract_analytics_platf.Loader.Refinement.{written_rows, updates_of, upsert-refines}
use fineract_analytics_platf.Loader.Counts.{upsert-accounts}
use fineract_analytics_platf.Loader.Again.{upsert-again}
use fineract_analytics_platf.Pipeline.World.{EntityOutcome}
use fineract_analytics_platf.Pipeline.Batch.{
  map_and_validate, map_and_validate_from, take_record, accept, stamp,
}
use fineract_analytics_platf.Pipeline.Dedup.{Deduped}
use fineract_analytics_platf.Pipeline.KeyChecks.{map_and_validate-key_checks}
use fineract_analytics_platf.Pipeline.Reload.{NoChurn, entities-Deduped, entities-NoChurn}
use fineract_analytics_platf.Pipeline.Entity.{load_entity}
use fineract_analytics_platf.Pipeline.Isolation.{load_entity-returns}
use fineract_analytics_platf.Tests.Samples.{
  record_of, raw_offices, library, digest, connection, world, failing_at,
}

abbrev row_of : ℕ → Row
row_of n = ("office_id", Cell.int (pos n)) ∷ ("_payload_hash", Cell.text (n ∷ [])) ∷ []

abbrev rows : List Row
rows = row_of 1 ∷ row_of 2 ∷ row_of 3 ∷ []

chunked-IsPartition_example :
    (chunks : List (List Row)) × (chunked rows 2 ≡ ok chunks)
    × (concat chunks ≡ rows)
    × All (IsChunk 2) chunks
chunked-IsPartition_example = chunked-IsPartition rows 1

upsert-refines_example :
    let news = written_rows rows in
    let updates = updates_of "office_id" rows in
    let (r, d) = upsert (λ k. false) 2 "oltp.offices" "office_id" rows connection in
    (r ≡ ok (tally (returned_by "office_id" updates news []) (load_result "oltp.offices")))
    × (d.working.tables "oltp.offices" ≡ table_after "office_id" updates news [])
    × ((o : String) → str_eq "oltp.offices" o ≡ false → d.working.tables o ≡ [])
    × (0 ≤ d.clock)
upsert-refines_example =
    upsert-refines (λ k. false) 1 "oltp.offices" "office_id" rows connection
      (refl, (refl, (refl, tt))) (λ k l. refl)

upsert-accounts_example :
    (result : LoadResult) × let (r, d) =
        upsert (λ k. false) 2 "oltp.offices" "office_id" rows connection in
      (r ≡ ok result)
      × (result.rows_read ≡ 3)
      × (result.rows_inserted + result.rows_updated + result.rows_unchanged ≡ result.rows_read)
      × (length (d.working.tables "oltp.offices") ≡ 0 + result.rows_inserted)
upsert-accounts_example =
    upsert-accounts (λ k. false) 1 "oltp.offices" "office_id" rows connection
      (refl, (refl, (refl, tt))) (λ k l. refl)

upsert-again_example :
    let d = (upsert (λ k. false) 2 "oltp.offices" "office_id" rows connection).1 in
    (result : LoadResult) × ((upsert (λ k. false) 2 "oltp.offices" "office_id" rows d).0
      ≡ ok result)
    × (result.rows_inserted ≡ 0)
    × (result.rows_updated ≡ 0)
    × (result.rows_unchanged ≡ 3)
    × ((upsert (λ k. false) 2 "oltp.offices" "office_id" rows d).1.working.tables "oltp.offices"
        ≡ d.working.tables "oltp.offices")
unfolding cell_eq
upsert-again_example =
    upsert-again (λ k. false) 1 "oltp.offices" "office_id" rows connection refl
      ((pos 1, refl), ((pos 2, refl), ((pos 3, refl), tt)))
      ((1 ∷ [], refl), ((2 ∷ [], refl), ((3 ∷ [], refl), tt)))
      ((refl, (refl, tt)), ((refl, tt), (tt, tt))) tt (λ k l. refl)

entities-Deduped_example :
    All
      (λ spec. Deduped spec.primary_key 4 (map_and_validate library digest spec raw_offices))
      entities
entities-Deduped_example = entities-Deduped library digest raw_offices

entities-NoChurn_example :
    All (NoChurn library digest (λ k. false) 1 raw_offices connection) entities
entities-NoChurn_example =
    entities-NoChurn library digest (λ k. false) 1 raw_offices connection
      (tt, (tt, (tt, (tt, (tt, (tt, (tt, (tt, tt)))))))) (λ k l. refl)

map_and_validate-key_checks_example :
    (evaluate_one
      (expectation "office_id_unique" unique ("office_id" ∷ []) error)
      (map_and_validate library digest offices raw_offices).rows).passed
    ≡ true
map_and_validate-key_checks_example =
    map_and_validate-key_checks library digest offices raw_offices
      (expectation "office_id_unique" unique ("office_id" ∷ []) error)
      (record { source = refl; hash = refl }) entities-HasIntKeys.0 (inr refl) refl

load_entity-returns_example :
    (o : EntityOutcome) × ((load_entity (failing_at 2) none false offices world).0 ≡ ok o)
    × (o.entity ≡ "offices")
unfolding start_run insert_run execute commit
load_entity-returns_example =
    load_entity-returns (failing_at 2) offices none false world 1 (λ n. refl) refl

raw_offices_batch :
    let b = map_and_validate library digest offices raw_offices in
    (map (λ (r : Row). get_cell r "name") b.rows
      ≡ Cell.text (b'B' ∷ []) ∷ Cell.text (b'D' ∷ []) ∷ [])
    × (length b.rejects ≡ 1)
unfolding map_and_validate map_and_validate_from take_record office_cells build validate_record
    accept stamp payload_hash parse_int int_or_none cell_eq parse_date parse_text strip
raw_offices_batch = (refl, refl)

-- A transaction with a key and nothing else.
loan_transactions-never_empty_example :
    GateOf
      (RuleIsNot record_not_empty)
      loan_transactions
      (record_of 5)
      (loan_transactions.mapper library (record_of 5))
loan_transactions-never_empty_example = loan_transactions-never_empty library (record_of 5)
