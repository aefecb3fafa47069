-- ===== src/Pipeline/Reload.antt =====
-- The batches of ingestion/fineract_ingest/pipeline.py for the entities of the registry, and a second
-- load of them.
use fineract_analytics_platf.Prelude.{
  ℕ, suc, ◌≡◌, refl, String, false, List, length, All, All-map, All-zip, str_eq, str_eq_sym_false,
}
use fineract_analytics_platf.Values.{Text, Value, Row}
use fineract_analytics_platf.Outcome.{ok}
use fineract_analytics_platf.Parsers.Scalars.{Library}
use fineract_analytics_platf.Entities.Spec.{EntitySpec}
use fineract_analytics_platf.Entities.Keys.{HasIntKeys, entities-HasIntKeys}
use fineract_analytics_platf.Entities.Registry.{entities}
use fineract_analytics_platf.Loader.Store.{LoadResult, Connection, Faults}
use fineract_analytics_platf.Loader.Upsert.{upsert}
use fineract_analytics_platf.Loader.Stored.{IntKey}
use fineract_analytics_platf.Loader.Chunks.{Sound}
use fineract_analytics_platf.Loader.Again.{upsert-again}
use fineract_analytics_platf.Pipeline.Batch.{map_and_validate}
use fineract_analytics_platf.Pipeline.Dedup.{Deduped}
use fineract_analytics_platf.Pipeline.Conserve.{OwnKey, map_and_validate-Deduped}

entities-OwnKey : All (λ (spec : EntitySpec). OwnKey spec.primary_key) entities
entities-OwnKey =
    let own : (pk : String)
        → str_eq "_source_system" pk ≡ false
        → str_eq "_payload_hash" pk ≡ false
        → OwnKey pk =
      λ pk a b. record { source = a; hash = b } in
    (
      own "office_id" refl refl,
      (
        own "staff_id" refl refl,
        (
          own "product_id" refl refl,
          (
            own "product_id" refl refl,
            (
              own "client_id" refl refl,
              (
                own "loan_id" refl refl,
                (own "savings_id" refl refl, (own "transaction_id" refl refl, tt)),
              ),
            ),
          ),
        ),
      ),
    )

-- The second of two upserts of one batch changes nothing.
abbrev pub NoChurn :
    Library → (Row → Text) → Faults → ℕ → List Value → Connection → EntitySpec → Type 0
NoChurn lib digest faults n raws c spec =
    let rows = (map_and_validate lib digest spec raws).rows in
    let d = (upsert faults (suc n) spec.table spec.primary_key rows c).1 in
    let (r, e) = upsert faults (suc n) spec.table spec.primary_key rows d in
    (result : LoadResult) × (r ≡ ok result)
    × (result.rows_inserted ≡ 0)
    × (result.rows_updated ≡ 0)
    × (result.rows_unchanged ≡ length rows)
    × (e.working.tables spec.table ≡ d.working.tables spec.table)

spec-NoChurn :
    (lib : Library) (digest : Row → Text) (faults : Faults) (n : ℕ) (raws : List Value)
    (c : Connection) (spec : EntitySpec)
    → OwnKey spec.primary_key
    → HasIntKeys spec
    → All (IntKey spec.primary_key) (c.working.tables spec.table)
    → Sound faults c.clock
    → NoChurn lib digest faults n raws c spec
spec-NoChurn lib digest faults n raws c spec own i js f =
    let h = map_and_validate-Deduped lib digest spec raws own i in
    upsert-again faults n spec.table spec.primary_key (map_and_validate lib digest spec raws).rows c
      (str_eq_sym_false "_payload_hash" spec.primary_key own.hash) h.keys h.hashes h.distinct js f

abbrev IsKeyed : EntitySpec → Type 0
IsKeyed spec = OwnKey spec.primary_key × HasIntKeys spec

entities-IsKeyed : All IsKeyed entities
entities-IsKeyed =
    All-zip (λ spec. OwnKey spec.primary_key) HasIntKeys entities entities-OwnKey
      entities-HasIntKeys

-- For every entity of the registry and whatever records were read, the batch has one row per key,
-- with an integer key and a hash; the rejects and the accepted records are together as many as the
-- records; and each accepted record's key is among those of the rows.
pub entities-Deduped :
    (lib : Library) (digest : Row → Text) (raws : List Value)
    → All
        (λ (spec : EntitySpec).
          Deduped spec.primary_key (length raws) (map_and_validate lib digest spec raws))
        entities
entities-Deduped lib digest raws =
    All-map IsKeyed _ (λ spec k. map_and_validate-Deduped lib digest spec raws k.0 k.1) entities
      entities-IsKeyed

abbrev pub HasIntTable : Connection → EntitySpec → Type 0
HasIntTable c spec = All (IntKey spec.primary_key) (c.working.tables spec.table)

-- For every entity of the registry and whatever records were read: where the tables have integer
-- keys, no statement fails and the chunks have a positive size, the upsert of the batch a second time
-- returns, with every row unchanged and none inserted or updated, and the table is the same as after
-- the first.
pub entities-NoChurn :
    (lib : Library) (digest : Row → Text) (faults : Faults) (n : ℕ) (raws : List Value)
    (c : Connection)
    → All (HasIntTable c) entities
    → Sound faults c.clock
    → All (NoChurn lib digest faults n raws c) entities
entities-NoChurn lib digest faults n raws c js f =
    All-map (λ spec. IsKeyed spec × HasIntTable c spec) (NoChurn lib digest faults n raws c)
      (λ spec k. spec-NoChurn lib digest faults n raws c spec k.0.0 k.0.1 k.1 f) entities
      (All-zip IsKeyed (HasIntTable c) entities entities-IsKeyed js)
