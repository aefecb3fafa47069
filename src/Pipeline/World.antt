-- ===== src/Pipeline/World.antt =====
-- What the pipeline of ingestion/fineract_ingest/pipeline.py works on: the client, the database
-- connection and the metrics; and what surrounds it. The clock readings and the log calls are left
-- out.
use fineract_analytics_platf.Prelude.{ℕ, String, Option, List, ◌∷◌}
use fineract_analytics_platf.Prelude.Int.{ℤ}
use fineract_analytics_platf.Values.{Text, Row}
use fineract_analytics_platf.Outcome.{Exception, Outcome, ok, raised}
use fineract_analytics_platf.Client.Types.{Config, Server, Client}
use fineract_analytics_platf.Parsers.Scalars.{Library}
use fineract_analytics_platf.Validation.Expectations.{ExpectationResult}
use fineract_analytics_platf.Loader.Store.{LoadResult, Status, Db, Connection, Faults, Tx}

-- One call of `IngestionMetrics.record_load`.
pub record Load : Type 0 where
  pub entity : String
  pub result : LoadResult
  pub api_requests : ℕ
  pub api_retries : ℕ
  pub status : Status
  pub table_rows : Option ℕ

pub record World : Type 0 where
  pub client : Client
  pub connection : Connection
  pub loads : List Load

-- The settings, and what the pipeline does not implement: the server, the library, the digest, the
-- database's faults, of statements and commits and of rollbacks, and the answers to the parent queries. The reject ratio is in thousandths.
pub record Setting : Type 0 where
  pub config : Config
  pub server : Server
  pub library : Library
  pub digest : Row → Text
  pub faults : Faults
  pub rollback_fails : Faults
  pub parents : String → Db → List (Option ℤ)
  pub batch_size : ℕ
  pub max_reject_ratio : ℕ

pub record EntityOutcome : Type 0 where
  pub entity : String
  pub status : Status
  pub result : LoadResult
  pub expectations : List ExpectationResult
  pub error : Option Exception

abbrev pub Job {ℓ} : Type ℓ → Type ℓ
Job A = World → Outcome A × World

-- What follows a call: the next call, or nothing after an exception.
abbrev pub after {ℓ} : {A B : Type ℓ} → Outcome A × World → (A → Job B) → Outcome B × World
after (ok a, w) f = f a w
after (raised e, w) f = (raised e, w)

infixl 5 ◌>>=◌ ◌>>◌
abbrev pub ◌>>=◌ {ℓ} : {A B : Type ℓ} → Job A → (A → Job B) → Job B
◌>>=◌ m f w = after (m w) f

abbrev pub ◌>>◌ {ℓ} : {A B : Type ℓ} → Job A → Job B → Job B
m >> n = m >>= λ _. n

abbrev pub pure {ℓ} : {A : Type ℓ} → A → Job A
pure a w = (ok a, w)

abbrev pub raise {ℓ} : {A : Type ℓ} → Exception → Job A
raise e w = (raised e, w)

abbrev pub on_connection {ℓ} : {A : Type ℓ} → Tx A → Job A
on_connection m w = let (r, c) = m w.connection in (r, record w { connection = c })

abbrev pub record_load : Load → Job (Unit {0})
record_load l w = (ok tt, record w { loads = l ∷ w.loads })
