-- ===== src/Cli.antt =====
-- ingestion/fineract_ingest/cli.py: the commands and their exit codes. What is printed and the parsing
-- of the arguments are left out: a command comes with its options.
use fineract_analytics_platf.Prelude.{
  ℕ, String, Bool, true, false, ◌&&◌, Option, none, some, List, [], ◌∷◌, any, if◌then◌else◌,
}
use fineract_analytics_platf.Outcome.{Outcome, ok, raised, no_response}
use fineract_analytics_platf.Client.Transport.{authenticate}
use fineract_analytics_platf.Client.Pages.{health_check}
use fineract_analytics_platf.Entities.Spec.{EntitySpec}
use fineract_analytics_platf.Entities.Registry.{entities}
use fineract_analytics_platf.Loader.Store.{Status, failed}
use fineract_analytics_platf.Loader.Control.{table_count}
use fineract_analytics_platf.Loader.Status.{
  read_watermark, Slot, replication_slot_status, touch_heartbeat,
}
use fineract_analytics_platf.Pipeline.World.{
  World, Setting, EntityOutcome, Job, after, ◌>>=◌, ◌>>◌, pure, on_connection,
}
use fineract_analytics_platf.Pipeline.Run.{run}
pub mod ExitCodes
pub mod Statements
pub mod Unreported
pub mod Arguments

pub record Ingest : Type 0 where
  pub entities : List String
  pub parent_limit : Option ℕ
  pub dry_run : Bool
  pub fail_fast : Bool

pub data Command : Type 0 where
  health status list_entities heartbeat : Command
  ingest : Ingest → Command

-- `o.status == "failed"`
abbrev pub is_failed : Status → Bool
is_failed failed = true
is_failed _ = false

unfoldable pub exit_code : List EntityOutcome → ℕ
exit_code os = if any (λ (o : EntityOutcome). is_failed o.status) os then 1 else 0

-- `except Exception` after the body, and 0 at its end.
abbrev pub zero_or_two {ℓ} : {A : Type ℓ} → Outcome A × World → Outcome ℕ × World
zero_or_two (ok _, w) = (ok 0, w)
zero_or_two (raised e, w) = (ok 2, w)

-- The rest of `cmd_health`, after the answer of the API.
abbrev pub health_code {ℓ} : {A : Type ℓ} → Bool → Outcome A × World → Outcome ℕ × World
health_code api_ok (ok _, w) = (ok (if api_ok then 0 else 2), w)
health_code api_ok (raised e, w) = (ok 2, w)

-- The check of the API, where `with FineractClient` authenticates first.
unfoldable pub check_api : Setting → Job Bool
check_api s w =
    let (r, c) = health_check s.server s.config (authenticate s.server s.config w.client) in
    (elim r [ none ↦ raised no_response | some api_ok ↦ ok api_ok ], record w { client = c })

unfoldable pub cmd_health : Setting → List Slot → Job ℕ
cmd_health s slots = check_api s >>= λ api_ok.
    (λ w. health_code api_ok (on_connection (replication_slot_status s.faults slots) w))

-- for name, spec in ENTITIES.items()
unfoldable pub statuses : Setting → List EntitySpec → Job (Unit {0})
statuses s [] = pure tt
statuses s (spec ∷ specs) =
    on_connection (read_watermark s.faults spec.name)
    >> on_connection (table_count s.faults spec.table)
    >> statuses s specs

unfoldable pub cmd_status : Setting → Job ℕ
cmd_status s w = zero_or_two (statuses s entities w)

unfoldable pub cmd_heartbeat : Setting → Job ℕ
cmd_heartbeat s w = zero_or_two (on_connection (touch_heartbeat s.faults) w)

unfoldable pub cmd_ingest : Setting → Ingest → Job ℕ
cmd_ingest s i = run s i.entities i.parent_limit i.dry_run i.fail_fast >>= λ os. pure (exit_code os)

unfoldable pub main : Setting → List Slot → Command → Job ℕ
main s slots health = cmd_health s slots
main s slots status = cmd_status s
main s slots list_entities = pure 0
main s slots heartbeat = cmd_heartbeat s
main s slots (ingest i) = cmd_ingest s i
