-- ===== src/Cli/ExitCodes.antt =====
-- What the exit codes of ingestion/fineract_ingest/cli.py say.
use fineract_analytics_platf.Prelude.{
  ℕ, ◌≡◌, refl, ap, ◌∙◌, inl, inr, String, Bool, true, false, ◌&&◌, Option, none, some, List, [],
  ◌∷◌, map, All, Bool-cases, arith,
}
use fineract_analytics_platf.Client.Types.{Client}
use fineract_analytics_platf.Client.Transport.{authenticate}
use fineract_analytics_platf.Client.Pages.{health_check}
use fineract_analytics_platf.Entities.Registry.{entities}
use fineract_analytics_platf.Cli.Statements.{
  clear, is_ok, Takes-slots, Takes-heartbeat, Takes-statuses,
}
use fineract_analytics_platf.Outcome.{Outcome, ok, raised, no_response}
use fineract_analytics_platf.Loader.Store.{Status, running, success, failed, skipped}
use fineract_analytics_platf.Loader.Status.{Slot, replication_slot_status}
use fineract_analytics_platf.Pipeline.World.{World, Setting, EntityOutcome, after, on_connection}
use fineract_analytics_platf.Pipeline.Run.{aborts}
use fineract_analytics_platf.Pipeline.FailFast.{Follows}
use fineract_analytics_platf.Cli.{
  is_failed, exit_code, health, status, list_entities, heartbeat, main, check_api, cmd_health,
  cmd_status, cmd_heartbeat, health_code, zero_or_two,
}

abbrev pub IsDone : Status → Type 0
IsDone success = Unit
IsDone skipped = Unit
IsDone failed = ⊥
IsDone running = ⊥

-- A load that ends is not running.
abbrev pub Ended : Status → Type 0
Ended running = ⊥
Ended _ = Unit

done : (st : Status) → Ended st → is_failed st ≡ false → IsDone st
done success e h = tt
done skipped e h = tt
done failed e h = absurd (ground arith)
done running e h = e

not_aborting : (ff : Bool) (o : EntityOutcome) → IsDone o.status → aborts ff o ≡ false
not_aborting ff o h = by_status ff o.status h
  where
    by_status : (ff : Bool) (st : Status) → IsDone st → aborts ff (record o { status = st }) ≡ false
    by_status true success h = refl
    by_status false success h = refl
    by_status true skipped h = refl
    by_status false skipped h = refl
    by_status ff failed h = absurd h
    by_status ff running h = absurd h

-- Where the outcomes follow the names and have all ended, the exit code is zero only if there is an
-- outcome for each name, in their order, and each is a success or skipped, also with `--fail-fast`.
pub exit_code-zero :
    (ff : Bool) (names : List String) (os : List EntityOutcome)
    → Follows ff names os
    → All (λ (o : EntityOutcome). Ended o.status) os
    → exit_code os ≡ 0
    → (map (λ (o : EntityOutcome). o.entity) os ≡ names)
      × All (λ (o : EntityOutcome). IsDone o.status) os
unfolding exit_code
exit_code-zero ff [] [] f es h = (refl, tt)
exit_code-zero ff [] (o ∷ os) f es h = absurd f
exit_code-zero ff (name ∷ names) [] f es h = absurd f
exit_code-zero ff (name ∷ names) (o ∷ os) f es h = elim (Bool-cases (is_failed o.status)) [
  | inl e ↦ let k = rw e at h in absurd (omega (arith, k))
  | inr e ↦
      let d = done o.status es.0 e in
      let k = exit_code-zero ff names os (rw (not_aborting ff o d) at f.1) es.1 (rw e at h) in
      (
        ap (λ n. n ∷ map (λ (o : EntityOutcome). o.entity) os) f.0
            ∙ ap (λ (l : List String). name ∷ l) k.0,
        (d, k.1),
      )
]

-- Zero if all is well, and two if not.
abbrev pub code_if : Bool → ℕ
code_if true = 0
code_if false = 2

-- By the answer of the API, of which `none` is an exception that is not caught, and whether the
-- statements succeed.
abbrev pub health_end : Option Bool → Bool → Outcome ℕ
health_end none succeeds = raised no_response
health_end (some api_ok) succeeds = ok (code_if (api_ok && succeeds))

zero_or_two-code :
    {A : Type 0} (p : Outcome A × World) (b : Bool)
    → is_ok p.0 ≡ b
    → (zero_or_two p).0 ≡ ok (code_if b)
zero_or_two-code (ok a, w) b h = ap (λ b. ok (code_if b)) h
zero_or_two-code (raised e, w) b h = ap (λ b. ok (code_if b)) h

health_code-code :
    {A : Type 0} (api_ok : Bool) (p : Outcome A × World) (b : Bool)
    → is_ok p.0 ≡ b
    → (health_code api_ok p).0 ≡ ok (code_if (api_ok && b))
health_code-code true (ok a, w) b h = ap (λ b. ok (code_if b)) h
health_code-code false (ok a, w) b h = refl
health_code-code true (raised e, w) b h = ap (λ b. ok (code_if b)) h
health_code-code false (raised e, w) b h = refl

-- The codes of the commands that look at the system. `health` gives zero if the check of the API, after
-- the login, succeeds and neither of its two statements on the database fails, and two if not; but an
-- exception of the check that is no `FineractError` goes on. `status` gives zero if none of its
-- 32 statements and commits fails, which are four for each entity, and `heartbeat` if neither of its two
-- does, and they give two if not. `list-entities` gives zero.
pub main-codes :
    (s : Setting) (slots : List Slot) (w : World)
    → let clock = w.connection.clock in
      ((main s slots health w).0
        ≡ health_end
            (health_check s.server s.config (authenticate s.server s.config w.client)).0
            (clear s.faults clock 2))
      × ((main s slots status w).0 ≡ ok (code_if (clear s.faults clock 32)))
      × ((main s slots heartbeat w).0 ≡ ok (code_if (clear s.faults clock 2)))
      × ((main s slots list_entities w).0 ≡ ok 0)
unfolding main cmd_health check_api cmd_status cmd_heartbeat
main-codes s slots w = (
  checked (health_check s.server s.config (authenticate s.server s.config w.client)),
  zero_or_two-code _ _ ((Takes-statuses s entities).at w).returns,
  zero_or_two-code _ _ ((Takes-heartbeat s.faults).at w).returns,
  refl,
)
  where
    checked :
        (p : Option Bool × Client)
        → (after
            (
              elim p.0 [ none ↦ raised no_response | some api_ok ↦ ok api_ok ],
              record w { client = p.1 },
            )
            (λ api_ok w.
              health_code api_ok (on_connection (replication_slot_status s.faults slots) w))).0
          ≡ health_end p.0 (clear s.faults w.connection.clock 2)
    checked (none, c) = refl
    checked (some api_ok, c) =
        health_code-code api_ok _ _
          ((Takes-slots s.faults slots).at (record w { client = c })).returns
