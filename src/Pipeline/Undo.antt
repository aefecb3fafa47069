-- ===== src/Pipeline/Undo.antt =====
-- When the handler of `run_entity` in ingestion/fineract_ingest/pipeline.py raises.
use fineract_analytics_platf.Prelude.{ℕ, ◌≡◌, refl, Bool, true, false, arith}
use fineract_analytics_platf.Outcome.{Exception, Outcome, ok, raised}
use fineract_analytics_platf.Entities.Spec.{EntitySpec}
use fineract_analytics_platf.Loader.Store.{Connection, Faults, rollback}
use fineract_analytics_platf.Pipeline.World.{World, Setting, Job, after, on_connection}
use fineract_analytics_platf.Pipeline.Entity.{Before, closed, undo}

rollback-raised :
    (fails : Faults) (c : Connection) (x : Exception)
    → (rollback fails c).0 ≡ raised x
    → fails c.clock ≡ true
unfolding rollback
rollback-raised fails c x e = ground arith

-- No rollback fails.
abbrev pub RollsBack : Setting → Type 0
RollsBack s = (n : ℕ) → s.rollback_fails n ≡ false

module _ (s : Setting) (spec : EntitySpec) (run_id : ℕ) (before : Before) where
  abbrev Fails : Type 0
  Fails = (n : ℕ) × (s.rollback_fails n ≡ true)

  closed-raised :
      (p : Outcome (Unit {0}) × World) (x : Exception)
      → (closed s spec run_id before p).0 ≡ raised x
      → Fails
  closed-raised (ok _, w) x e = absurd cc
  closed-raised (raised y, w) x e =
      (w.connection.clock, rollback-raised s.rollback_fails w.connection x e)

  after-raised :
      (p : Outcome (Unit {0}) × World) (f : Job (Unit {0})) (x : Exception)
      → ((y : Exception) → p.0 ≡ raised y → Fails)
      → ((w : World) → (f w).0 ≡ raised x → Fails)
      → (after p (λ _. f)).0 ≡ raised x
      → Fails
  after-raised (ok _, w) f x h k e = k w e
  after-raised (raised y, w) f x h k e = h y refl

  pub undo-raised :
      (e : Exception) (w : World) (x : Exception)
      → (undo s spec run_id before e w).0 ≡ raised x
      → Fails
  unfolding undo
  undo-raised e w x h =
      after-raised (on_connection (rollback s.rollback_fails) w) _ x
        (λ y k. (w.connection.clock, rollback-raised s.rollback_fails w.connection y k))
        (λ w k. closed-raised _ x k) h

  returned :
      (r : Outcome (Unit {0})) → ((x : Exception) → r ≡ raised x → Fails) → RollsBack s → r ≡ ok tt
  returned (ok _) f h = refl
  returned (raised x) f h = let (n, k) = f x refl in absurd (both (h n) k)
    where
      both : {b : Bool} → b ≡ false → b ≡ true → ⊥
      both e k = cc

  pub undo-returns :
      (e : Exception) (w : World) → RollsBack s → (undo s spec run_id before e w).0 ≡ ok tt
  undo-returns e w h = returned (undo s spec run_id before e w).0 (undo-raised e w) h
