-- ===== src/Pipeline/FailFast.antt =====
-- The loop of `IngestionPipeline.run` in ingestion/fineract_ingest/pipeline.py.
use fineract_analytics_platf.Prelude.{
  ◌≡◌, refl, ap, ◌∙◌, inl, inr, String, Bool, List, [], ◌∷◌, Bool-cases, if◌then◌else◌,
}
use fineract_analytics_platf.Outcome.{Outcome, ok}
use fineract_analytics_platf.Pipeline.World.{World, EntityOutcome, Job, after, ◌>>=◌, pure}
use fineract_analytics_platf.Pipeline.Run.{run_all, aborts, add_outcome}

abbrev pub Follows : Bool → List String → List EntityOutcome → Type 0
Follows ff [] [] = Unit
Follows ff [] (o ∷ os) = ⊥
Follows ff (name ∷ names) [] = ⊥
Follows ff (name ∷ names) (o ∷ os) =
    let rest = Follows ff names os in (o.entity ≡ name) × (if aborts ff o then os ≡ [] else rest)

-- Each load of the run, in the world that those before have left, returns an outcome of its entity.
abbrev pub Returns : (String → Job EntityOutcome) → List String → World → Type 0
Returns load [] w = Unit
Returns load (name ∷ names) w =
    ((o : EntityOutcome) × ((load name w).0 ≡ ok o) × (o.entity ≡ name))
    × Returns load names (load name w).1

after-ok :
    {A B : Type 0} (p : Outcome A × World) (f : A → Job B) (a : A)
    → p.0 ≡ ok a
    → after p f ≡ f a p.1
after-ok p f a h = ap (λ o. after (o, p.1) f) h

-- Where each load returns an outcome of its entity, the run returns, and its outcomes are those of the
-- names in their order: of all of them, or of those up to the first that aborts the run.
pub run_all-Follows :
    (load : String → Job EntityOutcome) (fail_fast : Bool) (names : List String) (w : World)
    → Returns load names w
    → (os : List EntityOutcome) × ((run_all load fail_fast names w).0 ≡ ok os)
      × Follows fail_fast names os
unfolding run_all
run_all-Follows load ff [] w h = ([], refl, tt)
run_all-Follows load ff (name ∷ names) w h =
    let k = h.0 in
    let w' = (load name w).1 in
    let rest : Job (List EntityOutcome) = run_all load ff names >>= add_outcome k.0 in
    let e =
      ap (λ p. p.0)
        (after-ok (load name w)
          (λ o.
            let rest = run_all load ff names >>= add_outcome o in
            if aborts ff o then pure (o ∷ []) else rest)
          k.0 k.1) in
    let ih = run_all-Follows load ff names w' h.1 in
    elim (Bool-cases (aborts ff k.0)) [
      | inl a ↦
          (k.0 ∷ [], e ∙ ap (λ b. ((if b then pure (k.0 ∷ []) else rest) w').0) a, (k.2, rw a))
      | inr a ↦ (
        k.0 ∷ ih.0,
        e
            ∙ ap (λ b. ((if b then pure (k.0 ∷ []) else rest) w').0) a
            ∙ ap (λ p. p.0) (after-ok (run_all load ff names w') (add_outcome k.0) ih.0 ih.1),
        (k.2, rw a ih.2),
      )
    ]
