-- ===== src/Airflow/Verdicts.antt =====
-- When the quality gate of orchestration/plugins/fineract/operators.py lets a run pass.
use mathlib.Core.List.{append-nil, append_assoc}
use fineract_analytics_platf.Prelude.{
  ℕ, suc, ◌+◌, String, ◌≡◌, refl, sym, ap, ◌∙◌, Bool, true, false, not, ◌&&◌, List, [], ◌∷◌, ◌++◌,
  All, count_if, count_if-append, count_if-not, length, length-append, if◌then◌else◌, arith,
}
use fineract_analytics_platf.Values.{Number}
use fineract_analytics_platf.Outcome.{Exception, Outcome, ok, raised}
use fineract_analytics_platf.Airflow.Hooks.{Answer}
use fineract_analytics_platf.Airflow.Gate.{
  Check, Status, error, observe, compare, evaluate, is_pass, Tally, note, run_checks, Summary,
  passes, conclude, execute_gate, status_of,
}

-- The query gives a number, and that number compares as the check asks.
abbrev pub holds : Answer → Check → Bool
holds a c = elim (observe a) [
  | raised e ↦ false
  | ok x ↦ elim (compare c.comparison x c.threshold) [ raised e ↦ false | ok b ↦ b ]
]

-- A comparison that the gate knows.
abbrev pub IsKnown : Check → Type 0
IsKnown c = (x t : Number) → (b : Bool) × (compare c.comparison x t ≡ ok b)

-- How many checks hold, whether all blocking ones do, and the names of the blocking ones that do not.
abbrev pub holding : (ℕ → Answer) → ℕ → List Check → ℕ
holding answers n [] = 0
holding answers n (c ∷ cs) =
    let rest = holding answers (suc n) cs in if holds (answers n) c then suc rest else rest

abbrev pub failing : (ℕ → Answer) → ℕ → List Check → List String
failing answers n [] = []
failing answers n (c ∷ cs) =
    let rest = failing answers (suc n) cs in
    if not (holds (answers n) c) && c.blocking then c.name ∷ rest else rest

-- The outcome of the gate: it passes if no blocking check fails, and then counts every check once.
abbrev pub Decides : ℕ → ℕ → List String → Outcome Summary → Type 0
Decides checks holding [] (ok s) = (s.passed ≡ holding) × (s.passed + s.failed ≡ checks)
Decides checks holding (n ∷ ns) (raised (Exception.airflow_fail names)) = names ≡ n ∷ ns
Decides _ _ _ _ = ⊥

status_of-pass : (b : Bool) → is_pass (status_of b) ≡ b
status_of-pass true = refl
status_of-pass false = refl

record Evaluated (a : Answer) (c : Check) : Type 0 where
  status : Status
  evaluates : evaluate a c ≡ ok status
  same : is_pass status ≡ holds a c

evaluate-Evaluated : (a : Answer) (c : Check) → IsKnown c → Evaluated a c
unfolding evaluate
evaluate-Evaluated a c known = observed (observe a) refl
  where
    observed : (o : Outcome Number) → observe a ≡ o → Evaluated a c
    observed (raised e) h = record {
      status = error;
      evaluates = rw (evaluate, h);
      same = rw (holds, h);
    }
    observed (ok x) h =
        let (b, k) = known x c.threshold in
        record {
          status = status_of b;
          evaluates = rw (evaluate, h, k);
          same = status_of-pass b ∙ sym (rw (holds, h, k));
        }

record Ran (answers : ℕ → Answer) (n : ℕ) (checks : List Check) (t : Tally) : Type 0 where
  tally : Tally
  runs : run_checks answers n checks t ≡ ok tally
  passed : count_if passes tally.results ≡ count_if passes t.results + holding answers n checks
  all : length tally.results ≡ length t.results + length checks
  names : tally.blocking_failures ≡ t.blocking_failures ++ failing answers n checks

noted_names :
    (fails : Bool) (name : String) (before rest : List String)
    → (if fails then before ++ name ∷ [] else before) ++ rest
      ≡ before ++ (if fails then name ∷ rest else rest)
noted_names true name before rest = append_assoc before (name ∷ []) rest
noted_names false name before rest = refl

counted :
    (b : Bool) (total before rest : ℕ)
    → total ≡ before + (if b then 1 else 0) + rest
    → total ≡ before + (if b then suc rest else rest)
counted true total before rest e = omega arith
counted false total before rest e = omega arith

conclude-Decides :
    (names : List String) (results : List (Check × Status)) (checks holding : ℕ)
    → count_if passes results ≡ holding
    → length results ≡ checks
    → Decides checks holding names (conclude names results)
conclude-Decides [] results checks holding p l = (p, count_if-not passes results ∙ l)
conclude-Decides (n ∷ ns) results checks holding p l = refl

run_checks-Ran :
    (answers : ℕ → Answer) (n : ℕ) (checks : List Check) (t : Tally)
    → All IsKnown checks
    → Ran answers n checks t
unfolding run_checks
run_checks-Ran answers n [] t known = record {
  tally = t;
  runs = refl;
  passed = omega arith;
  all = omega arith;
  names = sym (append-nil t.blocking_failures);
}
run_checks-Ran answers n (c ∷ cs) t known =
    let e = evaluate-Evaluated (answers n) c known.0 in
    let r = run_checks-Ran answers (suc n) cs (note c e.status t) known.1 in
    record {
      tally = r.tally;
      runs = rw (run_checks, e.evaluates) r.runs;
      passed =
          counted (holds (answers n) c) (count_if passes r.tally.results)
            (count_if passes t.results) (holding answers (suc n) cs)
            (r.passed
              ∙ ap (λ (k : ℕ). k + holding answers (suc n) cs)
                  (count_if-append passes t.results ((c, e.status) ∷ [])
                    ∙ ap (λ b. count_if passes t.results + (if b then 1 else 0)) e.same));
      all = omega (arith, r.all, length-append t.results ((c, e.status) ∷ []));
      names =
          r.names
          ∙ ap
              (λ b.
                (if not b && c.blocking
                  then t.blocking_failures ++ c.name ∷ []
                  else t.blocking_failures)
                ++ failing answers (suc n) cs)
              e.same
          ∙ noted_names (not (holds (answers n) c) && c.blocking) c.name t.blocking_failures
              (failing answers (suc n) cs);
    }

-- The gate raises if and only if some blocking check does not hold, which is one whose query fails or
-- whose number does not compare as asked, and names those checks, in order. Otherwise it returns, and
-- every check is counted once, as passed if it holds. The comparisons of the checks are known.
pub execute_gate-Decides :
    (answers : ℕ → Answer) (checks : List Check)
    → All IsKnown checks
    → Decides
        (length checks)
        (holding answers 0 checks)
        (failing answers 0 checks)
        (execute_gate answers checks)
unfolding execute_gate
execute_gate-Decides answers checks known =
    let r =
      run_checks-Ran answers 0 checks (record { results = []; blocking_failures = [] }) known in
    rw (execute_gate, r.runs, r.names)
      (conclude-Decides (failing answers 0 checks) r.tally.results (length checks)
        (holding answers 0 checks) (omega (arith, r.passed)) (omega (arith, r.all)))
