-- ===== src/Mock/Faults.antt =====
-- How the mock of ingestion/fineract_ingest/mock_server.py uses up its injected failures, over the
-- requests of a run.
use fineract_analytics_platf.Prelude.{
  ℕ, suc, ◌-◌, ◌≡◌, sym, ap, ◌∙◌, inl, inr, Bool, false, none, List, [], ◌∷◌, arith, length, ltb,
  Bool-cases, All,
}
use fineract_analytics_platf.Mock.Handler.{
  Mock, Incoming, do_get, unauthorised, is_health, route_of,
}

-- The mock after some requests.
abbrev pub run : Mock → List Incoming → Mock
run m [] = m
run m (r ∷ rs) = run (do_get m r).1 rs

-- A request that gets as far as the injected failures.
pub record IsAdmitted (require_auth : Bool) (r : Incoming) : Type 0 where
  pub no_health : is_health (route_of r.path) ≡ false
  pub authorised : unauthorised require_auth r ≡ none

-- The mock with `n` of its failures used up.
abbrev pub used : ℕ → Mock → Mock
used n m = record m { fail_next_n = m.fail_next_n - n }

used-same : (m : Mock) (n : ℕ) → m.fail_next_n ≡ n → record m { fail_next_n = n } ≡ m
used-same m n e = ap (λ (k : ℕ). record m { fail_next_n = k }) (sym e)

do_get-used : (m : Mock) (r : Incoming) → IsAdmitted m.require_auth r → (do_get m r).1 ≡ used 1 m
unfolding do_get
do_get-used m r a =
    rw (a.no_health, a.authorised)
      (elim (Bool-cases (ltb 0 m.fail_next_n)) [
        | inl more ↦ rw more
        | inr last ↦
            let e : m.fail_next_n ≡ m.fail_next_n - 1 = ground arith in
            rw last (elim (Bool-cases r.is_flaky) [
              | inl y ↦ rw y (sym (used-same m (m.fail_next_n - 1) e))
              | inr n ↦ rw n (sym (used-same m (m.fail_next_n - 1) e))
            ])
      ])

run-used :
    (m : Mock) (rs : List Incoming)
    → All (IsAdmitted m.require_auth) rs
    → run m rs ≡ used (length rs) m
run-used m [] ads = sym (used-same m (m.fail_next_n - 0) (omega arith))
run-used m (r ∷ rs) ads =
    ap (λ (n : Mock). run n rs) (do_get-used m r ads.0)
    ∙ run-used (used 1 m) rs ads.1
    ∙ ap (λ (k : ℕ). record m { fail_next_n = k })
        (let e : m.fail_next_n - 1 - length rs ≡ m.fail_next_n - suc (length rs) = omega arith in e)

-- What the mock answers after any requests that were admitted, one after the other, depends on their
-- number alone: it has used up one injected failure for each of them, and is otherwise unchanged.
pub do_get-run :
    (m : Mock) (rs : List Incoming) (r : Incoming)
    → All (IsAdmitted m.require_auth) rs
    → do_get (run m rs) r ≡ do_get (record m { fail_next_n = m.fail_next_n - length rs }) r
do_get-run m rs r ads = ap (λ (n : Mock). do_get n r) (run-used m rs ads)
