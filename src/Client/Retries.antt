-- ===== src/Client/Retries.antt =====
-- How `get` of ingestion/fineract_ingest/client.py ends, for every sequence of replies.
use fineract_analytics_platf.Prelude.{
  ℕ, zero, suc, ◌+◌, ◌≤◌, ◌<◌, ◌≡◌, refl, ap, ◌∙◌, ◌⊎◌, inl, inr, Bool, true, false, none, some,
  arith, leb, if◌then◌else◌,
}
use fineract_analytics_platf.Values.{Value}
use fineract_analytics_platf.Client.Types.{
  Config, RetryAfter, Reply, no_connection, broken_response, response, Request, Server,
  FineractError, refused, uncaught, not_json, attempts_failed, transport_failure, Result, ok, err,
  Client,
}
use fineract_analytics_platf.Client.Transport.{
  wait, is_retryable, received, decoded, sleep_for_attempt, sleep, Verdict, value, raised, again,
  receive, send, header_key, attempt_once, proceed, attempts, get,
}

-- A reply after which the loop tries again.
abbrev pub transient : Reply → Bool
transient no_connection = true
transient broken_response = false
transient (response status header size body) = is_retryable status

-- What `get` makes of a reply that is not transient.
abbrev pub settled : Reply → Result Value
settled no_connection = err transport_failure
settled broken_response = err uncaught
settled (response status header size body) =
    if leb 400 status
    then err (refused status)
    else elim body [ none ↦ err not_json | some v ↦ ok v ]

-- What it makes of a transient reply to the last attempt.
abbrev pub given_up : Reply → FineractError
given_up no_connection = transport_failure
given_up broken_response = uncaught
given_up (response status header size body) = attempts_failed status

-- The errors that a result adds to `error_count`.
abbrev pub errors : Result Value → ℕ
errors (ok v) = 0
errors (err uncaught) = 0
errors (err _) = 1

-- The request that goes over the wire.
abbrev pub wire : Config → Request → Client → Request
wire cfg request c = record request { key = header_key cfg c }

record Unmoved (c d : Client) : Type 0 where
  sent : d.sent ≡ c.sent
  retries : d.retry_count ≡ c.retry_count
  errors : d.error_count ≡ c.error_count

wait-Unmoved : (cfg : Config) (c : Client) → Unmoved c (wait cfg c)
unfolding wait
wait-Unmoved cfg c = ground arith

-- What a pass has done to the counters, its outcome aside.
record Passed (c d : Client) (retries failures : ℕ) : Type 0 where
  sent : d.sent ≡ c.sent + 1
  retry_count : d.retry_count ≡ c.retry_count + retries
  error_count : d.error_count ≡ c.error_count + failures

-- The same of `receive`, which sends nothing.
record Received (c d : Client) (retries failures : ℕ) : Type 0 where
  sent : d.sent ≡ c.sent
  retry_count : d.retry_count ≡ c.retry_count + retries
  error_count : d.error_count ≡ c.error_count + failures

abbrev verdict : Result Value → Verdict
verdict (ok v) = value v
verdict (err e) = raised e

module _ (cfg : Config) (random attempt started : ℕ) (c : Client) where
  receive-transient :
      (r : Reply)
      → transient r ≡ true
      → attempt < cfg.max_retries
      → ((receive cfg random attempt started r c).0 ≡ again)
        × Received c (receive cfg random attempt started r c).1 1 0
  unfolding receive received decoded sleep_for_attempt sleep
  receive-transient no_connection t h = ground arith
  receive-transient broken_response t h = cc
  receive-transient (response s RetryAfter.absent n b) t h = ground arith
  receive-transient (response s RetryAfter.unreadable n b) t h = ground arith
  receive-transient (response s (RetryAfter.delay z) n b) t h = ground arith

  receive-last :
      (r : Reply)
      → transient r ≡ true
      → cfg.max_retries ≤ attempt
      → ((receive cfg random attempt started r c).0 ≡ raised (given_up r))
        × Received c (receive cfg random attempt started r c).1 1 1
  unfolding receive received decoded sleep_for_attempt sleep
  receive-last no_connection t h = ground arith
  receive-last broken_response t h = cc
  receive-last (response s a n b) t h = ground arith

  receive-settled :
      (r : Reply)
      → transient r ≡ false
      → ((receive cfg random attempt started r c).0 ≡ verdict (settled r))
        × Received c (receive cfg random attempt started r c).1 0 (errors (settled r))
  unfolding receive received decoded sleep_for_attempt sleep
  receive-settled no_connection t = cc
  receive-settled broken_response t = ground arith
  receive-settled (response s a n none) t = ground arith
  receive-settled (response s a n (some v)) t = ground arith

proceed-verdict :
    (next : Client → Result Value × Client) (r : Result Value) (p : Verdict × Client)
    → p.0 ≡ verdict r
    → proceed next p ≡ (r, p.1)
proceed-verdict next (ok v) (w, c) e = rw e
proceed-verdict next (err x) (w, c) e = rw e

proceed-again :
    (next : Client → Result Value × Client) (p : Verdict × Client)
    → p.0 ≡ again
    → proceed next p ≡ next p.1
proceed-again next (w, c) e = rw e

le_cases : (a b : ℕ) → a ≤ b → (a ≡ b) ⊎ (a < b)
le_cases a b h = omega arith

module _ (server : Server) (cfg : Config) (request : Request) where
  abbrev answer : ℕ → Reply
  answer n = server.reply n request

  pass-transient :
      (attempt : ℕ) (c : Client)
      → transient (answer c.sent) ≡ true
      → attempt < cfg.max_retries
      → ((attempt_once server cfg attempt request c).0 ≡ again)
        × Passed c (attempt_once server cfg attempt request c).1 1 0
  unfolding attempt_once send
  pass-transient attempt c t h =
      let w = wait cfg c in
      let u = wait-Unmoved cfg c in
      let r =
        receive-transient cfg (server.random w.sent) attempt w.now (send server w)
          (server.reply w.sent request) (rw u.sent t) h in
      (r.0, ground arith)

  pass-last :
      (attempt : ℕ) (c : Client)
      → transient (answer c.sent) ≡ true
      → cfg.max_retries ≤ attempt
      → ((attempt_once server cfg attempt request c).0 ≡ raised (given_up (answer c.sent)))
        × Passed c (attempt_once server cfg attempt request c).1 1 1
  unfolding attempt_once send
  pass-last attempt c t h =
      let w = wait cfg c in
      let u = wait-Unmoved cfg c in
      let r =
        receive-last cfg (server.random w.sent) attempt w.now (send server w)
          (server.reply w.sent request) (rw u.sent t) h in
      (r.0 ∙ ap (λ (n : ℕ). raised (given_up (answer n))) u.sent, ground arith)

  pass-settled :
      (attempt : ℕ) (c : Client)
      → transient (answer c.sent) ≡ false
      → ((attempt_once server cfg attempt request c).0 ≡ verdict (settled (answer c.sent)))
        × Passed c
            (attempt_once server cfg attempt request c).1
            0
            (errors (settled (answer c.sent)))
  unfolding attempt_once send
  pass-settled attempt c t =
      let w = wait cfg c in
      let u = wait-Unmoved cfg c in
      let r =
        receive-settled cfg (server.random w.sent) attempt w.now (send server w)
          (server.reply w.sent request) (rw u.sent t) in
      let e = ap (λ (n : ℕ). settled (answer n)) u.sent in
      (r.0 ∙ ap verdict e, ground (arith, ap errors e))

  -- The loop from the pass numbered `attempt`, with `left` passes to go, when the reply to the
  -- request `n` is the first that is not transient.
  attempts-settled :
      (left attempt n : ℕ) (c : Client)
      → attempt + left ≡ cfg.max_retries + 1
      → c.sent ≤ n
      → n < c.sent + left
      → ((i : ℕ) → c.sent ≤ i → i < n → transient (answer i) ≡ true)
      → transient (answer n) ≡ false
      → let (r, d) = attempts server cfg request left attempt c in
        (r ≡ settled (answer n))
        × (d.sent ≡ n + 1)
        × (d.retry_count + c.sent ≡ c.retry_count + n)
        × (d.error_count ≡ c.error_count + errors (settled (answer n)))
  unfolding attempts
  attempts-settled zero attempt n c e l h before last = absurd (omega arith)
  attempts-settled (suc left) attempt n c e l h before last = elim (le_cases c.sent n l) [
    | inl same ↦
        let p = pass-settled attempt c (rw same last) in
        rw
          (proceed-verdict (attempts server cfg request left (attempt + 1))
            (settled (answer c.sent)) (attempt_once server cfg attempt request c) p.0)
          (rw (← same) (refl, p.1.sent, omega arith, p.1.error_count))
    | inr less ↦
        let p = pass-transient attempt c (before c.sent (omega arith) less) (omega arith) in
        let ih =
          attempts-settled left (attempt + 1) n (attempt_once server cfg attempt request c).1
            (omega arith) (omega arith) (omega arith) (λ i x y. before i (omega arith) y) last in
        rw
          (proceed-again (attempts server cfg request left (attempt + 1))
            (attempt_once server cfg attempt request c) p.0)
          (ih.0, ih.1, omega arith, omega arith)
  ]

  -- The same when every reply is transient.
  attempts-exhausted :
      (left attempt n : ℕ) (c : Client)
      → attempt + left ≡ cfg.max_retries + 1
      → n + 1 ≡ c.sent + left
      → 0 < left
      → ((i : ℕ) → c.sent ≤ i → i < n + 1 → transient (answer i) ≡ true)
      → let (r, d) = attempts server cfg request left attempt c in
        (r ≡ err (given_up (answer n)))
        × (d.sent ≡ n + 1)
        × (d.retry_count ≡ c.retry_count + left)
        × (d.error_count ≡ c.error_count + 1)
  unfolding attempts
  attempts-exhausted zero attempt n c e l h all = absurd (omega arith)
  attempts-exhausted (suc zero) attempt n c e l h all =
      let same : c.sent ≡ n = omega arith in
      let p = pass-last attempt c (all c.sent (omega arith) (omega arith)) (omega arith) in
      rw
        (proceed-verdict (attempts server cfg request 0 (attempt + 1))
          (err (given_up (answer c.sent))) (attempt_once server cfg attempt request c) p.0)
        (rw (← same) (refl, p.1.sent, p.1.retry_count, p.1.error_count))
  attempts-exhausted (suc (suc left)) attempt n c e l h all =
      let p = pass-transient attempt c (all c.sent (omega arith) (omega arith)) (omega arith) in
      let ih =
        attempts-exhausted (suc left) (attempt + 1) n (attempt_once server cfg attempt request c).1
          (omega arith) (omega arith) (omega arith) (λ i x y. all i (omega arith) y) in
      rw
        (proceed-again (attempts server cfg request (suc left) (attempt + 1))
          (attempt_once server cfg attempt request c) p.0)
        (ih.0, ih.1, omega arith, omega arith)

-- When the reply to the request `n` is the first that is not transient, and comes within the allowed
-- retries, `get` sends the requests up to `n`, one more for each transient reply before it, counts
-- each of those as a retry, and returns the body of that reply, or raises for a refused status or a
-- body that is not JSON and counts one error. An exception that it does not catch it counts not at all.
pub get-settled :
    (server : Server) (cfg : Config) (request : Request) (n : ℕ) (c : Client)
    → c.sent ≤ n
    → n ≤ c.sent + cfg.max_retries
    → ((i : ℕ) → c.sent ≤ i → i < n → transient (server.reply i (wire cfg request c)) ≡ true)
    → transient (server.reply n (wire cfg request c)) ≡ false
    → let (r, d) = get server cfg request c in
      (r ≡ settled (server.reply n (wire cfg request c)))
      × (d.sent ≡ n + 1)
      × (d.retry_count + c.sent ≡ c.retry_count + n)
      × (d.error_count ≡ c.error_count + errors (settled (server.reply n (wire cfg request c))))
unfolding get
get-settled server cfg request n c l h before last =
    attempts-settled server cfg (wire cfg request c) (cfg.max_retries + 1) 0 n c (omega arith) l
      (omega arith) before last

-- When every allowed attempt gets a transient reply, `get` raises for the last of them, having sent
-- `max_retries` + 1 requests and counted one error. It counts `max_retries` + 1 retries, one more
-- than it has made.
pub get-exhausted :
    (server : Server) (cfg : Config) (request : Request) (c : Client)
    → ((i : ℕ)
        → c.sent ≤ i
        → i < c.sent + cfg.max_retries + 1
        → transient (server.reply i (wire cfg request c)) ≡ true)
    → let (r, d) = get server cfg request c in
      (r ≡ err (given_up (server.reply (c.sent + cfg.max_retries) (wire cfg request c))))
      × (d.sent ≡ c.sent + cfg.max_retries + 1)
      × (d.retry_count ≡ c.retry_count + (cfg.max_retries + 1))
      × (d.error_count ≡ c.error_count + 1)
unfolding get
get-exhausted server cfg request c all =
    attempts-exhausted server cfg (wire cfg request c) (cfg.max_retries + 1) 0
      (c.sent + cfg.max_retries) c (omega arith) (omega arith) (omega arith) all
