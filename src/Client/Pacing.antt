-- ===== src/Client/Pacing.antt =====
-- The pace of the requests of ingestion/fineract_ingest/client.py, and the bounds of its back-off.
use fineract_analytics_platf.Prelude.{
  ℕ, zero, suc, ◌+◌, ◌*◌, ◌/◌, ◌^◌, ◌≤◌, ◌<◌, ◌≡◌, refl, ◌⊎◌, Bool, true, false, Option, none, some,
  List, [], ◌∷◌, arith, min, leb, ltb, if◌then◌else◌, All,
}
use fineract_analytics_platf.Prelude.Int.{pos}
use fineract_analytics_platf.Values.{Value}
use fineract_analytics_platf.Client.Types.{
  Config, RetryAfter, Reply, no_connection, broken_response, response, Request, Server,
  attempts_failed, refused, transport_failure, Result, Client,
}
use fineract_analytics_platf.Client.Transport.{
  min_interval, wait, sleep, jittered, sleep_for_attempt, is_retryable, Verdict, value, raised,
  again, receive, received, decoded, send, header_key, attempt_once, proceed, attempts, get,
}

-- Times, newest first, that are at least `gap` apart.
abbrev pub Spaced : ℕ → List ℕ → Type 0
Spaced gap [] = Unit
Spaced gap (x ∷ []) = Unit
Spaced gap (x ∷ y ∷ l) = (y + gap ≤ x) × Spaced gap (y ∷ l)

-- The newest request was sent no later than now, and the limiter has noted it if it is on.
abbrev Noted : ℕ → Client → List ℕ → Type 0
Noted gap c [] = Unit
Noted gap c (x ∷ l) = (x ≤ c.now) × ((gap ≡ 0) ⊎ (x ≤ c.last))

-- Requests are spaced by the limiter's interval, and no back-off asked for more than its maximum.
pub record IsPaced (cfg : Config) (c : Client) : Type 0 where
  pub spaced : Spaced (min_interval cfg) c.starts
  pub noted : Noted (min_interval cfg) c c.starts
  pub bounded : All (λ n. n ≤ cfg.backoff_max) c.waits

halved_bounds : (m r : ℕ) → r < 1000 → (m / 2 ≤ m * (1000 + r) / 2000) × (m * (1000 + r) / 2000 ≤ m)
halved_bounds m r h = grind arith

-- For a random number below one, the jitter keeps a wait between half of the exponential delay, at
-- most the maximum of the back-off, and the whole of it.
pub jittered_bounds :
    (cfg : Config) (attempt random : ℕ)
    → random < 1000
    → let delay = min (cfg.backoff_base * 2 ^ attempt) cfg.backoff_max in
      (delay / 2 ≤ jittered cfg attempt random) × (jittered cfg attempt random ≤ delay)
unfolding jittered
jittered_bounds cfg attempt random h =
    halved_bounds (min (cfg.backoff_base * 2 ^ attempt) cfg.backoff_max) random h

module _ (cfg : Config) where
  Spaced-tail :
      (x : ℕ) (l : List ℕ) → Spaced (min_interval cfg) (x ∷ l) → Spaced (min_interval cfg) l
  Spaced-tail x [] h = tt
  Spaced-tail x (y ∷ l) h = h.1

  -- After the limiter a request may go out.
  Ready : Client → Type 0
  Ready c =
      Spaced (min_interval cfg) (c.now ∷ c.starts)
      × ((min_interval cfg ≡ 0) ⊎ (c.now ≤ c.last))
      × All (λ n. n ≤ cfg.backoff_max) c.waits

  wait-Spaced :
      (starts : List ℕ) (c : Client)
      → c.starts ≡ starts
      → Spaced (min_interval cfg) starts
      → Noted (min_interval cfg) c starts
      → Spaced (min_interval cfg) ((wait cfg c).now ∷ starts)
  unfolding wait
  wait-Spaced [] c e s n = tt
  wait-Spaced (x ∷ l) c e s n = ground arith

  wait-Ready : (c : Client) → IsPaced cfg c → Ready (wait cfg c)
  unfolding Ready wait
  wait-Ready c h = ground (arith, wait-Spaced c.starts c refl h.spaced h.noted)

  send-IsPaced : (server : Server) (c : Client) → Ready c → IsPaced cfg (send server c)
  unfolding Ready send
  send-IsPaced server c h = record { spaced = h.0; noted = (omega arith, h.1); bounded = h.2 }

  Noted-later :
      (starts : List ℕ) (c d : Client)
      → c.now ≤ d.now
      → d.last ≡ c.last
      → Noted (min_interval cfg) c starts
      → Noted (min_interval cfg) d starts
  Noted-later [] c d h e n = tt
  Noted-later (x ∷ l) c d h e n = ground arith

  -- A change that leaves the limiter, the log of requests and the waits alone.
  later-IsPaced :
      (c d : Client)
      → c.now ≤ d.now
      → d.last ≡ c.last
      → d.starts ≡ c.starts
      → d.waits ≡ c.waits
      → IsPaced cfg c
      → IsPaced cfg d
  later-IsPaced c d t l s w h = record {
    spaced = rw s h.spaced;
    noted = rw s (Noted-later c.starts c d t l h.noted);
    bounded = rw w h.bounded;
  }

  sleep-IsPaced :
      (n : ℕ) (c : Client) → n ≤ cfg.backoff_max → IsPaced cfg c → IsPaced cfg (sleep n c)
  unfolding sleep
  sleep-IsPaced n c b h = record {
    spaced = h.spaced;
    noted = Noted-later c.starts c (sleep n c) (omega arith) refl h.noted;
    bounded = (b, h.bounded);
  }

  sleep_for_attempt-IsPaced :
      (random attempt : ℕ) (header : RetryAfter) (c : Client)
      → random < 1000
      → IsPaced cfg c
      → IsPaced cfg (sleep_for_attempt cfg random attempt header c)
  unfolding sleep_for_attempt
  sleep_for_attempt-IsPaced random attempt (RetryAfter.delay (pos n)) c r h =
      sleep-IsPaced (min n cfg.backoff_max) c (omega arith) h
  sleep_for_attempt-IsPaced random attempt _ c r h =
      sleep-IsPaced (jittered cfg attempt random) c
        (omega (arith, jittered_bounds cfg attempt random r)) h

  if-IsPaced :
      (b : Bool) (x y : Verdict × Client)
      → IsPaced cfg x.1
      → IsPaced cfg y.1
      → IsPaced cfg (if b then x else y).1
  if-IsPaced true x y hx hy = hx
  if-IsPaced false x y hx hy = hy

  decoded-IsPaced :
      (body : Option Value) (c : Client) → IsPaced cfg c → IsPaced cfg (decoded body c).1
  unfolding decoded
  decoded-IsPaced none c h =
      later-IsPaced c (record c { error_count = c.error_count + 1 }) (omega arith) refl refl refl h
  decoded-IsPaced (some v) c h = h

  receive-IsPaced :
      (random attempt started : ℕ) (r : Reply) (c : Client)
      → random < 1000
      → IsPaced cfg c
      → IsPaced cfg (receive cfg random attempt started r c).1
  unfolding receive received
  receive-IsPaced random attempt started no_connection c r h =
      let d = record c { retry_count = c.retry_count + 1 } in
      let hd = later-IsPaced c d (omega arith) refl refl refl h in
      if-IsPaced (ltb attempt cfg.max_retries)
        (again, sleep_for_attempt cfg random attempt RetryAfter.absent d)
        (raised transport_failure, record d { error_count = d.error_count + 1 })
        (sleep_for_attempt-IsPaced random attempt RetryAfter.absent d r hd)
        (later-IsPaced d (record d { error_count = d.error_count + 1 }) (omega arith) refl refl refl
          hd)
  receive-IsPaced random attempt started broken_response c r h = h
  receive-IsPaced random attempt started (response status header size body) c r h =
      let q = received size started c in
      let hq = later-IsPaced c q (omega arith) refl refl refl h in
      let d = record q { retry_count = q.retry_count + 1 } in
      let hd = later-IsPaced q d (omega arith) refl refl refl hq in
      if-IsPaced (is_retryable status)
        (if ltb attempt cfg.max_retries
          then (again, sleep_for_attempt cfg random attempt header d)
          else (raised (attempts_failed status), record d { error_count = d.error_count + 1 }))
        (if leb 400 status
          then (raised (refused status), record q { error_count = q.error_count + 1 })
          else decoded body q)
        (if-IsPaced (ltb attempt cfg.max_retries)
          (again, sleep_for_attempt cfg random attempt header d)
          (raised (attempts_failed status), record d { error_count = d.error_count + 1 })
          (sleep_for_attempt-IsPaced random attempt header d r hd)
          (later-IsPaced d (record d { error_count = d.error_count + 1 }) (omega arith) refl refl
            refl hd))
        (if-IsPaced (leb 400 status)
          (raised (refused status), record q { error_count = q.error_count + 1 }) (decoded body q)
          (later-IsPaced q (record q { error_count = q.error_count + 1 }) (omega arith) refl refl
            refl hq)
          (decoded-IsPaced body q hq))

-- The server's random numbers are those of `random()`, below one.
module _ (server : Server) (cfg : Config) (below_one : (i : ℕ) → server.random i < 1000) where
  attempt_once-IsPaced :
      (attempt : ℕ) (request : Request) (c : Client)
      → IsPaced cfg c
      → IsPaced cfg (attempt_once server cfg attempt request c).1
  unfolding attempt_once
  attempt_once-IsPaced attempt request c h =
      let w = wait cfg c in
      receive-IsPaced cfg (server.random w.sent) attempt w.now (server.reply w.sent request)
        (send server w) (below_one w.sent) (send-IsPaced cfg server w (wait-Ready cfg c h))

  proceed-IsPaced :
      (next : Client → Result Value × Client) (p : Verdict × Client)
      → ((c : Client) → IsPaced cfg c → IsPaced cfg (next c).1)
      → IsPaced cfg p.1
      → IsPaced cfg (proceed next p).1
  proceed-IsPaced next (value v, c) k h = h
  proceed-IsPaced next (raised e, c) k h = h
  proceed-IsPaced next (again, c) k h = k c h

  attempts-IsPaced :
      (left attempt : ℕ) (request : Request) (c : Client)
      → IsPaced cfg c
      → IsPaced cfg (attempts server cfg request left attempt c).1
  unfolding attempts
  attempts-IsPaced zero attempt request c h = h
  attempts-IsPaced (suc left) attempt request c h =
      proceed-IsPaced (attempts server cfg request left (attempt + 1))
        (attempt_once server cfg attempt request c) (attempts-IsPaced left (attempt + 1) request)
        (attempt_once-IsPaced attempt request c h)

  pub get-IsPaced :
      (request : Request) (c : Client) → IsPaced cfg c → IsPaced cfg (get server cfg request c).1
  unfolding get
  get-IsPaced request c h =
      attempts-IsPaced (cfg.max_retries + 1) 0 (record request { key = header_key cfg c }) c h
