-- ===== src/Client/Transport.antt =====
-- `RateLimiter`, `_sleep_for_attempt`, `authenticate` and `get` of
-- ingestion/fineract_ingest/client.py.
use fineract_analytics_platf.Prelude.{
  ℕ, zero, suc, ◌+◌, ◌-◌, ◌*◌, ◌/◌, ◌^◌, Bool, ◌||◌, Option, none, some, [], ◌∷◌, min, ltb, leb,
  ◌==◌, if◌then◌else◌,
}
use fineract_analytics_platf.Prelude.Int.{pos, negsuc}
use fineract_analytics_platf.Values.{Value, object, Text, get_field}
use fineract_analytics_platf.Client.Types.{
  Config, RetryAfter, absent, unreadable, delay, Reply, no_connection, broken_response, response,
  Request, Server, FineractError, attempts_failed, refused, transport_failure, not_json, exhausted,
  uncaught, Result, ok, err, Client,
}

-- RateLimiter.__init__
unfoldable pub min_interval : Config → ℕ
min_interval cfg = if ltb 0 cfg.requests_per_second then 1000000000 / cfg.requests_per_second else 0

-- RateLimiter.wait
unfoldable pub wait : Config → Client → Client
wait cfg c =
    if min_interval cfg == 0
    then c
    else let elapsed = c.now - c.last in
      if ltb elapsed (min_interval cfg)
      then record c {
        now = c.now + (min_interval cfg - elapsed);
        last = c.now + (min_interval cfg - elapsed);
      }
      else record c { last = c.now }

-- time.sleep, which ends no earlier
unfoldable pub sleep : ℕ → Client → Client
sleep n c = record c { now = c.now + n; waits = n ∷ c.waits }

-- min(base * 2 ** attempt, max) * (0.5 + random() / 2)
unfoldable pub jittered : Config → ℕ → ℕ → ℕ
jittered cfg attempt random =
    min (cfg.backoff_base * 2 ^ attempt) cfg.backoff_max * (1000 + random) / 2000

-- A negative `Retry-After` makes `time.sleep` raise `ValueError`, and falls back as a bad one does.
unfoldable pub sleep_for_attempt : Config → ℕ → ℕ → RetryAfter → Client → Client
sleep_for_attempt cfg random attempt (delay (pos n)) c = sleep (min n cfg.backoff_max) c
sleep_for_attempt cfg random attempt (delay (negsuc n)) c = sleep (jittered cfg attempt random) c
sleep_for_attempt cfg random attempt absent c = sleep (jittered cfg attempt random) c
sleep_for_attempt cfg random attempt unreadable c = sleep (jittered cfg attempt random) c

-- RETRYABLE_STATUS
abbrev pub is_retryable : ℕ → Bool
is_retryable s = s == 408 || s == 425 || s == 429 || s == 500 || s == 502 || s == 503 || s == 504

-- How one pass of the loop in `get` ends.
pub data Verdict : Type 0 where
  value : Value → Verdict
  raised : FineractError → Verdict
  again : Verdict

-- `request_count`, the latency and the bytes of a response.
unfoldable pub received : ℕ → ℕ → Client → Client
received size started c = record c {
  request_count = c.request_count + 1;
  total_latency = c.total_latency + (c.now - started);
  bytes_received = c.bytes_received + size;
}

-- `return response.json()`
unfoldable pub decoded : Option Value → Client → Verdict × Client
decoded (some v) c = (value v, c)
decoded none c = (raised not_json, record c { error_count = c.error_count + 1 })

-- The body of the `try` after the session has answered, and the two handlers. What they do not catch
-- goes on, before the request is counted.
unfoldable pub receive : Config → ℕ → ℕ → ℕ → Reply → Client → Verdict × Client
receive cfg random attempt started no_connection c =
    let c' = record c { retry_count = c.retry_count + 1 } in
    if ltb attempt cfg.max_retries
    then (again, sleep_for_attempt cfg random attempt absent c')
    else (raised transport_failure, record c' { error_count = c'.error_count + 1 })
receive cfg random attempt started broken_response c = (raised uncaught, c)
receive cfg random attempt started (response status header size body) c =
    let r = received size started c in
    if is_retryable status
    then (let c' = record r { retry_count = r.retry_count + 1 } in
        if ltb attempt cfg.max_retries
        then (again, sleep_for_attempt cfg random attempt header c')
        else (raised (attempts_failed status), record c' { error_count = c'.error_count + 1 }))
    else if leb 400 status
    then (raised (refused status), record r { error_count = r.error_count + 1 })
    else decoded body r

-- `session.get`: the clock runs while the request does.
unfoldable pub send : Server → Client → Client
send server c = record c {
  now = c.now + server.took c.sent;
  sent = c.sent + 1;
  starts = c.now ∷ c.starts;
}

-- An empty key is as none.
abbrev pub usable : Option Text → Option Text
usable none = none
usable (some []) = none
usable (some (c ∷ t)) = some (c ∷ t)

-- `_headers`: the key is used in oauth-key mode, once there is one.
unfoldable pub header_key : Config → Client → Option Text
header_key cfg c = if cfg.oauth_key then usable c.auth_key else none

-- One pass of the loop: wait, send, and deal with the reply.
unfoldable pub attempt_once : Server → Config → ℕ → Request → Client → Verdict × Client
attempt_once server cfg attempt request c =
    let w = wait cfg c in
    receive cfg (server.random w.sent) attempt w.now (server.reply w.sent request) (send server w)

abbrev pub proceed : (Client → Result Value × Client) → Verdict × Client → Result Value × Client
proceed next (value v, c) = (ok v, c)
proceed next (raised e, c) = (err e, c)
proceed next (again, c) = next c

-- `for attempt in range(...)`: the passes left, and the number of the next.
unfoldable pub attempts : Server → Config → Request → ℕ → ℕ → Client → Result Value × Client
attempts server cfg request zero attempt c = (err exhausted, c)
attempts server cfg request (suc left) attempt c =
    proceed (attempts server cfg request left (attempt + 1))
      (attempt_once server cfg attempt request c)

-- FineractClient.get
unfoldable pub get : Server → Config → Request → Client → Result Value × Client
get server cfg request c =
    attempts server cfg (record request { key = header_key cfg c }) (cfg.max_retries + 1) 0 c

abbrev text_of : Value → Option Text
text_of (Value.text t) = some t
text_of _ = none

-- response.json().get("base64EncodedAuthenticationKey")
abbrev key_of : Option Value → Option Text
key_of (some (object fs)) = text_of (get_field fs "base64EncodedAuthenticationKey")
key_of _ = none

-- FineractClient.authenticate, on the answer to the login: an error of any kind leaves no key.
unfoldable pub logged_in : Reply → Client → Client
logged_in no_connection c = record c { auth_key = none }
logged_in broken_response c = record c { auth_key = none }
logged_in (response status header size body) c = record c {
  request_count = c.request_count + 1;
  auth_key = if leb 400 status then none else key_of body;
}

unfoldable pub authenticate : Server → Config → Client → Client
authenticate server cfg c =
    if cfg.oauth_key
    then (let w = wait cfg c in logged_in (server.login w.sent) (send server w))
    else c
