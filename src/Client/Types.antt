-- ===== src/Client/Types.antt =====
-- The settings, the state and the environment of the client (ingestion/fineract_ingest/client.py and
-- the `FineractConfig` of ingestion/fineract_ingest/config.py).
use fineract_analytics_platf.Prelude.{ℕ, String, Bool, Option, List}
use fineract_analytics_platf.Prelude.Int.{ℤ}
use fineract_analytics_platf.Values.{Value, Text}

-- The rate is in thousandths of a request per second; settings below zero are not modelled.
pub record Config : Type 0 where
  pub page_size : ℕ
  pub max_pages : ℕ
  pub max_retries : ℕ
  pub backoff_base : ℕ
  pub backoff_max : ℕ
  pub requests_per_second : ℕ
  pub oauth_key : Bool

-- The `Retry-After` header: missing or empty, not a number, or seconds (here microseconds).
pub data RetryAfter : Type 0 where
  absent : RetryAfter
  unreadable : RetryAfter
  delay : ℤ → RetryAfter

-- What a request gives: a connection error or a timeout; an exception of `requests` that is neither of
-- these nor a `ValueError`; or a response with its status, header, size and decoded body (`none`: the
-- body is not JSON).
pub data Reply : Type 0 where
  no_connection : Reply
  broken_response : Reply
  response : ℕ → RetryAfter → ℕ → Option Value → Reply

abbrev pub Params : Type 0
Params = List (String × Value)

-- The path of a request: a template, and the parent id that `format` puts into it.
pub record Endpoint : Type 0 where
  pub template : String
  pub parent_id : Option ℤ

-- A request, with the key that its `Authorization` header carries (`none`: the password).
pub record Request : Type 0 where
  pub path : Endpoint
  pub params : Params
  pub key : Option Text

-- The n-th request of the process: its reply (`login`: to a login), the time it takes, and the
-- random number after it.
pub record Server : Type 0 where
  pub reply : ℕ → Request → Reply
  pub took : ℕ → ℕ
  pub random : ℕ → ℕ
  pub login : ℕ → Reply

-- `FineractError`, by the place that raises it. The last two are no `FineractError`: the `TypeError` of
-- a page, and what `get` does not catch.
pub data FineractError : Type 0 where
  attempts_failed : ℕ → FineractError
  refused : ℕ → FineractError
  transport_failure : FineractError
  not_json : FineractError
  exhausted : FineractError
  malformed_page : FineractError
  uncaught : FineractError

pub data Result {ℓ} (A : Type ℓ) : Type ℓ where
  ok : A → Result A
  err : FineractError → Result A

-- The client object, the clock, the times at which requests were sent (newest first) and the waits
-- that the back-off asked for (newest first). `sent` counts the requests, answered or not.
pub record Client : Type 0 where
  pub request_count : ℕ
  pub retry_count : ℕ
  pub error_count : ℕ
  pub bytes_received : ℕ
  pub total_latency : ℕ
  pub auth_key : Option Text
  pub last : ℕ
  pub now : ℕ
  pub sent : ℕ
  pub starts : List ℕ
  pub waits : List ℕ
