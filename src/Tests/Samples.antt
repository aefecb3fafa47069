-- ===== src/Tests/Samples.antt =====
-- Small settings, servers and records for the tests.
use fineract_analytics_platf.Prelude.{
  ℕ, false, String, none, some, List, [], ◌∷◌, ltb, ◌==◌, str_eq, if◌then◌else◌,
}
use fineract_analytics_platf.Prelude.Int.{pos}
use fineract_analytics_platf.Values.{Text, Row, Value, null, int, array, object, field, end, nil}
use fineract_analytics_platf.Client.Types.{
  Config, RetryAfter, no_connection, response, Request, Endpoint, Params, Server, Client,
}
use fineract_analytics_platf.Parsers.Scalars.{Library}
use fineract_analytics_platf.Loader.Store.{Db, Connection}
use fineract_analytics_platf.Pipeline.World.{Setting, World}
use fineract_analytics_platf.Client.Walk.{page_of}

abbrev pub config : Config
config = record {
  page_size = 2;
  max_pages = 3;
  max_retries = 2;
  backoff_base = 10;
  backoff_max = 50;
  requests_per_second = 8000;
  oauth_key = false;
}

abbrev pub client : Client
client = record {
  request_count = 0;
  retry_count = 0;
  error_count = 0;
  bytes_received = 0;
  total_latency = 0;
  auth_key = none;
  last = 0;
  now = 1000000;
  sent = 0;
  starts = [];
  waits = [];
}

abbrev pub endpoint : Endpoint
endpoint = record { template = "clients"; parent_id = none }

abbrev pub request : Request
request = record { path = endpoint; params = []; key = none }

abbrev pub record_of : ℕ → Value
record_of n = object (field "id" (int (pos n)) end)

abbrev pub five : List Value
five = record_of 1 ∷ record_of 2 ∷ record_of 3 ∷ record_of 4 ∷ record_of 5 ∷ []

abbrev param : Params → String → Value
param [] k = null
param ((j, v) ∷ ps) k = if str_eq j k then v else param ps k

abbrev offset_of : Value → ℕ
offset_of (int (pos n)) = n
offset_of _ = 0

-- A server that pages the five records, with a total of its own.
abbrev pub paging : Value → Server
paging total = record {
  reply = λ n r.
      response 200 RetryAfter.absent 64
        (some (page_of five total 2 (offset_of (param r.params "offset"))));
  took = λ n. 1000;
  random = λ n. 999;
  login = λ n. no_connection;
}

-- A server that is busy for its first `n` requests, and then answers an empty list.
abbrev pub busy : ℕ → Server
busy n = record (paging null) {
  reply = λ i r.
      if ltb i n
      then response 503 RetryAfter.absent 10 none
      else response 200 RetryAfter.absent 10 (some (array nil));
}

abbrev pub library : Library
library = record { strptime = λ t f. none; fromisoformat = λ t. none; repr = λ v. [] }

abbrev pub digest : Row → Text
digest r = []

abbrev pub db : Db
db = record {
  tables = λ t. [];
  runs = [];
  next_run = 1;
  watermarks = [];
  rejects = [];
  quality = [];
}

abbrev pub connection : Connection
connection = record { committed = db; working = db; clock = 0 }

-- Statement `n` fails.
abbrev pub failing_at : ℕ → Setting
failing_at n = record {
  config = config;
  server = paging null;
  library = library;
  digest = digest;
  faults = λ k. k == n;
  rollback_fails = λ k. false;
  parents = λ q d. [];
  batch_size = 2;
  max_reject_ratio = 50;
}

abbrev pub world : World
world = record { client = client; connection = connection; loads = [] }

abbrev office : Value → Text → Value
office id name = object (field "id" id (field "name" (Value.text name) end))

-- Three offices, of which one comes twice, and a record without a key.
abbrev pub raw_offices : List Value
raw_offices =
    office (int (pos 1)) (b'A' ∷ [])
    ∷ office (int (pos 2)) (b'B' ∷ [])
    ∷ office null (b'C' ∷ [])
    ∷ office (int (pos 1)) (b'D' ∷ [])
    ∷ []
