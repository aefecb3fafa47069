-- ===== src/Tests/Mocked.antt =====
-- Tests of the mock of the API, alone and behind the client.
use fineract_analytics_platf.Prelude.{
  ◌≡◌, refl, true, false, none, some, List, [], ◌∷◌, arith, String, str_eq, if◌then◌else◌, ℕ, ◌-◌,
}
use fineract_analytics_platf.Prelude.Int.{pos}
use fineract_analytics_platf.Values.{Value, int, null, Text, chars}
use fineract_analytics_platf.Parsers.Scan.{str_of_int}
use fineract_analytics_platf.Client.Types.{Params, no_connection}
use fineract_analytics_platf.Client.Pages.{iter_items, page_params, set_param}
use fineract_analytics_platf.Mock.Page.{
  json, date, DataRow, Query, first_value, page, strip_private, encode,
}
use fineract_analytics_platf.Mock.Handler.{
  Dataset, Mock, Incoming, crashed, do_get, unauthorised, route_of, collection_of, send_item,
  has_id, after_api, drop_prefix, drop_slashes, drop_last_slashes, route, transactions_route,
  item_route, id_behind,
}
use fineract_analytics_platf.Mock.Faults.{run, do_get-run}
use fineract_analytics_platf.Mock.Serving.{Wire, IsFaithful, Leads, served_by, page-page_of}
use fineract_analytics_platf.Mock.Crawl.{iter_items-mock}
use fineract_analytics_platf.Client.Walk.{page_of}
use fineract_analytics_platf.Tests.Samples.{config, client, endpoint, record_of}

abbrev row_of : ℕ → DataRow
row_of n =
    ("id", json (int (pos n)))
    ∷ ("_disbursed", date (record { year = 2026; month = 1; day = n }))
    ∷ []

abbrev rows : List DataRow
rows = row_of 1 ∷ row_of 2 ∷ row_of 3 ∷ []

abbrev dataset : Dataset
dataset = record {
  offices = [];
  staff = [];
  loan_products = [];
  savings_products = [];
  clients = rows;
  loans = rows;
  savings = [];
  transactions = [];
}

abbrev failing_twice : Mock
failing_twice = record { dataset = dataset; require_auth = true; fail_next_n = 2 }

abbrev param : Params → String → Value
param [] k = null
param ((j, v) ∷ ps) k = if str_eq j k then v else param ps k

abbrev written : Value → Text
written (int z) = str_of_int z
written (Value.text t) = t
written _ = []

-- Each parameter arrives as it is written.
abbrev query_of : Params → Query
query_of [] = []
query_of ((k, v) ∷ ps) = (k, written v) ∷ query_of ps

abbrev wire : Wire
wire = record {
  url = λ e. chars "/fineract-provider/api/v1/clients";
  query = query_of;
  authorization = λ k. chars "Basic";
  tenant = chars "default";
  size = λ v. 64;
  took = λ n. 1000;
  random = λ n. 999;
  login = λ n. no_connection;
}

wire-IsFaithful : IsFaithful wire []
unfolding page_params set_param first_value
wire-IsFaithful = record {
  paged = λ offset limit. refl;
  offsets = λ offset limit. refl;
  limits = λ offset limit. refl;
}

wire-Leads : Leads wire failing_twice endpoint rows
unfolding route_of after_api drop_prefix drop_slashes drop_last_slashes chars collection_of
    unauthorised
wire-Leads = record { no_health = refl; collection = refl; authorised = λ r. refl }

iter_items-mock_example :
    let (s, _) = iter_items (served_by wire failing_twice) config endpoint [] true client in
    (s.yielded ≡ record_of 1 ∷ record_of 2 ∷ record_of 3 ∷ []) × (s.failure ≡ none)
unfolding strip_private encode
iter_items-mock_example =
    iter_items-mock wire failing_twice config endpoint [] rows
      (record_of 1 ∷ record_of 2 ∷ record_of 3 ∷ []) client wire-IsFaithful wire-Leads
      (((_, refl, refl), ((_, refl, refl), ((_, refl, refl), tt)))) (omega arith) (omega arith)
      (omega arith)

page-page_of_example :
    page rows (query_of (page_params [] 2 2))
    ≡ some (page_of (record_of 1 ∷ record_of 2 ∷ record_of 3 ∷ []) (int (pos 3)) 2 2)
unfolding strip_private encode
page-page_of_example =
    page-page_of wire [] wire-IsFaithful rows (record_of 1 ∷ record_of 2 ∷ record_of 3 ∷ [])
      (((_, refl, refl), ((_, refl, refl), ((_, refl, refl), tt)))) 2 2

abbrev asking : Text → Incoming
asking path = record {
  path = path;
  query = [];
  authorization = chars "Basic";
  tenant = chars "default";
  is_flaky = false;
}

do_get-run_example :
    do_get (run failing_twice (asking (chars "/x/api/v1/offices") ∷ [])) (asking (chars "/loans/2"))
    ≡ do_get (record failing_twice { fail_next_n = 2 - 1 }) (asking (chars "/loans/2"))
unfolding route_of after_api drop_prefix drop_slashes drop_last_slashes chars unauthorised
do_get-run_example =
    do_get-run failing_twice (asking (chars "/x/api/v1/offices") ∷ []) (asking (chars "/loans/2"))
      (record { no_health = refl; authorised = refl }, tt)

-- A single row is sent with its private keys, of which one is a date.
date_is_not_sent : send_item 2 rows ≡ crashed
unfolding send_item has_id encode
date_is_not_sent = refl

-- The loan's own route crashes, an unknown one is not found, and a page of loans is sent.
loan_crashes :
    (do_get (record failing_twice { fail_next_n = 0 }) (asking (chars "/api/v1/loans/2"))).0
    ≡ crashed
unfolding do_get route_of after_api drop_prefix drop_slashes drop_last_slashes chars unauthorised
    collection_of route transactions_route item_route id_behind send_item has_id encode
loan_crashes = refl
