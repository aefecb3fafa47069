-- ===== src/Mock/Handler.antt =====
-- The `Handler` of ingestion/fineract_ingest/mock_server.py: authorisation, injected failures and
-- the routes.
use fineract_analytics_platf.Prelude.{
  ℕ, zero, suc, ◌-◌, Bool, true, false, not, ◌||◌, Option, none, some, List, [], ◌∷◌, ltb, ◌==◌,
  str_eq, if◌then◌else◌, String,
}
use fineract_analytics_platf.Prelude.Int.{pos}
use fineract_analytics_platf.Values.{
  Value, number_eq, fin, bool, int, float, object, end, field, Text, text_eq, chars,
}
use fineract_analytics_platf.Parsers.Scan.{scan_digits, all_digits}
use fineract_analytics_platf.Mock.Page.{
  Held, json, date, DataRow, encode, Query, page, map_option, bind_option,
}

-- The dataset's collections, and its transactions by the loan's id.
pub record Dataset : Type 0 where
  pub offices : List DataRow
  pub staff : List DataRow
  pub loan_products : List DataRow
  pub savings_products : List DataRow
  pub clients : List DataRow
  pub loans : List DataRow
  pub savings : List DataRow
  pub transactions : List (ℕ × List DataRow)

-- The attributes of the class `Handler`. `is_flaky` is the test of `failure_rate` against a random
-- number for one request.
pub record Mock : Type 0 where
  pub dataset : Dataset
  pub require_auth : Bool
  pub fail_next_n : ℕ

-- A request: its path, query, two headers, and whether `failure_rate` makes it fail.
pub record Incoming : Type 0 where
  pub path : Text
  pub query : Query
  pub authorization : Text
  pub tenant : Text
  pub is_flaky : Bool

-- What is sent: a status with a body, or nothing where the handler raises.
pub data Sent : Type 0 where
  sent : ℕ → Value → Sent
  crashed : Sent

abbrev message : String → Value
message s = object (field "developerMessage" (Value.text (chars s)) end)

abbrev pub send_page : Option Value → Sent
send_page none = crashed
send_page (some v) = sent 200 v

-- What is left of `s` behind a prefix.
unfoldable pub drop_prefix : Text → Text → Option Text
drop_prefix [] s = some s
drop_prefix (c ∷ p) [] = none
drop_prefix (c ∷ p) (d ∷ s) = let rest = drop_prefix p s in if c == d then rest else none

-- What is left of `s` behind the first "/api/v1" in it.
unfoldable pub after_api : Text → Option Text
unfolding drop_prefix chars
after_api [] = none
after_api (c ∷ s) =
    let rest = after_api s in
    elim (drop_prefix (chars "/api/v1") (c ∷ s)) [ none ↦ rest | some t ↦ some t ]

unfoldable pub drop_slashes : Text → Text
drop_slashes [] = []
drop_slashes (c ∷ s) = let rest = drop_slashes s in if c == b'/' then rest else c ∷ s

-- A trailing run of slashes goes with the last character that is none.
unfoldable pub drop_last_slashes : Text → Text
drop_last_slashes [] = []
drop_last_slashes (c ∷ s) = keep c (drop_last_slashes s)
  where
    keep : ℕ → Text → Text
    keep c [] = if c == b'/' then [] else c ∷ []
    keep c (d ∷ t) = c ∷ d ∷ t

abbrev value_or : Text → Option Text → Text
value_or s none = s
value_or s (some t) = t

-- re.sub(r"^.*?/api/v1", "", parsed.path).strip("/")
unfoldable pub route_of : Text → Text
unfolding after_api drop_slashes drop_last_slashes
route_of s = drop_last_slashes (drop_slashes (value_or s (after_api s)))

-- Handler._unauthorised, with the setting `require_auth`: the refusal that it sends, if it does.
unfoldable pub unauthorised : Bool → Incoming → Option Sent
unauthorised require_auth r =
    if not require_auth
    then none
    else if text_eq r.authorization []
    then some (sent 401 (message "missing Authorization"))
    else if text_eq r.tenant []
    then some (sent 400 (message "missing Fineract-Platform-TenantId"))
    else none

-- `routes.get(path)`
unfoldable pub collection_of : Dataset → Text → Option (List DataRow)
unfolding chars
collection_of d t =
    if text_eq t (chars "offices")
    then some d.offices
    else if text_eq t (chars "staff")
    then some d.staff
    else if text_eq t (chars "loanproducts")
    then some d.loan_products
    else if text_eq t (chars "savingsproducts")
    then some d.savings_products
    else if text_eq t (chars "clients")
    then some d.clients
    else if text_eq t (chars "loans")
    then some d.loans
    else if text_eq t (chars "savingsaccounts")
    then some d.savings
    else none

-- A run of digits with a given end.
abbrev digits_before : Text → ℕ × ℕ × Text → Option ℕ
digits_before rest (v, zero, _) = none
digits_before rest (v, suc n, t) = if text_eq t rest then some v else none

-- loans/(\d+)/transactions
unfoldable pub transactions_route : Text → Option ℕ
unfolding drop_prefix chars scan_digits
transactions_route t =
    bind_option (drop_prefix (chars "loans/") t)
      (λ u. digits_before (chars "/transactions") (scan_digits 0 0 u))

unfoldable pub id_behind : String → Text → Option ℕ
unfolding drop_prefix chars scan_digits
id_behind prefix t =
    bind_option (drop_prefix (chars prefix) t) (λ u. all_digits (scan_digits 0 0 u))

-- (clients|loans)/(\d+): the collection and the id
unfoldable pub item_route : Dataset → Text → Option (List DataRow × ℕ)
item_route d t = elim (id_behind "clients/" t) [
  | some n ↦ some (d.clients, n)
  | none ↦ map_option (λ n. (d.loans, n)) (id_behind "loans/" t)
]

-- data.transactions.get(id, [])
abbrev transactions_of : List (ℕ × List DataRow) → ℕ → List DataRow
transactions_of [] n = []
transactions_of ((k, rows) ∷ rest) n =
    let others = transactions_of rest n in if k == n then rows else others

abbrev held : DataRow → String → Option Held
held [] k = none
held ((j, v) ∷ row) k = if str_eq j k then some v else held row k

-- r["id"] == n, where `none` is the `KeyError`
unfoldable pub has_id : ℕ → DataRow → Option Bool
has_id n row = elim (held row "id") [
  | none ↦ none
  | some (date _) ↦ some false
  | some (json (int z)) ↦ some (number_eq (fin z 0) (fin (pos n) 0))
  | some (json (float x)) ↦ some (number_eq x (fin (pos n) 0))
  | some (json (bool true)) ↦ some (n == 1)
  | some (json (bool false)) ↦ some (n == 0)
  | some (json _) ↦ some false
]

-- `next((r for r in collection if r["id"] == n), None)`, and the answer
unfoldable pub send_item : ℕ → List DataRow → Sent
send_item n [] = sent 404 (message "not found")
send_item n (row ∷ rows) =
    let rest = send_item n rows in
    elim (has_id n row) [
      | none ↦ crashed
      | some false ↦ rest
      | some true ↦ send_page (map_option object (encode row))
    ]

-- The routes of `do_GET`.
unfoldable pub route : Dataset → Text → Query → Sent
route d path query = elim (collection_of d path) [
  | some rows ↦ send_page (page rows query)
  | none ↦ elim (transactions_route path) [
    | some n ↦ send_page (page (transactions_of d.transactions n) query)
    | none ↦ elim (item_route d path) [
      | some (rows, n) ↦ send_item n rows
      | none ↦ sent 404 (message "unmapped path")
    ]
  ]
]

abbrev pub is_health : Text → Bool
is_health t = text_eq t (chars "actuator/health") || text_eq t (chars "health")

-- Handler.do_GET
unfoldable pub do_get : Mock → Incoming → Sent × Mock
do_get m r =
    let path = route_of r.path in
    if is_health path
    then (sent 200 (object (field "status" (Value.text (chars "UP")) end)), m)
    else elim (unauthorised m.require_auth r) [
      | some refusal ↦ (refusal, m)
      | none ↦
          if ltb 0 m.fail_next_n
          then (
            sent 503 (message "injected deterministic failure"),
            record m { fail_next_n = m.fail_next_n - 1 },
          )
          else if r.is_flaky
          then (sent 503 (message "injected transient failure"), m)
          else (route m.dataset path r.query, m)
    ]

-- str.endswith
abbrev ends_with : Text → Text → Bool
ends_with s [] = text_eq s []
ends_with s (c ∷ t) = text_eq s (c ∷ t) || ends_with s t

-- Handler.do_POST, of the path
unfoldable pub do_post : Text → Sent
do_post path =
    if ends_with (chars "/authentication") path
    then sent 200 (
        object (
          field "username" (Value.text (chars "mifos")) (
            field "authenticated" (bool true) (
              field "base64EncodedAuthenticationKey" (Value.text (chars "bWlmb3M6cGFzc3dvcmQ="))
                end))))
    else sent 404 (message "not found")
