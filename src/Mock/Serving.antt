-- ===== src/Mock/Serving.antt =====
-- The mock of ingestion/fineract_ingest/mock_server.py as the server of the client.
use mathlib.Core.Option.{none-ne-some}
use fineract_analytics_platf.Prelude.{
  ℕ, String, zero, suc, ◌-◌, ◌≡◌, refl, ap, true, false, Option, none, some, List, [], ◌∷◌, arith,
  length, take, drop,
}
use fineract_analytics_platf.Prelude.Int.{pos, add_ℤ}
use fineract_analytics_platf.Values.{Value, int, object, Text, Fields}
use fineract_analytics_platf.Parsers.Scan.{
  str_of_int, int_of_text, strip, lstrip, rstrip, without_underscores, scan_digits, lower,
}
use fineract_analytics_platf.Parsers.RoundTrip.{int_of_text-str_of_int}
use fineract_analytics_platf.Client.Types.{
  Endpoint, Params, Request, Reply, RetryAfter, no_connection, response, Server,
}
use fineract_analytics_platf.Client.Pages.{page_params}
use fineract_analytics_platf.Client.Walk.{page_of, to_items}
use fineract_analytics_platf.Mock.Page.{
  DataRow, encode, encode_rows, strip_private, Query, first_value, count_from, count_of, slice,
  is_paged, paged_from, page, position,
}
use fineract_analytics_platf.Mock.Handler.{
  Mock, Incoming, Sent, sent, crashed, do_get, unauthorised, is_health, route_of, collection_of,
}

-- What the HTTP libraries make of a request, and of a reply: the path and the query that arrive, the
-- headers, the size of a body, the times, the random numbers and the answers to logins.
pub record Wire : Type 0 where
  pub url : Endpoint → Text
  pub query : Params → Query
  pub authorization : Option Text → Text
  pub tenant : Text
  pub size : Value → ℕ
  pub took : ℕ → ℕ
  pub random : ℕ → ℕ
  pub login : ℕ → Reply

abbrev pub arrives : Wire → Request → Incoming
arrives w r = record {
  path = w.url r.path;
  query = w.query r.params;
  authorization = w.authorization r.key;
  tenant = w.tenant;
  is_flaky = false;
}

abbrev pub reply_of : Wire → Sent → Reply
reply_of w (sent status body) = response status RetryAfter.absent (w.size body) (some body)
reply_of w crashed = no_connection

-- The mock behind the client: before the request `i` it has used up `i` of its failures.
abbrev pub served_by : Wire → Mock → Server
served_by w m = record {
  reply = λ i r. reply_of w (do_get (record m { fail_next_n = m.fail_next_n - i }) (arrives w r)).0;
  took = w.took;
  random = w.random;
  login = w.login;
}

-- The parameters of a page arrive as `str` writes them.
pub record IsFaithful (w : Wire) (base : Params) : Type 0 where
  pub paged :
      (offset limit : ℕ)
      → first_value (w.query (page_params base offset limit)) "paged"
        ≡ some (b't' ∷ b'r' ∷ b'u' ∷ b'e' ∷ [])
  pub offsets :
      (offset limit : ℕ)
      → first_value (w.query (page_params base offset limit)) "offset"
        ≡ some (str_of_int (pos offset))
  pub limits :
      (offset limit : ℕ)
      → first_value (w.query (page_params base offset limit)) "limit"
        ≡ some (str_of_int (pos limit))

-- The path of an endpoint leads to a collection, for a request with both headers.
pub record Leads (w : Wire) (m : Mock) (path : Endpoint) (rows : List DataRow) : Type 0 where
  pub no_health : is_health (route_of (w.url path)) ≡ false
  pub collection : collection_of m.dataset (route_of (w.url path)) ≡ some rows
  pub authorised : (r : Request) → unauthorised m.require_auth (arrives w r) ≡ none

count_from-int :
    (d n : ℕ) (t : Text) → int_of_text t ≡ some (pos n) → count_from d (some t) ≡ some (pos n)
unfolding int_of_text strip lstrip rstrip without_underscores scan_digits
count_from-int d n [] e = absurd (none-ne-some (pos n) e)
count_from-int d n (c ∷ t) e = e

count_of-str_of_int :
    (query : Query) (k : String) (d n : ℕ)
    → first_value query k ≡ some (str_of_int (pos n))
    → count_of query k d ≡ some (pos n)
unfolding count_of
count_of-str_of_int query k d n e =
    rw e (count_from-int d n (str_of_int (pos n)) (int_of_text-str_of_int (pos n)))

-- The records that rows are sent as.
abbrev pub Encodes : List DataRow → List Value → Type 0
Encodes [] [] = Unit
Encodes (row ∷ rows) (x ∷ xs) =
    ((fs : Fields) × (encode row ≡ some fs) × (x ≡ object fs)) × Encodes rows xs
Encodes _ _ = ⊥

take-Encodes :
    (n : ℕ) (rows : List DataRow) (xs : List Value)
    → Encodes rows xs
    → Encodes (take n rows) (take n xs)
take-Encodes zero rows xs h = tt
take-Encodes (suc n) [] [] h = tt
take-Encodes (suc n) [] (x ∷ xs) h = elim h [ ]
take-Encodes (suc n) (row ∷ rows) [] h = elim h [ ]
take-Encodes (suc n) (row ∷ rows) (x ∷ xs) h = (h.0, take-Encodes n rows xs h.1)

drop-Encodes :
    (n : ℕ) (rows : List DataRow) (xs : List Value)
    → Encodes rows xs
    → Encodes (drop n rows) (drop n xs)
drop-Encodes zero rows xs h = h
drop-Encodes (suc n) [] [] h = tt
drop-Encodes (suc n) [] (x ∷ xs) h = elim h [ ]
drop-Encodes (suc n) (row ∷ rows) [] h = elim h [ ]
drop-Encodes (suc n) (row ∷ rows) (x ∷ xs) h = drop-Encodes n rows xs h.1

encode_rows-Encodes :
    (rows : List DataRow) (xs : List Value)
    → Encodes rows xs
    → encode_rows rows ≡ some (to_items xs)
unfolding encode_rows
encode_rows-Encodes [] [] h = refl
encode_rows-Encodes [] (x ∷ xs) h = elim h [ ]
encode_rows-Encodes (row ∷ rows) [] h = elim h [ ]
encode_rows-Encodes (row ∷ rows) (x ∷ xs) h = rw (h.0.1, encode_rows-Encodes rows xs h.1, h.0.2)

length-Encodes : (rows : List DataRow) (xs : List Value) → Encodes rows xs → length rows ≡ length xs
length-Encodes [] [] h = refl
length-Encodes [] (x ∷ xs) h = elim h [ ]
length-Encodes (row ∷ rows) [] h = elim h [ ]
length-Encodes (row ∷ rows) (x ∷ xs) h = ap suc (length-Encodes rows xs h.1)

slice-pos :
    (rows : List DataRow) (offset limit : ℕ)
    → slice rows (pos offset) (add_ℤ (pos offset) (pos limit)) ≡ take limit (drop offset rows)
unfolding slice
slice-pos rows offset limit =
    let size : position (length rows) (add_ℤ (pos offset) (pos limit)) - offset ≡ limit =
      ground arith in
    ap (λ (n : ℕ). take n (drop offset rows)) size

is_paged-true :
    (query : Query)
    → first_value query "paged" ≡ some (b't' ∷ b'r' ∷ b'u' ∷ b'e' ∷ [])
    → is_paged query ≡ true
unfolding is_paged paged_from lower
is_paged-true query e = ap paged_from e

module _ (w : Wire) (params : Params) (f : IsFaithful w params) (rows : List DataRow)
    (xs : List Value) (sends : Encodes (strip_private rows) xs) where
  -- Where the parameters of a page arrive at the mock as `str` writes them, and the rows without their
  -- private keys can be written as JSON, which gives the records `xs`, the mock sends for any offset
  -- and limit the page of `xs` that the client expects, with the length of `xs` as its total.
  pub page-page_of :
      (offset limit : ℕ)
      → page rows (w.query (page_params params offset limit))
        ≡ some (page_of xs (int (pos (length xs))) limit offset)
  unfolding page
  page-page_of offset limit =
      let query = w.query (page_params params offset limit) in
      let some_rows = strip_private rows in
      rw (
        page,
        is_paged-true query (f.paged offset limit),
        count_of-str_of_int query "offset" 0 offset (f.offsets offset limit),
        count_of-str_of_int query "limit" 200 limit (f.limits offset limit),
        slice-pos some_rows offset limit,
        encode_rows-Encodes (take limit (drop offset some_rows)) (take limit (drop offset xs)) (
            take-Encodes limit (drop offset some_rows) (drop offset xs)
              (drop-Encodes offset some_rows xs sends)),
        length-Encodes some_rows xs sends,
      )
