-- ===== src/Mock/Crawl.antt =====
-- The client of ingestion/fineract_ingest/client.py against the mock of
-- ingestion/fineract_ingest/mock_server.py.
use fineract_analytics_platf.Prelude.{
  ℕ, ◌-◌, ◌*◌, ◌≤◌, ◌<◌, ◌≡◌, refl, ap, ◌∙◌, true, none, some, List, Option, arith, length,
  take_all, ltb,
}
use fineract_analytics_platf.Prelude.Int.{pos}
use fineract_analytics_platf.Values.{Value, Text, int}
use fineract_analytics_platf.Client.Types.{
  Config, Endpoint, Params, Request, RetryAfter, response, Client,
}
use fineract_analytics_platf.Client.Transport.{header_key}
use fineract_analytics_platf.Client.Pages.{page_params, iter_items}
use fineract_analytics_platf.Client.Retries.{transient}
use fineract_analytics_platf.Client.Walk.{
  page_of, IsCollection, NotUnder-length, iter_items_complete,
}
use fineract_analytics_platf.Mock.Page.{DataRow, strip_private}
use fineract_analytics_platf.Mock.Handler.{Mock, sent, do_get, route_of, route}
use fineract_analytics_platf.Mock.Serving.{
  Wire, arrives, reply_of, served_by, IsFaithful, Leads, Encodes, page-page_of,
}

module _ (w : Wire) (params : Params) (f : IsFaithful w params) (m : Mock) (path : Endpoint)
    (rows : List DataRow) (xs : List Value) (leads : Leads w m path rows)
    (sends : Encodes (strip_private rows) xs) (offset limit : ℕ) (key : Option Text) where
  abbrev request : Request
  request = record { path = path; params = page_params params offset limit; key = key }

  routed :
      route m.dataset (route_of (w.url path)) (arrives w request).query
      ≡ sent 200 (page_of xs (int (pos (length xs))) limit offset)
  unfolding route
  routed = rw (route, leads.collection, page-page_of w params f rows xs sends offset limit)

  -- Past its failures the mock sends the page; before, a 503.
  reply-past :
      (i : ℕ)
      → m.fail_next_n ≤ i
      → (served_by w m).reply i request
        ≡ response 200 RetryAfter.absent
            (w.size (page_of xs (int (pos (length xs))) limit offset))
            (some (page_of xs (int (pos (length xs))) limit offset))
  unfolding do_get
  reply-past i h =
      let e : m.fail_next_n - i ≡ 0 = omega arith in
      rw (leads.no_health, leads.authorised request, e) (ap (reply_of w) routed)

  reply-early : (i : ℕ) → i < m.fail_next_n → transient ((served_by w m).reply i request) ≡ true
  unfolding do_get
  reply-early i h =
      let e : ltb 0 (m.fail_next_n - i) ≡ true = ground arith in
      rw (leads.no_health, leads.authorised request, e) refl

module _ (w : Wire) (params : Params) (f : IsFaithful w params) (m : Mock) (path : Endpoint)
    (rows : List DataRow) (xs : List Value) (leads : Leads w m path rows)
    (sends : Encodes (strip_private rows) xs) (cfg : Config)
    (few : m.fail_next_n ≤ cfg.max_retries) where
  pub served_by-IsCollection :
      IsCollection (served_by w m) cfg path params xs (int (pos (length xs)))
  served_by-IsCollection = record {
    size = λ offset. w.size (page_of xs (int (pos (length xs))) cfg.page_size offset);
    faults = m.fail_next_n;
    few = few;
    fails = λ i offset c.
        reply-early w params f m path rows xs leads sends offset cfg.page_size (header_key cfg c) i;
    replies = λ i offset c.
        reply-past w params f m path rows xs leads sends offset cfg.page_size (header_key cfg c) i;
  }

-- The client against the mock, with as many injected failures as it may retry at most: from any state
-- of the client, the walk of a collection's endpoint ends without an error and yields the rows of
-- that collection, each without its private keys, in order. The URL's parameters arrive as `str`
-- writes them, the requests carry both headers, the public values of the rows are JSON, and the
-- collection is no longer than `max_pages` pages of a positive size.
pub iter_items-mock :
    (w : Wire) (m : Mock) (cfg : Config) (path : Endpoint) (params : Params) (rows : List DataRow)
    (xs : List Value) (c : Client)
    → IsFaithful w params
    → Leads w m path rows
    → Encodes (strip_private rows) xs
    → m.fail_next_n ≤ cfg.max_retries
    → 0 < cfg.page_size
    → length xs ≤ cfg.max_pages * cfg.page_size
    → let (s, _) = iter_items (served_by w m) cfg path params true c in
      (s.yielded ≡ xs) × (s.failure ≡ none)
iter_items-mock w m cfg path params rows xs c f leads sends few positive fits =
    let h =
      iter_items_complete (served_by w m) cfg path params xs (int (pos (length xs))) c
        (served_by-IsCollection w params f m path rows xs leads sends cfg few) positive
        (NotUnder-length xs) in
    (h.0 ∙ take_all (cfg.max_pages * cfg.page_size) xs fits, h.1)
