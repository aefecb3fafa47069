-- ===== src/Client/Keeps.antt =====
-- What a walk of ingestion/fineract_ingest/client.py keeps of the client's state, from what `get`
-- keeps.
use fineract_analytics_platf.Prelude.{
  ℕ, zero, suc, ◌+◌, ◌<◌, Bool, true, false, Option, none, some, List, [], ◌∷◌, ltb, length,
  if◌then◌else◌,
}
use fineract_analytics_platf.Values.{Value}
use fineract_analytics_platf.Client.Types.{
  Endpoint, Config, Request, Server, Params, Result, ok, err, Client,
}
use fineract_analytics_platf.Client.Transport.{get}
use fineract_analytics_platf.Client.Pages.{
  Stream, finished, resume, after_page, items_of, on_items, on_page, pages, only_page, iter_pages,
  iter_items, is_complete, page_params,
}
use fineract_analytics_platf.Client.Pacing.{IsPaced, get-IsPaced}

module _ (P : Client → Type 0) where
  resume-keeps :
      (o : Option Bool) (next : Client → Stream (List Value) × Client) (c : Client)
      → ((c : Client) → P c → P (next c).1)
      → P c
      → P (resume o next c).1
  resume-keeps none next c k h = h
  resume-keeps (some true) next c k h = h
  resume-keeps (some false) next c k h = k c h

  if-keeps :
      (b : Bool) (x y : Stream (List Value) × Client) → P x.1 → P y.1 → P (if b then x else y).1
  if-keeps true x y hx hy = hx
  if-keeps false x y hx hy = hy

  module _ (limit offset : ℕ) (next : ℕ → Client → Stream (List Value) × Client)
      (step : (o : ℕ) (c : Client) → P c → P (next o c).1) where
    on_items-keeps :
        (o : Option (List Value × Value)) (c : Client) → P c → P (on_items limit offset next o c).1
    unfolding after_page
    on_items-keeps none c h = h
    on_items-keeps (some ([], total)) c h = h
    on_items-keeps (some (x ∷ xs, total)) c h =
        let size = length (x ∷ xs) in
        let o = offset + size in
        if-keeps (ltb size limit) (finished, c) (resume (is_complete o total) (next o) c) h
          (resume-keeps (is_complete o total) (next o) c (step o) h)

    on_page-keeps : (r : Result Value × Client) → P r.1 → P (on_page limit offset next r).1
    unfolding on_page
    on_page-keeps (err e, c) h = h
    on_page-keeps (ok payload, c) h = on_items-keeps (items_of payload) c h

  only_page-keeps : (r : Result Value × Client) → P r.1 → P (only_page r).1
  unfolding only_page
  only_page-keeps (err e, c) h = h
  only_page-keeps (ok payload, c) h = h

module _ (server : Server) (cfg : Config) (P : Client → Type 0)
    (kept : (request : Request) (c : Client) → P c → P (get server cfg request c).1) where
  pages-keeps :
      (path : Endpoint) (params : Params) (left offset : ℕ) (c : Client)
      → P c
      → P (pages server cfg path params left offset c).1
  unfolding pages
  pages-keeps path params zero offset c h = h
  pages-keeps path params (suc left) offset c h =
      let request : Request = record {
        path = path;
        params = page_params params offset cfg.page_size;
        key = none;
      } in
      on_page-keeps P cfg.page_size offset (pages server cfg path params left)
        (pages-keeps path params left) (get server cfg request c) (kept request c h)

  pub iter_items-keeps :
      (path : Endpoint) (params : Params) (paged : Bool) (c : Client)
      → P c
      → P (iter_items server cfg path params paged c).1
  unfolding iter_items iter_pages
  iter_items-keeps path params true c h = pages-keeps path params cfg.max_pages 0 c h
  iter_items-keeps path params false c h =
      let request : Request = record { path = path; params = params; key = none } in
      only_page-keeps P (get server cfg request c) (kept request c h)

-- A walk, paged or not, and whether it fails or not, keeps the requests of the process apart by the
-- limiter's interval, and every wait of the back-off within its maximum. The random numbers are
-- below one.
pub iter_items-IsPaced :
    (server : Server) (cfg : Config) (path : Endpoint) (params : Params) (paged : Bool) (c : Client)
    → ((i : ℕ) → server.random i < 1000)
    → IsPaced cfg c
    → IsPaced cfg (iter_items server cfg path params paged c).1
iter_items-IsPaced server cfg path params paged c below_one h =
    iter_items-keeps server cfg (IsPaced cfg) (get-IsPaced server cfg below_one) path params paged c
      h
