-- ===== src/Client/Walk.antt =====
-- What the page walk of ingestion/fineract_ingest/client.py yields, against a collection that stands
-- still.
use mathlib.Core.List.{append-nil}
use fineract_analytics_platf.Prelude.{
  ℕ, zero, suc, ◌+◌, ◌*◌, ◌-◌, ◌≤◌, ◌<◌, ◌≡◌, refl, sym, ap, ◌∙◌, ◌⊎◌, inl, inr, true, false, none,
  some, List, [], ◌∷◌, ◌++◌, arith, length, min, take, drop, length-take, length-drop, take-add,
  drop-add, take-nil, drop_all, ltb, Bool-cases,
}
use fineract_analytics_platf.Prelude.Int.{pos, leb_ℤ}
use fineract_analytics_platf.Values.{Value, int, array, object, Items, nil, cons, field, end, items}
use fineract_analytics_platf.Client.Types.{
  Endpoint, Config, RetryAfter, response, Request, Server, Params, Result, ok, Client,
}
use fineract_analytics_platf.Client.Transport.{get, header_key}
use fineract_analytics_platf.Client.Retries.{transient, get-settled}
use fineract_analytics_platf.Client.Pages.{
  page_items, items_of, is_complete, page_params, Stream, after_page, on_items, on_page, pages,
  iter_pages, concat, iter_items, finished,
}

abbrev pub to_items : List Value → Items
to_items [] = nil
to_items (v ∷ vs) = cons v (to_items vs)

pub items-to_items : (vs : List Value) → items (to_items vs) ≡ vs
items-to_items [] = refl
items-to_items (v ∷ vs) = ap (λ (l : List Value). v ∷ l) (items-to_items vs)

-- The page of a collection that an endpoint answers.
abbrev pub page_of : List Value → Value → ℕ → ℕ → Value
page_of xs total limit offset = object (
    field "totalFilteredRecords" total
      (field "pageItems" (array (to_items (take limit (drop offset xs)))) end))

-- The request for a page of the endpoint.
abbrev pub page_request : Config → Endpoint → Params → ℕ → Client → Request
page_request cfg path params offset c = record {
  path = path;
  params = page_params params offset cfg.page_size;
  key = header_key cfg c;
}

-- Every request for a page of the endpoint is answered by that page of `xs`, with the total `total`,
-- but for the first `faults` requests of the process, which may be answered by a transient failure.
pub record IsCollection (server : Server) (cfg : Config) (path : Endpoint) (params : Params)
    (xs : List Value) (total : Value) : Type 0 where
  pub size : ℕ → ℕ
  pub faults : ℕ
  pub few : faults ≤ cfg.max_retries
  pub fails :
      (i offset : ℕ) (c : Client)
      → i < faults
      → transient (server.reply i (page_request cfg path params offset c)) ≡ true
  pub replies :
      (i offset : ℕ) (c : Client)
      → faults ≤ i
      → server.reply i (page_request cfg path params offset c)
        ≡ response 200 RetryAfter.absent
            (size offset)
            (some (page_of xs total cfg.page_size offset))

-- A total that never lets the walk stop before the last record.
abbrev pub NotUnder : Value → List Value → Type 0
NotUnder total xs =
    (offset : ℕ)
    → (is_complete offset total ≡ some false)
      ⊎ ((is_complete offset total ≡ some true) × (length xs ≤ offset))

module _ (server : Server) (cfg : Config) (path : Endpoint) (params : Params) (xs : List Value)
    (total : Value) (served : IsCollection server cfg path params xs total) where
  -- The request of `get-settled` that is answered: the first that is past the failures.
  get-page :
      (offset : ℕ) (c : Client)
      → (get server cfg
          (record { path = path; params = page_params params offset cfg.page_size; key = none })
          c).0
        ≡ ok (page_of xs total cfg.page_size offset)
  get-page offset c =
      let few = served.few in
      let n = c.sent + (served.faults - c.sent) in
      let e = served.replies n offset c (omega arith) in
      let g =
        get-settled server cfg
          (record { path = path; params = page_params params offset cfg.page_size; key = none }) n c
          (omega arith) (omega arith) (λ i a b. served.fails i offset c (omega arith)) (rw e) in
      rw e at g.0

items_of-page :
    (xs : List Value) (total : Value) (limit offset : ℕ)
    → items_of (page_of xs total limit offset) ≡ some (take limit (drop offset xs), total)
unfolding items_of page_items
items_of-page xs total limit offset = rw (items-to_items (take limit (drop offset xs)))

abbrev turn :
    ℕ
    → ℕ
    → (ℕ → Client → Stream (List Value) × Client)
    → List Value
    → Value
    → Client
    → Stream (List Value) × Client
turn limit offset next page total = on_items limit offset next (some (page, total))

on_page-turn :
    (limit offset : ℕ) (next : ℕ → Client → Stream (List Value) × Client)
    (r : Result Value × Client) (payload : Value) (page : List Value) (total : Value)
    → r.0 ≡ ok payload
    → items_of payload ≡ some (page, total)
    → on_page limit offset next r ≡ turn limit offset next page total r.1
unfolding on_page
on_page-turn limit offset next (r, c) payload [] total e f = rw (e, f)
on_page-turn limit offset next (r, c) payload (x ∷ page) total e f = rw (e, f)

-- What is yielded, flattened, with no failure.
record Yields (vs : List Value) (s : Stream (List Value)) : Type 0 where
  values : concat s.yielded ≡ vs
  unfailed : s.failure ≡ none

rounds :
    {A : Type 0} (limit left : ℕ) (d : List A)
    → take (suc left * limit) d ≡ take limit d ++ take (left * limit) (drop limit d)
rounds limit left d =
    let e : suc left * limit ≡ limit + left * limit = omega arith in
    rw e (take-add limit (left * limit) d)

module _ (limit left : ℕ) (xs : List Value) (total : Value) (positive : 0 < limit)
    (honest : NotUnder total xs) (next : ℕ → Client → Stream (List Value) × Client)
    (walked : (offset : ℕ) (c : Client)
      → Yields (take (left * limit) (drop offset xs)) (next offset c).0) where
  finished-Yields :
      (offset : ℕ) → length xs ≤ offset → Yields (take (left * limit) (drop offset xs)) finished
  finished-Yields offset h = record {
    values = sym (rw (drop_all offset xs h) (take-nil (left * limit)));
    unfailed = refl;
  }

  -- The rest of the walk, after a page that was not empty.
  after_page-Yields :
      (offset size : ℕ) (c : Client)
      → size ≡ min limit (length xs - offset)
      → Yields
          (take (left * limit) (drop (offset + limit) xs))
          (after_page limit offset size total next c).0
  unfolding after_page
  after_page-Yields offset size c e = elim (Bool-cases (ltb size limit)) [
    | inl short ↦ rw short (finished-Yields (offset + limit) (ground arith))
    | inr full ↦
        let same : size ≡ limit = ground arith in
        rw full (elim (honest (offset + size)) [
          | inl more ↦
              let w = walked (offset + size) c in
              rw more (record {
                values = w.values ∙ ap (λ (k : ℕ). take (left * limit) (drop (offset + k) xs)) same;
                unfailed = w.unfailed;
              })
          | inr stop ↦ rw stop.0 (finished-Yields (offset + limit) (omega arith))
        ])
  ]

  turn-Yields :
      (offset : ℕ) (page : List Value) (c : Client)
      → page ≡ take limit (drop offset xs)
      → Yields (take (suc left * limit) (drop offset xs)) (turn limit offset next page total c).0
  turn-Yields offset [] c e =
      let short : length xs ≤ offset =
        omega (arith, ap length e, length-take limit (drop offset xs), length-drop offset xs) in
      record {
        values = sym (rw (drop_all offset xs short) (take-nil (suc left * limit)));
        unfailed = refl;
      }
  turn-Yields offset (x ∷ page) c e =
      let size : length (x ∷ page) ≡ min limit (length xs - offset) =
        omega (arith, ap length e, length-take limit (drop offset xs), length-drop offset xs) in
      let a = after_page-Yields offset (length (x ∷ page)) c size in
      record {
        values =
            ap (λ (l : List Value). x ∷ page ++ l) a.values
            ∙ ap (λ (l : List Value). l ++ take (left * limit) (drop (offset + limit) xs)) e
            ∙ ap (λ (l : List Value). take limit (drop offset xs) ++ take (left * limit) l)
                (drop-add offset limit xs)
            ∙ sym (rounds limit left (drop offset xs));
        unfailed = a.unfailed;
      }

module _ (server : Server) (cfg : Config) (path : Endpoint) (params : Params) (xs : List Value)
    (total : Value) (served : IsCollection server cfg path params xs total)
    (positive : 0 < cfg.page_size) (honest : NotUnder total xs) where
  pages-Yields :
      (left offset : ℕ) (c : Client)
      → Yields
          (take (left * cfg.page_size) (drop offset xs))
          (pages server cfg path params left offset c).0
  unfolding pages
  pages-Yields zero offset c = record {
    values =
        ap (λ (k : ℕ). take k (drop offset xs)) (let e : 0 ≡ 0 * cfg.page_size = omega arith in e);
    unfailed = refl;
  }
  pages-Yields (suc left) offset c =
      rw
        (on_page-turn cfg.page_size offset (pages server cfg path params left)
          (get server cfg
            (record { path = path; params = page_params params offset cfg.page_size; key = none })
            c)
          (page_of xs total cfg.page_size offset) (take cfg.page_size (drop offset xs)) total
          (get-page server cfg path params xs total served offset c)
          (items_of-page xs total cfg.page_size offset))
        (turn-Yields cfg.page_size left xs total positive honest (pages server cfg path params left)
          (pages-Yields left) offset (take cfg.page_size (drop offset xs))
          (get server cfg
            (record { path = path; params = page_params params offset cfg.page_size; key = none })
            c).1
          refl)

-- From a collection that stands still, whose total is not reported below its length, the walk yields
-- the first `max_pages` * `page_size` records in order, which is the whole collection if it is no
-- longer than that, and does not fail. The page size is positive, and of the process's requests at
-- most the first `max_retries` get a transient failure.
pub iter_items_complete :
    (server : Server) (cfg : Config) (path : Endpoint) (params : Params) (xs : List Value)
    (total : Value) (c : Client)
    → IsCollection server cfg path params xs total
    → 0 < cfg.page_size
    → NotUnder total xs
    → let (s, _) = iter_items server cfg path params true c in
      (s.yielded ≡ take (cfg.max_pages * cfg.page_size) xs) × (s.failure ≡ none)
unfolding iter_items iter_pages
iter_items_complete server cfg path params xs total c served positive honest =
    let y = pages-Yields server cfg path params xs total served positive honest cfg.max_pages 0 c in
    (y.values, y.unfailed)

-- A missing total, and the exact one, are such totals.
pub NotUnder-null : (xs : List Value) → NotUnder Value.null xs
unfolding is_complete
NotUnder-null xs offset = inl refl

pub NotUnder-length : (xs : List Value) → NotUnder (int (pos (length xs))) xs
unfolding is_complete
NotUnder-length xs offset = elim (Bool-cases (leb_ℤ (pos (length xs)) (pos offset))) [
  | inl y ↦ inr (rw y, ground arith)
  | inr n ↦ inl (rw n)
]

module _ (limit n : ℕ) (next : ℕ → Client → Stream (List Value) × Client) (under : n ≤ limit) where
  after_page_stops :
      (size : ℕ) (c : Client)
      → size ≤ limit
      → after_page limit 0 size (int (pos n)) next c ≡ (finished, c)
  unfolding after_page is_complete
  after_page_stops size c h = ground arith

  turn_stops :
      (page : List Value) (c : Client)
      → length page ≤ limit
      → Yields page (turn limit 0 next page (int (pos n)) c).0
  turn_stops [] c h = record { values = refl; unfailed = refl }
  turn_stops (x ∷ page) c h =
      rw (after_page_stops (length (x ∷ page)) c h)
        (record { values = append-nil (x ∷ page); unfailed = refl })

pages_stop :
    (server : Server) (cfg : Config) (path : Endpoint) (params : Params) (xs : List Value) (n : ℕ)
    → IsCollection server cfg path params xs (int (pos n))
    → n ≤ cfg.page_size
    → (left : ℕ) (c : Client) → 0 < left
    → Yields (take cfg.page_size xs) (pages server cfg path params left 0 c).0
unfolding pages
pages_stop server cfg path params xs n served under zero c h = elim h [ ]
pages_stop server cfg path params xs n served under (suc left) c h =
    rw
      (on_page-turn cfg.page_size 0 (pages server cfg path params left)
        (get server cfg
          (record { path = path; params = page_params params 0 cfg.page_size; key = none }) c)
        (page_of xs (int (pos n)) cfg.page_size 0) (take cfg.page_size xs) (int (pos n))
        (get-page server cfg path params xs (int (pos n)) served 0 c)
        (items_of-page xs (int (pos n)) cfg.page_size 0))
      (turn_stops cfg.page_size n (pages server cfg path params left) under (take cfg.page_size xs)
        (get server cfg
          (record { path = path; params = page_params params 0 cfg.page_size; key = none }) c).1
        (omega (arith, length-take cfg.page_size xs)))

-- An endpoint that reports a total no greater than the page size loses every record after its first
-- page: the walk yields the first page and ends without an error. At least one page is allowed, and of
-- the process's requests at most the first `max_retries` get a transient failure.
pub iter_items-under_reported :
    (server : Server) (cfg : Config) (path : Endpoint) (params : Params) (xs : List Value) (n : ℕ)
    (c : Client)
    → IsCollection server cfg path params xs (int (pos n))
    → 0 < cfg.max_pages
    → n ≤ cfg.page_size
    → let (s, _) = iter_items server cfg path params true c in
      (s.yielded ≡ take cfg.page_size xs) × (s.failure ≡ none)
unfolding iter_items iter_pages
iter_items-under_reported server cfg path params xs n c served some_page under =
    let y = pages_stop server cfg path params xs n served under cfg.max_pages c some_page in
    (y.values, y.unfailed)
