-- ===== src/Client/Pages.antt =====
-- `_items_of`, `iter_pages`, `iter_items` and `health_check` of ingestion/fineract_ingest/client.py.
-- A generator is the list of what it yields and the error that ends it, if one does.
use fineract_analytics_platf.Prelude.{
  ℕ, zero, suc, ◌+◌, String, Bool, true, false, not, Option, none, some, List, [], ◌∷◌, ◌++◌,
  str_eq, ltb, leb, if◌then◌else◌, length,
}
use fineract_analytics_platf.Prelude.Int.{pos, leb_ℤ}
use fineract_analytics_platf.Values.{
  Value, Number, number_lt, null, bool, int, float, array, object, fin, Fields, get_field?,
  get_field, items,
}
use fineract_analytics_platf.Client.Types.{
  Endpoint, Config, Params, Server, FineractError, malformed_page, uncaught, Result, ok, err,
  Client,
}
use fineract_analytics_platf.Client.Transport.{get}

-- `payload.get("pageItems") or []`: a falsy value is no items. Any other value that is no list is
-- an error here.
unfoldable pub page_items : Value → Option (List Value)
page_items (array vs) = some (items vs)
page_items null = some []
page_items (bool false) = some []
page_items (int (pos zero)) = some []
page_items (Value.text []) = some []
page_items (object Fields.end) = some []
page_items _ = none

-- FineractClient._items_of: the items and the total of a payload, of any of its three shapes.
unfoldable pub items_of : Value → Option (List Value × Value)
items_of (array vs) = some (items vs, int (pos (length (items vs))))
items_of (object fs) = elim (get_field? fs "pageItems") [
  | none ↦ some (object fs ∷ [], int (pos 1))
  | some v ↦ elim (page_items v) [
    | none ↦ none
    | some xs ↦ some (xs, get_field fs "totalFilteredRecords")
  ]
]
items_of _ = some ([], int (pos 0))

-- `offset >= total` for a float, which no comparison with a NaN is.
abbrev at_least : ℕ → Number → Bool
at_least offset Number.nan = false
at_least offset total = not (number_lt (fin (pos offset) 0) total)

-- `total is not None and offset >= total`; `none` is the `TypeError` of a total that is no number.
unfoldable pub is_complete : ℕ → Value → Option Bool
is_complete offset null = some false
is_complete offset (int total) = some (leb_ℤ total (pos offset))
is_complete offset (bool true) = some (leb 1 offset)
is_complete offset (bool false) = some true
is_complete offset (float total) = some (at_least offset total)
is_complete offset _ = none

-- params[key] = value
unfoldable pub set_param : String → Value → Params → Params
set_param k v [] = (k, v) ∷ []
set_param k v ((j, w) ∷ ps) = if str_eq j k then (j, v) ∷ ps else (j, w) ∷ set_param k v ps

unfoldable pub page_params : Params → ℕ → ℕ → Params
page_params base offset limit = set_param "limit" (int (pos limit)) (
    set_param "offset" (int (pos offset))
      (set_param "paged" (Value.text (b't' ∷ b'r' ∷ b'u' ∷ b'e' ∷ [])) base))

-- What a generator has yielded, and how it ended.
pub record Stream {ℓ} (A : Type ℓ) : Type ℓ where
  pub yielded : List A
  pub failure : Option FineractError

abbrev pub finished {ℓ} : {A : Type ℓ} → Stream A
finished = record { yielded = []; failure = none }

abbrev pub failed {ℓ} : {A : Type ℓ} → FineractError → Stream A
failed e = record { yielded = []; failure = some e }

abbrev pub yield_then {ℓ} : {A : Type ℓ} → A → Stream A × Client → Stream A × Client
yield_then x (s, c) = (record s { yielded = x ∷ s.yielded }, c)

-- After the test of the total: the walk stops, goes on or raises.
abbrev pub resume :
    Option Bool → (Client → Stream (List Value) × Client) → Client → Stream (List Value) × Client
resume none next c = (failed malformed_page, c)
resume (some true) next c = (finished, c)
resume (some false) next c = next c

-- What the loop does after a page that it has yielded.
unfoldable pub after_page :
    ℕ
    → ℕ
    → ℕ
    → Value
    → (ℕ → Client → Stream (List Value) × Client)
    → Client
    → Stream (List Value) × Client
after_page limit offset size total next c =
    if ltb size limit
    then (finished, c)
    else resume (is_complete (offset + size) total) (next (offset + size)) c

-- The items of a page: none at all end the walk.
abbrev pub on_items :
    ℕ
    → ℕ
    → (ℕ → Client → Stream (List Value) × Client)
    → Option (List Value × Value)
    → Client
    → Stream (List Value) × Client
on_items limit offset next none c = (failed malformed_page, c)
on_items limit offset next (some ([], total)) c = (finished, c)
on_items limit offset next (some (x ∷ xs, total)) c =
    yield_then (x ∷ xs) (after_page limit offset (length (x ∷ xs)) total next c)

unfoldable pub on_page :
    ℕ
    → ℕ
    → (ℕ → Client → Stream (List Value) × Client)
    → Result Value × Client
    → Stream (List Value) × Client
on_page limit offset next (err e, c) = (failed e, c)
on_page limit offset next (ok payload, c) = on_items limit offset next (items_of payload) c

-- The loop over `range(self.config.max_pages)`: the pages left, and the offset.
unfoldable pub pages :
    Server → Config → Endpoint → Params → ℕ → ℕ → Client → Stream (List Value) × Client
pages server cfg path params zero offset c = (finished, c)
pages server cfg path params (suc left) offset c =
    on_page cfg.page_size offset (pages server cfg path params left) (
      get server cfg
        (record { path = path; params = page_params params offset cfg.page_size; key = none }) c)

-- The one page of an endpoint that is not paged.
abbrev pub only_items : Option (List Value × Value) → Stream (List Value)
only_items none = failed malformed_page
only_items (some ([], total)) = finished
only_items (some (x ∷ xs, total)) = record { yielded = (x ∷ xs) ∷ []; failure = none }

unfoldable pub only_page : Result Value × Client → Stream (List Value) × Client
only_page (err e, c) = (failed e, c)
only_page (ok payload, c) = (only_items (items_of payload), c)

-- FineractClient.iter_pages
unfoldable pub iter_pages :
    Server → Config → Endpoint → Params → Bool → Client → Stream (List Value) × Client
iter_pages server cfg path params true c = pages server cfg path params cfg.max_pages 0 c
iter_pages server cfg path params false c =
    only_page (get server cfg (record { path = path; params = params; key = none }) c)

-- `yield from page`, for each page
abbrev pub concat {ℓ} : {A : Type ℓ} → List (List A) → List A
concat [] = []
concat (x ∷ xs) = x ++ concat xs

-- FineractClient.iter_items
unfoldable pub iter_items :
    Server → Config → Endpoint → Params → Bool → Client → Stream Value × Client
iter_items server cfg path params paged c =
    let (s, c') = iter_pages server cfg path params paged c in
    (record { yielded = concat s.yielded; failure = s.failure }, c')

-- `except FineractError`: `none` is an exception that it does not catch.
abbrev pub succeeded : Result Value → Option Bool
succeeded (ok v) = some true
succeeded (err uncaught) = none
succeeded (err e) = some false

-- FineractClient.health_check
unfoldable pub health_check : Server → Config → Client → Option Bool × Client
health_check server cfg c =
    let (r, c') =
      get server cfg
        (record {
          path = record { template = "offices"; parent_id = none };
          params = ("limit", int (pos 1)) ∷ [];
          key = none;
        })
        c in
    (succeeded r, c')
