-- ===== src/Tests/Crawl.antt =====
-- Tests of the client.
use fineract_analytics_platf.Prelude.{◌+◌, ◌≤◌, ◌≡◌, refl, true, none, [], ◌∷◌, arith}
use fineract_analytics_platf.Prelude.Int.{pos}
use fineract_analytics_platf.Values.{Value, int, array, nil}
use fineract_analytics_platf.Client.Types.{ok, err, attempts_failed}
use fineract_analytics_platf.Client.Transport.{get, jittered, header_key}
use fineract_analytics_platf.Client.Pages.{iter_items, page_params, set_param}
use fineract_analytics_platf.Client.Retries.{get-settled, get-exhausted}
use fineract_analytics_platf.Client.Pacing.{IsPaced, jittered_bounds}
use fineract_analytics_platf.Client.Walk.{
  IsCollection, NotUnder-length, iter_items_complete, iter_items-under_reported,
}
use fineract_analytics_platf.Client.Keeps.{iter_items-IsPaced}
use fineract_analytics_platf.Tests.Samples.{
  config, client, endpoint, request, five, paging, busy, record_of,
}

paging-IsCollection : (total : Value) → IsCollection (paging total) config endpoint [] five total
unfolding page_params set_param
paging-IsCollection total = record {
  size = λ offset. 64;
  faults = 0;
  few = omega arith;
  fails = λ i offset c h. absurd (omega arith);
  replies = λ i offset c h. refl;
}

-- Three pages hold the whole collection.
iter_items_complete_example :
    let (s, _) = iter_items (paging (int (pos 5))) config endpoint [] true client in
    (s.yielded ≡ five) × (s.failure ≡ none)
iter_items_complete_example =
    iter_items_complete (paging (int (pos 5))) config endpoint [] five (int (pos 5)) client
      (paging-IsCollection (int (pos 5))) (omega arith) (NotUnder-length five)

-- A total of two, where there are five records.
iter_items-under_reported_example :
    let (s, _) = iter_items (paging (int (pos 2))) config endpoint [] true client in
    (s.yielded ≡ record_of 1 ∷ record_of 2 ∷ []) × (s.failure ≡ none)
iter_items-under_reported_example =
    iter_items-under_reported (paging (int (pos 2))) config endpoint [] five 2 client
      (paging-IsCollection (int (pos 2))) (omega arith) (omega arith)

get-settled_example :
    let (r, d) = get (busy 2) config request client in
    (r ≡ ok (array nil)) × (d.sent ≡ 3) × (d.retry_count + 0 ≡ 2) × (d.error_count ≡ 0)
unfolding header_key
get-settled_example =
    get-settled (busy 2) config request 2 client (omega arith) (omega arith) (λ i l h. ground arith)
      refl

get-exhausted_example :
    let (r, d) = get (busy 9) config request client in
    (r ≡ err (attempts_failed 503)) × (d.sent ≡ 3) × (d.retry_count ≡ 3) × (d.error_count ≡ 1)
unfolding header_key
get-exhausted_example = get-exhausted (busy 9) config request client (λ i l h. ground arith)

client-IsPaced : IsPaced config client
client-IsPaced = record { spaced = tt; noted = tt; bounded = tt }

iter_items-IsPaced_example : IsPaced config (iter_items (busy 9) config endpoint [] true client).1
iter_items-IsPaced_example =
    iter_items-IsPaced (busy 9) config endpoint [] true client (λ i. omega arith) client-IsPaced

jittered_bounds_example : (20 ≤ jittered config 2 500) × (jittered config 2 500 ≤ 40)
jittered_bounds_example = jittered_bounds config 2 500 (omega arith)
