-- ===== src/Tests/Parsing.antt =====
-- Tests of the parse functions.
use fineract_analytics_platf.Prelude.{◌≡◌, refl, some}
use fineract_analytics_platf.Prelude.Int.{pos}
use fineract_analytics_platf.Values.{int}
use fineract_analytics_platf.Outcome.{ok}
use fineract_analytics_platf.Parsers.Dates.{parse_date, epoch_date, civil}
use fineract_analytics_platf.Tests.Samples.{library}

epoch_milliseconds :
    parse_date library (int (pos 1754870400000))
    ≡ ok (some (record { year = 2025; month = 8; day = 11 }))
unfolding parse_date epoch_date civil
epoch_milliseconds = refl
