-- ===== src/Loader/Status.antt =====
-- `read_watermark`, `replication_slot_status` and `touch_heartbeat` of
-- ingestion/fineract_ingest/loader.py. The catalog of the replication slots and the row of the
-- heartbeat are no part of the database of `Store`: the first is an argument, the second not kept.
use fineract_analytics_platf.Prelude.{
  String, Bool, Option, none, some, List, [], ◌∷◌, map, str_eq, if◌then◌else◌,
}
use fineract_analytics_platf.Prelude.Int.{ℤ, pos}
use fineract_analytics_platf.Outcome.{ok}
use fineract_analytics_platf.Loader.Store.{
  Watermark, Faults, Tx, ◌>>=◌, ◌>>◌, pure, execute, commit,
}

-- WHERE entity = ...
abbrev pub find_watermark : String → List Watermark → Option Watermark
find_watermark entity [] = none
find_watermark entity (w ∷ ws) =
    let rest = find_watermark entity ws in if str_eq w.entity entity then some w else rest

unfoldable pub read_watermark : Faults → String → Tx (Option Watermark)
read_watermark faults entity =
    execute faults (λ db. (ok (find_watermark entity db.watermarks), db)) >>= λ row.
    commit faults >> pure row

-- A row of pg_replication_slots; the lag is null where there is no restart position.
pub record Slot : Type 0 where
  pub slot_name : String
  pub active : Bool
  pub lag_bytes : Option ℤ

pub record SlotStatus : Type 0 where
  pub slot_name : String
  pub active : Bool
  pub lag_bytes : ℤ

-- int(lag or 0)
abbrev pub lag_or_zero : Option ℤ → ℤ
lag_or_zero none = pos 0
lag_or_zero (some z) = z

abbrev pub slot_status : Slot → SlotStatus
slot_status s = record {
  slot_name = s.slot_name;
  active = s.active;
  lag_bytes = lag_or_zero s.lag_bytes;
}

unfoldable pub replication_slot_status : Faults → List Slot → Tx (List SlotStatus)
replication_slot_status faults slots =
    execute faults (λ db. (ok (map slot_status slots), db)) >>= λ rows. commit faults >> pure rows

unfoldable pub touch_heartbeat : Faults → Tx (Unit {0})
touch_heartbeat faults = execute faults (λ db. (ok tt, db)) >> commit faults
