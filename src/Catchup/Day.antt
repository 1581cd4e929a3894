-- ===== src/Catchup/Day.antt =====
-- `compute_day` and `select_failed_days` of safe_transaction_service/analytics/catchup/day.py.
use safe_transaction_service.Common.{
  ℕ, Bool, true, false, not, ◌&&◌, Option, none, some, List, [], ◌∷◌, leb, contains, select,
}
use safe_transaction_service.Catchup.States.{
  Code, indexer_status_unavailable, deferred, DayState, DayResult, record_day_result, reset_core_ok,
  get_day_state,
}
use safe_transaction_service.Catchup.Gate.{IndexerStatus, ensure_day_settled}

-- The first date of `DailyMetric`, and its dates with `completed_at`.
pub record Metrics : Type 0 where
  pub first_day : Option ℕ
  pub completed : List ℕ

pub record World : Type 0 where
  pub states : List DayState
  pub metrics : Metrics

pub data Outcome : Type 0 where
  upserted : DayResult → Outcome
  escaped : Outcome

-- `_upsert_daily_metric`: of a day, all of it or some of its populators, with the day's row as it reads it; an
-- exception escapes, and the Boolean tells that it has reset `core_ok` of the row.
abbrev pub Upsert : Type 0
Upsert = ℕ → Option (List ℕ) → Option DayState → Metrics → Outcome × Bool × Metrics

abbrev pub gate_code : ℕ → ℕ → Option IndexerStatus → Option Code
gate_code settle_minutes day none = some indexer_status_unavailable
gate_code settle_minutes day (some s) = ensure_day_settled settle_minutes day s

abbrev pub store_outcome : ℕ → Outcome → World → Option DayResult × World
store_outcome day (upserted r) w = (some r, record w { states = record_day_result day r w.states })
store_outcome day escaped w = (none, w)

abbrev pub reset_by : Bool → ℕ → List DayState → List DayState
reset_by true day rows = reset_core_ok day rows
reset_by false day rows = rows

abbrev pub upsert_day : Upsert → ℕ → Option (List ℕ) → World → Option DayResult × World
upsert_day upsert day only w =
    let (out, was_reset, m) = upsert day only (get_day_state day w.states) w.metrics in
    store_outcome day out (record w { states = reset_by was_reset day w.states; metrics = m })

abbrev pub after_gate :
    Upsert → ℕ → Option (List ℕ) → Option Code → World → Option DayResult × World
after_gate upsert day only none w = upsert_day upsert day only w
after_gate upsert day only (some code) w =
    (some (record { status = deferred; core_ok = false; failed = []; code = some code }), w)

-- `skip_settle_check` is the Boolean; no result means that an exception escaped.
unfoldable pub compute_day :
    Upsert
    → ℕ
    → Bool
    → ℕ
    → Option IndexerStatus
    → Option (List ℕ)
    → World
    → Option DayResult × World
unfolding ensure_day_settled record_day_result reset_core_ok get_day_state
compute_day upsert settle_minutes true day status only w = upsert_day upsert day only w
compute_day upsert settle_minutes false day status only w =
    after_gate upsert day only (gate_code settle_minutes day status) w

abbrev pub last_day : ℕ → List ℕ → ℕ
last_day d [] = d
last_day d (e ∷ es) = last_day e es

unfoldable pub select_failed_days : List ℕ → List ℕ → List ℕ
select_failed_days completed [] = []
select_failed_days completed (d ∷ ds) =
    let done = select (λ c. leb d c && leb c (last_day d ds)) completed in
    select (λ x. not (contains x done)) (d ∷ ds)
