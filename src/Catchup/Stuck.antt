-- ===== src/Catchup/Stuck.antt =====
-- The watchdog of the unprocessed calls: `record_processing_observation` and
-- `mark_processing_stuck_once` of safe_transaction_service/analytics/catchup/state.py, and
-- `_check_processing_stuck` of sweeper.py.
use safe_transaction_service.Common.{
  ℕ, ◌+◌, ◌*◌, Bool, true, false, not, ◌||◌, Option, none, some, ltb, ◌==◌, if◌then◌else◌,
}
use safe_transaction_service.Catchup.States.{is_unset}

-- The row with the kind "processing".
pub record Processing : Type 0 where
  pub observed_value : ℕ
  pub observed_since : Option ℕ
  pub observed_count : Option ℕ
  pub stuck_logged_at : Option ℕ

-- The time of a run, the time of the oldest unprocessed call, and the number of unprocessed calls.
pub record Observation : Type 0 where
  pub now : ℕ
  pub value : ℕ
  pub count : ℕ

abbrev pub first_observation : Observation → Processing
first_observation o = record {
  observed_value = o.value;
  observed_since = some o.now;
  observed_count = some o.count;
  stuck_logged_at = none;
}

abbrev pub has_dropped : ℕ → Option ℕ → Bool
has_dropped count none = true
has_dropped count (some m) = ltb count m

abbrev pub is_changed : Observation → Processing → Bool
is_changed o s = not (s.observed_value == o.value) || has_dropped o.count s.observed_count

-- The row, and whether it was reset.
abbrev pub reset_if : Bool → Observation → Processing → Processing × Bool
reset_if true o s = (first_observation o, true)
reset_if false o s = (s, false)

unfoldable pub record_processing_observation : Observation → Option Processing → Processing × Bool
record_processing_observation o none = (first_observation o, true)
record_processing_observation o (some s) = reset_if (is_changed o s) o s

unfoldable pub mark_processing_stuck_once : ℕ → Processing → Bool × Processing
mark_processing_stuck_once now s =
    if is_unset s.stuck_logged_at
    then (true, record s { stuck_logged_at = some now })
    else (false, s)

abbrev pub since_or : ℕ → Option ℕ → ℕ
since_or now none = now
since_or now (some t) = t

abbrev pub check_age : ℕ → ℕ → Processing × Bool → Bool × Processing
check_age hours now (s, true) = (false, s)
check_age hours now (s, false) =
    if ltb now (since_or now s.observed_since + hours * 3600)
    then (false, s)
    else mark_processing_stuck_once now s

-- Whether the error is logged, and the row. There is an observation only if the status was
-- read and there is an unprocessed call.
unfoldable pub check_processing_stuck :
    ℕ → Option Observation → Option Processing → Bool × Option Processing
unfolding record_processing_observation mark_processing_stuck_once
check_processing_stuck hours none row = (false, row)
check_processing_stuck hours (some o) row =
    let (logged, s) = check_age hours o.now (record_processing_observation o row) in
    (logged, some s)
