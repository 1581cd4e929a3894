-- ===== src/Catchup/States.antt =====
-- The state row of a day: safe_transaction_service/analytics/catchup/state.py, with the verdicts of day.py and
-- the codes of gate.py.
use safe_transaction_service.Common.{
  ℕ, suc, ◌+◌, ◌*◌, ◌^◌, Bool, true, false, not, ◌&&◌, Option, none, some, List, [], ◌∷◌, ◌++◌, map,
  ltb, ◌==◌, if◌then◌else◌, select,
}

-- `DayStatus`, with the verdict `gave_up` of the sweeper.
pub data DayStatus : Type 0 where
  done incomplete deferred gave_up : DayStatus

pub data Code : Type 0 where
  day_not_ready processing_pending indexer_status_unavailable : Code

-- A row of `AnalyticsCatchupState` with the kind "day". The names of populators are numbers.
pub record DayState : Type 0 where
  pub key : ℕ
  pub core_ok : Option Bool
  pub failed_steps : List ℕ
  pub attempts : ℕ
  pub next_attempt_at : Option ℕ
  pub last_state : Option DayStatus
  pub last_code : Option Code
  pub gave_up_logged_at : Option ℕ
  pub expired_logged_at : Option ℕ

pub record DayResult : Type 0 where
  pub status : DayStatus
  pub core_ok : Bool
  pub failed : List ℕ
  pub code : Option Code

abbrev pub is_unset : {A : Type 0} → Option A → Bool
is_unset none = true
is_unset (some a) = false

-- `filter(kind="day", key=day).first()`
unfoldable pub get_day_state : ℕ → List DayState → Option DayState
get_day_state day [] = none
get_day_state day (s ∷ ss) = if s.key == day then some s else get_day_state day ss

-- `filter(kind="day", key=day).update(...)`
unfoldable pub update_day : ℕ → (DayState → DayState) → List DayState → List DayState
update_day day f [] = []
update_day day f (s ∷ ss) = (if s.key == day then f s else s) ∷ update_day day f ss

abbrev pub fresh_state : ℕ → DayState
fresh_state day = record {
  key = day;
  core_ok = none;
  failed_steps = [];
  attempts = 0;
  next_attempt_at = none;
  last_state = none;
  last_code = none;
  gave_up_logged_at = none;
  expired_logged_at = none;
}

unfoldable pub ensure_day_states : List ℕ → List DayState → List DayState
unfolding get_day_state
ensure_day_states days rows =
    rows ++ map fresh_state (select (λ day. is_unset (get_day_state day rows)) days)

unfoldable pub reset_core_ok : ℕ → List DayState → List DayState
unfolding update_day
reset_core_ok day = update_day day (λ s. record s { core_ok = some false })

unfoldable pub record_day_result : ℕ → DayResult → List DayState → List DayState
unfolding update_day
record_day_result day r = update_day day (λ s. record s {
  core_ok = some r.core_ok;
  failed_steps = r.failed;
  last_state = some r.status;
  last_code = r.code;
})

-- Attempt `n` sets the next one to `2 ** (n - 1)` hours later.
unfoldable pub attempt : ℕ → DayState → DayState
attempt now s = record s {
  attempts = suc s.attempts;
  next_attempt_at = some (now + 2 ^ s.attempts * 3600);
}

abbrev pub attempts_after : Option DayState → ℕ
attempts_after none = 0
attempts_after (some s) = suc s.attempts

unfoldable pub record_attempt : ℕ → ℕ → List DayState → ℕ × List DayState
unfolding get_day_state update_day attempt
record_attempt day now rows =
    (attempts_after (get_day_state day rows), update_day day (attempt now) rows)

unfoldable pub mark_day_succeeded : ℕ → List DayState → List DayState
mark_day_succeeded day = select (λ s. not (s.key == day))

-- The number of rows that an update finds.
unfoldable pub count_rows : (DayState → Bool) → List DayState → ℕ
count_rows p [] = 0
count_rows p (s ∷ ss) = let rest = count_rows p ss in if p s then suc rest else rest

unfoldable pub stamp_rows :
    (DayState → Bool) → (DayState → DayState) → List DayState → List DayState
stamp_rows p f [] = []
stamp_rows p f (s ∷ ss) = (if p s then f s else s) ∷ stamp_rows p f ss

abbrev pub may_give_up : ℕ → DayState → Bool
may_give_up day s = s.key == day && is_unset s.gave_up_logged_at

abbrev pub stamp_gave_up : ℕ → DayState → DayState
stamp_gave_up now s = record s { gave_up_logged_at = some now }

-- The first component tells the caller to log the error.
unfoldable pub mark_gave_up : ℕ → ℕ → List DayState → Bool × List DayState
unfolding update_day count_rows stamp_rows
mark_gave_up day now rows =
    let rows' = update_day day (λ s. record s { last_state = some gave_up }) rows in
    (
      count_rows (may_give_up day) rows' == 1,
      stamp_rows (may_give_up day) (stamp_gave_up now) rows',
    )

unfoldable pub mark_day_deferred : ℕ → Code → List DayState → List DayState
unfolding update_day
mark_day_deferred day code =
    update_day day (λ s. record s { last_state = some deferred; last_code = some code })

abbrev pub may_expire : ℕ → DayState → Bool
may_expire day s = s.key == day && is_unset s.expired_logged_at

unfoldable pub mark_expired_once : ℕ → ℕ → List DayState → Bool × List DayState
unfolding count_rows stamp_rows
mark_expired_once day now rows = (
  count_rows (may_expire day) rows == 1,
  stamp_rows (may_expire day) (λ s. record s { expired_logged_at = some now }) rows,
)

unfoldable pub prune_day_states_before : ℕ → List DayState → List DayState
prune_day_states_before cutoff = select (λ s. not (ltb s.key cutoff))
