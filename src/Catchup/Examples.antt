-- ===== src/Catchup/Examples.antt =====
-- Runs of the sweeper on the days 100 and 101, and the theorems at them.
use safe_transaction_service.Common.{
  ℕ, arith, pos, ◌<◌, ◌+◌, ◌*◌, ◌^◌, ◌≤◌, ◌≡◌, refl, true, false, none, some, List, [], ◌∷◌, All,
  length,
}
use safe_transaction_service.Common.Result.{ok, raised}
use safe_transaction_service.Catchup.{
  get_day_state, Environment, get_catchup_settings, max_attempts_var, DayState, fresh_state,
  incomplete, IndexerStatus, World, upserted, Upsert, CatchupSettings, Observation, selected_days,
  attempt, is_reached, catch_up_days, mark_gave_up, Report,
}
use safe_transaction_service.Catchup.Schedule.{prompt, get_catchup_settings_lem}
use safe_transaction_service.Catchup.Bounded.{IsOwn, IsBounded}
use safe_transaction_service.Catchup.Spent.{catch_up_days-IsBounded}
use safe_transaction_service.Catchup.Backoff.{first_attempt, next_attempt, History-spaced}
use safe_transaction_service.Catchup.Selection.{IsReady, selected_days-IsReady}
use safe_transaction_service.Catchup.Once.{updates, attempted, mark_gave_up_once}

abbrev settings : CatchupSettings
settings = record {
  window_days = 2;
  max_days_per_run = 1;
  max_attempts = 5;
  settle_minutes = 30;
  processing_stuck_hours = 6;
  backfill_stale_hours = 6;
  snapshot_stale_hours = 26;
}

abbrev noon : ℕ
noon = 102 * 86400 + 43200

abbrev status : IndexerStatus
status = record {
  erc20_block_timestamp = noon;
  master_copies_block_timestamp = noon;
  oldest_unprocessed_ts = none;
}

-- The core of every day succeeds, and the populator 3 of day 101 fails.
abbrev upsert : Upsert
upsert day only row m = (
  upserted (record { status = incomplete; core_ok = true; failed = 3 ∷ []; code = none }),
  true,
  m,
)

abbrev world : World
world = record { states = []; metrics = record { first_day = some 90; completed = 100 ∷ [] } }

abbrev outcome : Report × World
outcome = catch_up_days upsert settings noon (some status) false world

incomplete_day : outcome.0.days_incomplete ≡ 101 ∷ []
unfolding catch_up_days
incomplete_day = refl

attempted_state :
    outcome.1.states
    ≡ record (fresh_state 101) {
      core_ok = some true;
      failed_steps = 3 ∷ [];
      attempts = 1;
      next_attempt_at = some (noon + 3600);
      last_state = some incomplete;
    }
      ∷ []
unfolding catch_up_days attempt
attempted_state = refl

abbrev states : List DayState
states = fresh_state 100 ∷ fresh_state 101 ∷ []

selected_days-IsReady_example :
    (length (selected_days settings noon (some status) states (100 ∷ 101 ∷ [])) ≤ 1)
    × All
        (IsReady settings noon (some status) states)
        (selected_days settings noon (some status) states (100 ∷ 101 ∷ []))
selected_days-IsReady_example =
    selected_days-IsReady settings noon (some status) states (100 ∷ 101 ∷ [])

abbrev once_attempted : DayState
once_attempted = attempt 1000 (fresh_state 101)

abbrev twice_attempted : DayState
twice_attempted = attempt 5000 once_attempted

once_reached : is_reached 5000 once_attempted.next_attempt_at ≡ true
unfolding attempt
once_reached = refl

twice_reached : is_reached 13000 twice_attempted.next_attempt_at ≡ true
unfolding attempt
twice_reached = refl

History-spaced_example : 1000 + 2 ^ twice_attempted.attempts * 3600 ≤ 13000 + 3600
History-spaced_example =
    History-spaced 1000 13000 twice_attempted
      (next_attempt once_attempted 5000 (first_attempt (fresh_state 101) refl) once_reached)
      twice_reached

mark_gave_up_once_example :
    (mark_gave_up 101 30 (updates (attempted 100 20 ∷ []) (mark_gave_up 101 10 states).1)).0 ≡ false
mark_gave_up_once_example = mark_gave_up_once 101 10 30 (attempted 100 20 ∷ []) states

abbrev earlier : List Observation
earlier =
    record { now = 20000; value = 7; count = 4 } ∷ record { now = 10000; value = 7; count = 3 } ∷ []

abbrev latest : Observation
latest = record { now = 32000; value = 7; count = 3 }

abbrev environment : Environment
environment = record {
  settle_minutes = some (pos 30);
  window_days = some (pos 2);
  max_days_per_run = some (pos 1);
  max_attempts = some (pos 5);
  backfill_stale_hours = some (pos 6);
  processing_stuck_hours = some (pos 6);
  snapshot_stale_hours = some (pos 26);
}

environment_read : get_catchup_settings environment ≡ ok settings
unfolding get_catchup_settings
environment_read = refl

-- Seven attempts take longer than the window of two days.
attempts_refused :
    get_catchup_settings (record environment { max_attempts = some (pos 7) })
    ≡ raised max_attempts_var
unfolding get_catchup_settings
attempts_refused = refl

get_catchup_settings_lem_example :
    ((prompt 101 1000 4).0.attempts ≡ 5) × ((prompt 101 1000 4).1 < 1000 + 2 * 86400)
get_catchup_settings_lem_example =
    get_catchup_settings_lem environment settings 101 1000 environment_read

abbrev tried : World
tried = record { states = states; metrics = record { first_day = some 90; completed = [] } }

states-IsOwn : All (IsOwn states) states
unfolding get_day_state
states-IsOwn = (refl, (refl, tt))

catch_up_days-IsBounded_example :
    All (IsBounded 5) (catch_up_days upsert settings noon (some status) false tried).1.states
catch_up_days-IsBounded_example =
    catch_up_days-IsBounded upsert settings noon (some status) false tried (omega arith)
      states-IsOwn (omega arith, (omega arith, tt))
