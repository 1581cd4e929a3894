-- ===== src/Bootstrap/Tick.antt =====
-- stage.py, tick.py and `pick_current_stage` of safe_transaction_service/analytics/bootstrap/. A tick runs at one
-- point in time, `now`, in seconds; a stage is known by its methods, over a state of its own.
use safe_transaction_service.Common.{
  ℕ, ◌-◌, Bool, true, false, not, ◌&&◌, ◌||◌, Option, none, some, List, [], ◌∷◌, ltb, leb,
  if◌then◌else◌,
}
use safe_transaction_service.Bootstrap.Check.{
  GateState, caught_up, not_caught_up, StatusReply, check_indexer,
}
use safe_transaction_service.Bootstrap.Rows.{
  save_stage_row, StageName, daily, native, erc20, StageRow, peek_stage_row, mark_completed,
  record_failure, record_dispatch, mark_gave_up, maybe_reopen_daily, bootstrap_complete,
  row_reports_gave_up, row_reports_done,
}

-- `STAGE_STATES`, but for the `gave_up` that no `status()` returns.
pub data StageState : Type 0 where
  pending running stalled failed done : StageState

-- No result means that the method raised.
pub record Stage (W : Type 0) : Type 0 where
  pub name : StageName
  pub resumed_externally : Bool
  pub is_done : W → Option Bool
  pub status : W → Option StageState
  pub start_or_resume : W → W

-- The rows, the last verdict of the gate (in Redis), and what the stages read and write.
pub record Bootstrap (W : Type 0) : Type 0 where
  pub rows : List StageRow
  pub gate_state : Option GateState
  pub world : W

pub record TickSettings : Type 0 where
  pub enable_analytics : Bool
  pub auto_backfill : Bool
  pub daily_depth : ℕ
  pub settle_minutes : ℕ

abbrev pub retry_cooldown : ℕ
retry_cooldown = 21600

abbrev pub retry_cap : ℕ
retry_cap = 3

-- `pick_current_stage` with the callback of the tick: the stage, if one is left, or an exception, and the rows.
pub data Pick (W : Type 0) : Type 0 where
  picked : Stage W → Pick W
  nothing_left : Pick W
  pick_raised : Pick W

abbrev pub depth_of : StageName → ℕ → Option ℕ
depth_of daily depth = some depth
depth_of native depth = none
depth_of erc20 depth = none

abbrev pub is_terminal : ℕ → StageName → List StageRow → Bool
is_terminal depth n rows =
    row_reports_gave_up (peek_stage_row n rows) || row_reports_done n (peek_stage_row n rows) depth

abbrev pub is_new_failure : Option ℕ → Option ℕ → Bool
is_new_failure none dispatched = true
is_new_failure (some failure) none = false
is_new_failure (some failure) (some dispatched) = ltb failure dispatched

abbrev pub is_cooling : ℕ → Option ℕ → Bool
is_cooling now none = false
is_cooling now (some failure) = ltb (now - failure) retry_cooldown

abbrev pub count_failure : ℕ → StageName → List StageRow → List StageRow
count_failure now n rows =
    let row = peek_stage_row n rows in
    if is_new_failure row.last_failure_at row.last_dispatch_at
    then record_failure now n rows
    else rows

-- Whether to dispatch, and the rows.
unfoldable pub should_dispatch_after_failure : ℕ → StageName → List StageRow → Bool × List StageRow
should_dispatch_after_failure now n rows =
    let rows' = count_failure now n rows in
    let row = peek_stage_row n rows' in
    if leb retry_cap row.consecutive_failures
    then (false, mark_gave_up now n rows')
    else (not (is_cooling now row.last_failure_at), rows')

-- `get_stage_row` creates the row of the stage.
abbrev pub with_row : StageName → List StageRow → List StageRow
with_row n rows = save_stage_row n (λ r. r) rows

module _ {W : Type 0} where
  abbrev pub picked_or :
      Stage W → Option Bool → List StageRow → Pick W × List StageRow → Pick W × List StageRow
  picked_or stage none rows marked = (pick_raised, rows)
  picked_or stage (some true) rows marked = marked
  picked_or stage (some false) rows marked = (picked stage, rows)

  unfoldable pub pick_current_stage :
      ℕ → ℕ → W → List (Stage W) → List StageRow → Pick W × List StageRow
  pick_current_stage now depth w [] rows = (nothing_left, rows)
  pick_current_stage now depth w (stage ∷ stages) rows =
      let skipped = pick_current_stage now depth w stages rows in
      let marked =
        pick_current_stage now depth w stages
          (mark_completed now stage.name (depth_of stage.name depth) rows) in
      if is_terminal depth stage.name rows
      then skipped
      else picked_or stage (stage.is_done w) rows marked

  abbrev pub dispatch : ℕ → Stage W → Bool × List StageRow → Bootstrap W → Bootstrap W
  dispatch now stage (false, rows) b = record b { rows = rows }
  dispatch now stage (true, rows) b = record b {
    rows = record_dispatch now stage.name rows;
    world = stage.start_or_resume b.world;
  }

  -- Step 6 of a tick.
  abbrev pub retry_or_go : ℕ → Stage W → StageState → List StageRow → Bool × List StageRow
  retry_or_go now stage failed rows = should_dispatch_after_failure now stage.name rows
  retry_or_go now stage state rows = (true, rows)

  abbrev pub gated : ℕ → Stage W → StageState → GateState → Bootstrap W → Bootstrap W
  gated now stage state caught_up b = dispatch now stage (retry_or_go now stage state b.rows) b
  gated now stage state (not_caught_up code) b = b

  -- Step 4.
  abbrev pub is_left_alone : Stage W → StageState → Bool
  is_left_alone stage running = true
  is_left_alone stage stalled = stage.resumed_externally
  is_left_alone stage state = false

  abbrev pub on_status : ℕ → GateState → Stage W → Option StageState → Bootstrap W → Bootstrap W
  on_status now gate stage none b = b
  on_status now gate stage (some state) b =
      if is_left_alone stage state
      then b
      else gated now stage state gate (record b { gate_state = some gate })

  abbrev pub on_pick : ℕ → GateState → Pick W × List StageRow → Bootstrap W → Bootstrap W
  on_pick now gate (pick_raised, rows) b = record b { rows = rows }
  on_pick now gate (nothing_left, rows) b = record b { rows = rows }
  on_pick now gate (picked stage, rows) b =
      on_status now gate stage (stage.status b.world) (record b { rows = with_row stage.name rows })

  unfoldable pub run_tick :
      TickSettings → ℕ → StatusReply → List (Stage W) → Bootstrap W → Bootstrap W
  run_tick cfg now reply stages b =
      if not (cfg.enable_analytics && cfg.auto_backfill)
      then b
      else if bootstrap_complete cfg.daily_depth b.rows
      then b
      else on_pick now (check_indexer cfg.settle_minutes now reply)
          (pick_current_stage now cfg.daily_depth b.world stages
            (maybe_reopen_daily cfg.daily_depth b.rows))
          b
