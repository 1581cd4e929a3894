-- ===== src/Bootstrap/Report.antt =====
-- `_stage_state`, and `pick_current_stage` without a callback, as report.py of
-- safe_transaction_service/analytics/bootstrap/ uses them.
use safe_transaction_service.Common.{
  ℕ, Option, none, some, Bool, true, false, List, [], ◌∷◌, if◌then◌else◌,
}
use safe_transaction_service.Bootstrap.Rows.{
  StageRow, peek_stage_row, row_reports_gave_up, row_reports_done,
}
use safe_transaction_service.Bootstrap.Tick.{
  Stage, StageState, is_terminal, Pick, picked, nothing_left, pick_raised,
}

-- The state that the report shows, with the give-up that only a row knows.
pub data Shown : Type 0 where
  shown_done shown_gave_up : Shown
  shown_status : Option StageState → Shown

unfoldable pub stage_state : {W : Type 0} → ℕ → W → Stage W → List StageRow → Shown
stage_state depth w stage rows =
    let row = peek_stage_row stage.name rows in
    if row_reports_done stage.name row depth
    then shown_done
    else if row_reports_gave_up row
    then shown_gave_up
    else shown_status (stage.status w)

abbrev pub shown_or : {W : Type 0} → Stage W → Option Bool → Pick W → Pick W
shown_or stage none rest = pick_raised
shown_or stage (some true) rest = rest
shown_or stage (some false) rest = picked stage

unfoldable pub peek_current_stage : {W : Type 0} → ℕ → W → List (Stage W) → List StageRow → Pick W
peek_current_stage depth w [] rows = nothing_left
peek_current_stage depth w (stage ∷ stages) rows =
    let rest = peek_current_stage depth w stages rows in
    if is_terminal depth stage.name rows then rest else shown_or stage (stage.is_done w) rest
