-- ===== src/Bootstrap/Complete.antt =====
-- The report of a bootstrap that is complete (safe_transaction_service/analytics/bootstrap/report.py).
use safe_transaction_service.Common.{
  ℕ, ◌≡◌, refl, sym, ◌∙◌, ◌⊎◌, inl, inr, Bool, true, false, ◌&&◌, ◌||◌, List, [], ◌∷◌, All,
  Bool-cases,
}
use safe_transaction_service.Bootstrap.{
  StageName, daily, native, erc20, StageRow, peek_stage_row, Stage, shown_done, shown_gave_up,
  stage_state, peek_current_stage, nothing_left, bootstrap_complete, is_terminal, row_reports_done,
  row_reports_gave_up,
}
use safe_transaction_service.Bootstrap.Lookup.{bootstrap_complete_lem}
use safe_transaction_service.Bootstrap.Terminal.{IsTerminal}

both : (a b c : Bool) → (a && (b && c)) ≡ true → (a ≡ true) × (b ≡ true) × (c ≡ true)
both true true true h = (refl, refl, refl)
both true true false h = cc
both true false c h = cc
both false b c h = cc

complete-IsTerminal :
    (depth : ℕ) (n : StageName) (rows : List StageRow)
    → bootstrap_complete depth rows ≡ true
    → IsTerminal depth n rows
complete-IsTerminal depth n rows h =
    let (d, e, f) =
      both (is_terminal depth daily rows) (is_terminal depth native rows)
        (is_terminal depth erc20 rows) (sym (bootstrap_complete_lem depth rows) ∙ h) in
    each n d e f
  where
    each :
        (m : StageName)
        → is_terminal depth daily rows ≡ true
        → is_terminal depth native rows ≡ true
        → is_terminal depth erc20 rows ≡ true
        → is_terminal depth m rows ≡ true
    each daily d e f = d
    each native d e f = e
    each erc20 d e f = f

module _ {W : Type 0} (depth : ℕ) (w : W) (rows : List StageRow) where
  abbrev pub IsShownOver : Stage W → Type 0
  IsShownOver stage =
      (stage_state depth w stage rows ≡ shown_done)
      ⊎ (stage_state depth w stage rows ≡ shown_gave_up)

  terminal-IsShownOver : (stage : Stage W) → IsTerminal depth stage.name rows → IsShownOver stage
  unfolding stage_state
  terminal-IsShownOver stage h =
      elim (Bool-cases (row_reports_done stage.name (peek_stage_row stage.name rows) depth)) [
        | inl e ↦ inl (rw e refl)
        | inr e ↦ inr (
            rw
              (
                e,
                gave_up_of (row_reports_gave_up (peek_stage_row stage.name rows))
                    (row_reports_done stage.name (peek_stage_row stage.name rows) depth) e h,
              )
              refl)
      ]
    where
      gave_up_of : (a b : Bool) → b ≡ false → (a || b) ≡ true → a ≡ true
      gave_up_of true b e k = refl
      gave_up_of false b e k = cc

  -- Once `bootstrap_complete` holds, the report names no current stage and shows each stage as done or given up,
  -- whatever the stages say of themselves.
  pub report_complete :
      (stages : List (Stage W))
      → bootstrap_complete depth rows ≡ true
      → (peek_current_stage depth w stages rows ≡ nothing_left) × All IsShownOver stages
  unfolding peek_current_stage
  report_complete [] h = (refl, tt)
  report_complete (stage ∷ stages) h =
      let (left, over) = report_complete stages h in
      let terminal = complete-IsTerminal depth stage.name rows h in
      (rw terminal left, (terminal-IsShownOver stage terminal, over))
