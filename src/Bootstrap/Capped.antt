-- ===== src/Bootstrap/Capped.antt =====
-- The failures that the rows count, over the ticks of safe_transaction_service/analytics/bootstrap/tick.py.
use safe_transaction_service.Common.{
  ℕ, ◌≤◌, ◌≡◌, refl, sym, ◌⊎◌, inl, inr, Bool, true, false, not, ◌&&◌, ◌||◌, Option, none, some,
  List, [], ◌∷◌, arith, leb, Bool-cases, leb→le,
}
use safe_transaction_service.Bootstrap.{
  StageName, daily, native, erc20, same_name, StageRow, peek_stage_row, save_stage_row,
  is_new_failure, retry_cap, should_dispatch_after_failure, is_set, is_terminal,
  row_reports_gave_up, row_reports_done, complete_row, mark_completed, reopen_row,
  maybe_reopen_daily, is_outgrown, Stage, StageState, running, pending, stalled, failed, done, Pick,
  picked, nothing_left, pick_raised, picked_or, pick_current_stage, depth_of, dispatch,
  record_dispatch, retry_or_go, gated, GateState, caught_up, not_caught_up, is_left_alone,
  on_status, on_pick, with_row, run_tick, Bootstrap, TickSettings, StatusReply, check_indexer,
  bootstrap_complete,
}
use safe_transaction_service.Bootstrap.Lookup.{
  reopen_row_keeps, KeepsName, peek-save_self, peek-save_keeps, same_name_sound,
}
use safe_transaction_service.Bootstrap.Decide.{
  decided, counted_row, should_dispatch_lem, should_dispatch_other,
}

-- At most two failures, or three and given up.
abbrev pub Capped : StageRow → Type 0
Capped r =
    (r.consecutive_failures ≤ 2) ⊎ ((r.consecutive_failures ≡ 3) × (is_set r.gave_up_at ≡ true))

pub record IsCapped (rows : List StageRow) : Type 0 where
  pub daily_capped : Capped (peek_stage_row daily rows)
  pub native_capped : Capped (peek_stage_row native rows)
  pub erc20_capped : Capped (peek_stage_row erc20 rows)

at : (n : StageName) {rows : List StageRow} → IsCapped rows → Capped (peek_stage_row n rows)
at daily h = h.daily_capped
at native h = h.native_capped
at erc20 h = h.erc20_capped

of_each :
    (rows : List StageRow) → ((n : StageName) → Capped (peek_stage_row n rows)) → IsCapped rows
of_each rows f = record { daily_capped = f daily; native_capped = f native; erc20_capped = f erc20 }

pub save-IsCapped :
    (n : StageName) (f : StageRow → StageRow) (rows : List StageRow)
    → KeepsName f
    → (Capped (peek_stage_row n rows) → Capped (f (peek_stage_row n rows)))
    → IsCapped rows
    → IsCapped (save_stage_row n f rows)
save-IsCapped n f rows keeps step h =
    of_each (save_stage_row n f rows)
      (λ (m : StageName). peek-save_keeps Capped m n f rows keeps step (at m h))

reopen_row-Capped : (depth : ℕ) (r : StageRow) → Capped r → Capped (reopen_row depth r)
reopen_row-Capped depth r h = elim (Bool-cases (is_outgrown depth r)) [
  | inl e ↦ rw e (inl (omega arith))
  | inr e ↦ rw e h
]

module _ {W : Type 0} where
  -- The picked stage has a row that is not terminal.
  abbrev PickIsCapped : ℕ → Pick W × List StageRow → Type 0
  PickIsCapped depth (picked stage, rows) =
      (is_terminal depth stage.name rows ≡ false) × IsCapped rows
  PickIsCapped depth (nothing_left, rows) = IsCapped rows
  PickIsCapped depth (pick_raised, rows) = IsCapped rows

  picked_or-IsCapped :
      (depth : ℕ) (stage : Stage W) (is_done : Option Bool) (rows : List StageRow)
      (marked : Pick W × List StageRow)
      → is_terminal depth stage.name rows ≡ false
      → IsCapped rows
      → PickIsCapped depth marked
      → PickIsCapped depth (picked_or stage is_done rows marked)
  picked_or-IsCapped depth stage none rows marked e h k = h
  picked_or-IsCapped depth stage (some true) rows marked e h k = k
  picked_or-IsCapped depth stage (some false) rows marked e h k = (e, h)

  pick-IsCapped :
      (now depth : ℕ) (w : W) (stages : List (Stage W)) (rows : List StageRow)
      → IsCapped rows
      → PickIsCapped depth (pick_current_stage now depth w stages rows)
  unfolding pick_current_stage mark_completed
  pick-IsCapped now depth w [] rows h = h
  pick-IsCapped now depth w (stage ∷ stages) rows h =
      let marked : List StageRow = mark_completed now stage.name (depth_of stage.name depth) rows in
      let capped : IsCapped marked =
        save-IsCapped stage.name (complete_row now (depth_of stage.name depth)) rows (λ r. refl)
          (λ k. inl (omega arith)) h in
      elim (Bool-cases (is_terminal depth stage.name rows)) [
        | inl e ↦ rw e (pick-IsCapped now depth w stages rows h)
        | inr e ↦ rw e (
            picked_or-IsCapped depth stage (stage.is_done w) rows
              (pick_current_stage now depth w stages marked) e h
              (pick-IsCapped now depth w stages marked capped))
      ]

false_of_or : (a b : Bool) → (a || b) ≡ false → a ≡ false
false_of_or true b h = h
false_of_or false b h = refl

not_gave_up :
    (depth : ℕ) (n : StageName) (rows : List StageRow)
    → is_terminal depth n rows ≡ false
    → is_set (peek_stage_row n rows).gave_up_at ≡ false
unfolding row_reports_gave_up
not_gave_up depth n rows e =
    false_of_or (is_set (peek_stage_row n rows).gave_up_at)
      (row_reports_done n (peek_stage_row n rows) depth) e

module _ (now : ℕ) (r : StageRow) (open_still : is_set r.gave_up_at ≡ false)
    (capped : Capped r) where
  two_at_most : r.consecutive_failures ≤ 2
  two_at_most = elim capped [ inl h ↦ h | inr h ↦ elim (absurd (h.1) open_still) [ ] ]
    where
      absurd : {b : Bool} → b ≡ true → b ≡ false → ⊥
      absurd p q = cc

  three_at_most : (counted_row now r).consecutive_failures ≤ 3
  three_at_most = elim (Bool-cases (is_new_failure r.last_failure_at r.last_dispatch_at)) [
    | inl e ↦ rw e (omega (arith, two_at_most))
    | inr e ↦ rw e (omega (arith, two_at_most))
  ]

  decided-Capped : Capped (decided now r).1
  decided-Capped = elim (Bool-cases (leb retry_cap (counted_row now r).consecutive_failures)) [
    | inl e ↦ rw e (
        inr
          (omega (arith, three_at_most, leb→le 3 (counted_row now r).consecutive_failures e), refl))
    | inr e ↦ rw e (inl (ground (arith, e)))
  ]

should_dispatch-IsCapped :
    (now depth : ℕ) (n : StageName) (rows : List StageRow)
    → is_terminal depth n rows ≡ false
    → IsCapped rows
    → IsCapped (should_dispatch_after_failure now n rows).1
should_dispatch-IsCapped now depth n rows e h =
    of_each (should_dispatch_after_failure now n rows).1 (λ (m : StageName).
      elim (Bool-cases (same_name n m)) [
        | inl same ↦ rw (sym (same_name_sound n m same)) (
            rw ((should_dispatch_lem now n rows).1)
              (decided-Capped now (peek_stage_row n rows) (not_gave_up depth n rows e) (at n h)))
        | inr other ↦ rw (should_dispatch_other now n rows m other) (at m h)
      ])

module _ {W : Type 0} (now : ℕ) where
  dispatch-IsCapped :
      (stage : Stage W) (r : Bool × List StageRow) (b : Bootstrap W)
      → IsCapped r.1
      → IsCapped (dispatch now stage r b).rows
  unfolding record_dispatch
  dispatch-IsCapped stage (false, rows) b h = h
  dispatch-IsCapped stage (true, rows) b h =
      save-IsCapped stage.name (λ (r : StageRow). record r { last_dispatch_at = some now }) rows
        (λ r. refl) (λ k. k) h

  retry_or_go-IsCapped :
      (depth : ℕ) (stage : Stage W) (state : StageState) (rows : List StageRow)
      → is_terminal depth stage.name rows ≡ false
      → IsCapped rows
      → IsCapped (retry_or_go now stage state rows).1
  retry_or_go-IsCapped depth stage failed rows e h =
      should_dispatch-IsCapped now depth stage.name rows e h
  retry_or_go-IsCapped depth stage pending rows e h = h
  retry_or_go-IsCapped depth stage running rows e h = h
  retry_or_go-IsCapped depth stage stalled rows e h = h
  retry_or_go-IsCapped depth stage done rows e h = h

  gated-IsCapped :
      (depth : ℕ) (stage : Stage W) (state : StageState) (gate : GateState) (b : Bootstrap W)
      → is_terminal depth stage.name b.rows ≡ false
      → IsCapped b.rows
      → IsCapped (gated now stage state gate b).rows
  gated-IsCapped depth stage state caught_up b e h =
      dispatch-IsCapped stage (retry_or_go now stage state b.rows) b
        (retry_or_go-IsCapped depth stage state b.rows e h)
  gated-IsCapped depth stage state (not_caught_up code) b e h = h

  on_status-IsCapped :
      (depth : ℕ) (gate : GateState) (stage : Stage W) (status : Option StageState)
      (b : Bootstrap W)
      → is_terminal depth stage.name b.rows ≡ false
      → IsCapped b.rows
      → IsCapped (on_status now gate stage status b).rows
  on_status-IsCapped depth gate stage none b e h = h
  on_status-IsCapped depth gate stage (some state) b e h =
      elim (Bool-cases (is_left_alone stage state)) [
        | inl alone ↦ rw alone h
        | inr acted ↦
            rw acted
              (gated-IsCapped depth stage state gate (record b { gate_state = some gate }) e h)
      ]

  on_pick-IsCapped :
      (depth : ℕ) (gate : GateState) (p : Pick W × List StageRow) (b : Bootstrap W)
      → PickIsCapped depth p
      → IsCapped (on_pick now gate p b).rows
  on_pick-IsCapped depth gate (pick_raised, rows) b h = h
  on_pick-IsCapped depth gate (nothing_left, rows) b h = h
  on_pick-IsCapped depth gate (picked stage, rows) b (e, h) =
      on_status-IsCapped depth gate stage (stage.status b.world)
        (record b { rows = with_row stage.name rows })
        (rw (peek-save_self stage.name (λ (r : StageRow). r) rows (λ r. refl)) e)
        (save-IsCapped stage.name (λ (r : StageRow). r) rows (λ r. refl) (λ k. k) h)

  -- A tick with any stages and any settings keeps it that each row counts at most two failures, or three
  -- and is given up.
  pub run_tick-IsCapped :
      (cfg : TickSettings) (reply : StatusReply) (stages : List (Stage W)) (b : Bootstrap W)
      → IsCapped b.rows
      → IsCapped (run_tick cfg now reply stages b).rows
  unfolding run_tick maybe_reopen_daily
  run_tick-IsCapped cfg reply stages b h =
      elim (Bool-cases (not (cfg.enable_analytics && cfg.auto_backfill))) [
        | inl off ↦ rw off h
        | inr on ↦ elim (Bool-cases (bootstrap_complete cfg.daily_depth b.rows)) [
          | inl complete ↦ rw (on, complete) h
          | inr left ↦
              let reopened : List StageRow = maybe_reopen_daily cfg.daily_depth b.rows in
              rw (on, left)
                (on_pick-IsCapped cfg.daily_depth (check_indexer cfg.settle_minutes now reply)
                  (pick_current_stage now cfg.daily_depth b.world stages reopened) b
                  (pick-IsCapped now cfg.daily_depth b.world stages reopened (
                    save-IsCapped daily (reopen_row cfg.daily_depth) b.rows
                      (reopen_row_keeps cfg.daily_depth)
                      (reopen_row-Capped cfg.daily_depth (peek_stage_row daily b.rows)) h)))
        ]
      ]
