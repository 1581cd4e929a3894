-- ===== src/Bootstrap/InOrder.antt =====
-- What a tick starts (safe_transaction_service/analytics/bootstrap/tick.py).
use safe_transaction_service.Common.{
  ℕ, ◌≡◌, refl, sym, ap, ◌⊎◌, inl, inr, Bool, true, false, not, ◌&&◌, ◌||◌, Option, none, some,
  List, [], ◌∷◌, ◌++◌, All, Bool-cases,
}
use safe_transaction_service.Bootstrap.{
  StageName, same_name, StageRow, peek_stage_row, bootstrap_complete, maybe_reopen_daily,
  row_reports_gave_up, row_reports_done, is_terminal, Stage, StageState, running, pending, stalled,
  failed, done, Pick, picked, nothing_left, pick_raised, pick_current_stage, retry_or_go,
  record_dispatch, with_row, dispatch, gated, GateState, caught_up, not_caught_up, is_left_alone,
  on_status, on_pick, run_tick, Bootstrap, TickSettings, StatusReply, check_indexer,
}
use safe_transaction_service.Bootstrap.Lookup.{peek-save_self, peek-save_keeps, same_name_sound}
use safe_transaction_service.Bootstrap.Decide.{should_dispatch_other}
use safe_transaction_service.Bootstrap.Terminal.{
  IsTerminal, PickIsInOrder, pick_current_stage-PickIsInOrder,
}

All-map :
    {W : Type 0} (depth : ℕ) (rows rows' : List StageRow) (stages : List (Stage W))
    → ((n : StageName) → IsTerminal depth n rows → IsTerminal depth n rows')
    → All (λ s. IsTerminal depth s.name rows) stages
    → All (λ s. IsTerminal depth s.name rows') stages
All-map depth rows rows' [] f hs = tt
All-map depth rows rows' (s ∷ ss) f (h, hs) = (f s.name h, All-map depth rows rows' ss f hs)

peek-with_row :
    (m n : StageName) (rows : List StageRow)
    → peek_stage_row m (with_row n rows) ≡ peek_stage_row m rows
peek-with_row m n rows =
    peek-save_keeps (λ (r : StageRow). r ≡ peek_stage_row m rows) m n (λ (r : StageRow). r) rows
      (λ r. refl) (λ h. h) refl

-- The stage may be acted on: it is not running, nor stalled with a resumer of its own.
abbrev pub MayAct : {W : Type 0} → Stage W → Option StageState → Type 0
MayAct stage none = ⊥
MayAct stage (some running) = ⊥
MayAct stage (some stalled) = stage.resumed_externally ≡ false
MayAct stage (some pending) = Unit
MayAct stage (some failed) = Unit
MayAct stage (some done) = Unit

acted-MayAct :
    {W : Type 0} (stage : Stage W) (state : StageState)
    → is_left_alone stage state ≡ false
    → MayAct stage (some state)
acted-MayAct stage running h = cc
acted-MayAct stage stalled h = h
acted-MayAct stage pending h = tt
acted-MayAct stage failed h = tt
acted-MayAct stage done h = tt

module _ {W : Type 0} (depth now : ℕ) where
  -- The tick started nothing, or one stage, with the gate open and all stages before it terminal.
  abbrev pub StartsInOrder : GateState → List (Stage W) → Bootstrap W → Bootstrap W → Type 0
  StartsInOrder gate stages b b' =
      (b'.world ≡ b.world)
      ⊎ ((before : List (Stage W)) × (stage : Stage W) × (after : List (Stage W)) × (stages
            ≡ before ++ stage ∷ after)
          × (All (λ s. IsTerminal depth s.name b'.rows) before)
          × MayAct stage (stage.status b.world)
          × (gate ≡ caught_up)
          × ((peek_stage_row stage.name b'.rows).last_dispatch_at ≡ some now)
          × (b'.world ≡ stage.start_or_resume b.world))

  retry_or_go-IsTerminal :
      (stage : Stage W) (state : StageState) (rows : List StageRow) (m : StageName)
      → is_terminal depth stage.name rows ≡ false
      → IsTerminal depth m rows
      → IsTerminal depth m (retry_or_go now stage state rows).1
  retry_or_go-IsTerminal stage failed rows m e h = elim (Bool-cases (same_name stage.name m)) [
    | inl same ↦ elim (absurd (rw (sym (same_name_sound stage.name m same)) e) h) [ ]
    | inr other ↦ rw (should_dispatch_other now stage.name rows m other) h
  ]
    where
      absurd : {b : Bool} → b ≡ false → b ≡ true → ⊥
      absurd p q = cc
  retry_or_go-IsTerminal stage pending rows m e h = h
  retry_or_go-IsTerminal stage running rows m e h = h
  retry_or_go-IsTerminal stage stalled rows m e h = h
  retry_or_go-IsTerminal stage done rows m e h = h

  abbrev Split : List (Stage W) → Stage W → List StageRow → Type 0
  Split stages stage rows =
      (before : List (Stage W)) × (after : List (Stage W)) × (stages ≡ before ++ stage ∷ after)
      × (All (λ s. IsTerminal depth s.name rows) before)

  dispatch-StartsInOrder :
      (stages : List (Stage W)) (stage : Stage W) (d : Bool × List StageRow) (b : Bootstrap W)
      → Split stages stage d.1
      → MayAct stage (stage.status b.world)
      → StartsInOrder caught_up stages b (dispatch now stage d b)
  unfolding record_dispatch row_reports_gave_up row_reports_done
  dispatch-StartsInOrder stages stage (false, rows) b s act = inl refl
  dispatch-StartsInOrder stages stage (true, rows) b (before, after, split, terminal) act = inr (
    before,
    stage,
    after,
    split,
    All-map depth rows (record_dispatch now stage.name rows) before
        (λ (n : StageName).
          peek-save_keeps
            (λ (r : StageRow). (row_reports_gave_up r || row_reports_done n r depth) ≡ true) n
            stage.name stamped rows (λ r. refl) (λ h. h))
        terminal,
    act,
    refl,
    ap (λ (r : StageRow). r.last_dispatch_at) (peek-save_self stage.name stamped rows (λ r. refl)),
    refl,
  )
    where
      stamped : StageRow → StageRow
      stamped r = record r { last_dispatch_at = some now }

  gated-StartsInOrder :
      (stages : List (Stage W)) (gate : GateState) (stage : Stage W) (state : StageState)
      (b : Bootstrap W)
      → Split stages stage b.rows
      → is_terminal depth stage.name b.rows ≡ false
      → MayAct stage (stage.status b.world)
      → StartsInOrder gate stages b (gated now stage state gate b)
  gated-StartsInOrder stages caught_up stage state b (before, after, split, terminal) e act =
      let d : Bool × List StageRow = retry_or_go now stage state b.rows in
      dispatch-StartsInOrder stages stage d b
        (
          before,
          after,
          split,
          All-map depth b.rows d.1 before
              (λ (n : StageName). retry_or_go-IsTerminal stage state b.rows n e) terminal,
        )
        act
  gated-StartsInOrder stages (not_caught_up code) stage state b s e act = inl refl

  on_status-StartsInOrder :
      (stages : List (Stage W)) (gate : GateState) (stage : Stage W) (status : Option StageState)
      (b : Bootstrap W)
      → Split stages stage b.rows
      → is_terminal depth stage.name b.rows ≡ false
      → stage.status b.world ≡ status
      → StartsInOrder gate stages b (on_status now gate stage status b)
  on_status-StartsInOrder stages gate stage none b s e h = inl refl
  on_status-StartsInOrder stages gate stage (some state) b s e h =
      elim (Bool-cases (is_left_alone stage state)) [
        | inl alone ↦ rw alone (inl refl)
        | inr acted ↦ rw acted (
            gated-StartsInOrder stages gate stage state (record b { gate_state = some gate }) s e
              (rw h (acted-MayAct stage state acted)))
      ]

  on_pick-StartsInOrder :
      (stages : List (Stage W)) (gate : GateState) (p : Pick W × List StageRow) (b : Bootstrap W)
      → PickIsInOrder depth now b.world stages p
      → StartsInOrder gate stages b (on_pick now gate p b)
  on_pick-StartsInOrder stages gate (pick_raised, rows) b h = inl refl
  on_pick-StartsInOrder stages gate (nothing_left, rows) b h = inl refl
  on_pick-StartsInOrder stages gate (picked stage, rows) b
        (before, after, split, terminal, open_row) =
      let started : List StageRow = with_row stage.name rows in
      let same : (n : StageName) → peek_stage_row n started ≡ peek_stage_row n rows =
        λ (n : StageName). peek-with_row n stage.name rows in
      on_status-StartsInOrder stages gate stage (stage.status b.world) (record b { rows = started })
        (
          before,
          after,
          split,
          All-map depth rows started before (λ (n : StageName) h. rw (same n) h) terminal,
        )
        (rw (same stage.name) open_row) refl

-- A tick starts nothing, or it starts one stage: one that may be acted on, while the indexer is caught
-- up, with the rows of all stages before it terminal; the start is stamped.
pub run_tick-StartsInOrder :
    {W : Type 0} (cfg : TickSettings) (now : ℕ) (reply : StatusReply) (stages : List (Stage W))
    (b : Bootstrap W)
    → StartsInOrder cfg.daily_depth now
        (check_indexer cfg.settle_minutes now reply)
        stages
        b
        (run_tick cfg now reply stages b)
unfolding run_tick
run_tick-StartsInOrder cfg now reply stages b =
    elim (Bool-cases (not (cfg.enable_analytics && cfg.auto_backfill))) [
      | inl off ↦ rw off (inl refl)
      | inr on ↦ elim (Bool-cases (bootstrap_complete cfg.daily_depth b.rows)) [
        | inl complete ↦ rw (on, complete) (inl refl)
        | inr left ↦
            let reopened : List StageRow = maybe_reopen_daily cfg.daily_depth b.rows in
            rw (on, left)
              (on_pick-StartsInOrder cfg.daily_depth now stages
                (check_indexer cfg.settle_minutes now reply)
                (pick_current_stage now cfg.daily_depth b.world stages reopened) b
                (pick_current_stage-PickIsInOrder cfg.daily_depth now b.world stages reopened))
      ]
    ]
