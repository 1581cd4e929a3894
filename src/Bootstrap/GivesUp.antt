-- ===== src/Bootstrap/GivesUp.antt =====
-- A stage that fails (safe_transaction_service/analytics/bootstrap/tick.py), over several ticks.
use safe_transaction_service.Common.{
  ℕ, ◌≡◌, Bool, true, false, ◌&&◌, Option, none, some, List, [], ◌∷◌,
}
use safe_transaction_service.Bootstrap.{
  StageName, StageRow, peek_stage_row, Stage, failed, run_tick, Bootstrap, TickSettings,
  StatusReply,
}

-- The row of a stage that is neither completed nor given up.
abbrev pub failing : StageName → Option ℕ → ℕ → Option ℕ → Option ℕ → StageRow
failing n depth failures failure dispatched = record {
  name = n;
  consecutive_failures = failures;
  last_failure_at = failure;
  last_dispatch_at = dispatched;
  gave_up_at = none;
  completed_at = none;
  completed_depth = depth;
}

abbrev dispatched_row : ℕ → Bool × StageRow → StageRow
dispatched_row now (true, r) = record r { last_dispatch_at = some now }
dispatched_row now (false, r) = r

abbrev world_after : {W : Type 0} → Stage W → Bool → W → W
world_after stage true w = stage.start_or_resume w
world_after stage false w = w

abbrev pub run_ticks :
    {W : Type 0}
    → TickSettings
    → List (Stage W)
    → (ℕ → StatusReply)
    → List ℕ
    → Bootstrap W
    → Bootstrap W
run_ticks cfg stages reply [] b = b
run_ticks cfg stages reply (t ∷ ts) b =
    run_ticks cfg stages reply ts (run_tick cfg t (reply t) stages b)

module _ {W : Type 0} (cfg : TickSettings) (stage : Stage W) (others : List (Stage W))
    (enabled : (cfg.enable_analytics && cfg.auto_backfill) ≡ true)
    (undone : (w : W) → stage.is_done w ≡ some false)
    (fails : (w : W) → stage.status w ≡ some failed) where
  abbrev Becomes : ℕ → Bool × StageRow → Bootstrap W → Bootstrap W → Type 0
  Becomes now (go, r) b b' =
      (peek_stage_row stage.name b'.rows ≡ dispatched_row now (go, r))
      × (b'.world ≡ world_after stage go b.world)
