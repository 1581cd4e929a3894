-- ===== src/Bootstrap/Steps.antt =====
-- The rows of the stages under the ticks, the resets of a manual start, and all else that goes on
-- (safe_transaction_service/analytics/bootstrap/).
use safe_transaction_service.Common.{ℕ, ◌≡◌, refl, Bool, true, false, inl, List, [], arith, none}
use safe_transaction_service.Bootstrap.{
  StageName, StageRow, Stage, StatusReply, TickSettings, Bootstrap, run_tick, reset_stage,
  reset_row, peek_stage_row,
}
use safe_transaction_service.Bootstrap.Capped.{Capped, IsCapped, save-IsCapped, run_tick-IsCapped}

reset_row_keeps :
    (n : StageName) (wiped : Bool) (r : StageRow) → (reset_row n wiped r).name ≡ r.name
reset_row_keeps n true r = refl
reset_row_keeps n false r = refl

reset_row-Capped : (n : StageName) (wiped : Bool) (r : StageRow) → Capped (reset_row n wiped r)
reset_row-Capped n true r = inl (omega arith)
reset_row-Capped n false r = inl (omega arith)

module _ {W : Type 0} where
  infix 40 ◌⟶◌ ◌⟶*◌
  pub data ◌⟶◌ : Bootstrap W → Bootstrap W → Type 0 where
    tick :
        (cfg : TickSettings) (now : ℕ) (reply : StatusReply) (stages : List (Stage W))
        (b : Bootstrap W)
        → b ⟶ run_tick cfg now reply stages b
    reset :
        (n : StageName) (data_wiped : Bool) (b : Bootstrap W)
        → b ⟶ record b { rows = reset_stage n data_wiped b.rows }
    elsewhere : (w : W) (b : Bootstrap W) → b ⟶ record b { world = w }

  pub data ◌⟶*◌ : Bootstrap W → Bootstrap W → Type 0 where
    here : {b : Bootstrap W} → b ⟶* b
    more : {a b c : Bootstrap W} → a ⟶ b → b ⟶* c → a ⟶* c

  ⟶-IsCapped : {a b : Bootstrap W} → a ⟶ b → IsCapped a.rows → IsCapped b.rows
  unfolding reset_stage
  ⟶-IsCapped (tick cfg now reply stages b) h = run_tick-IsCapped now cfg reply stages b h
  ⟶-IsCapped (reset n wiped b) h =
      save-IsCapped n (reset_row n wiped) b.rows (reset_row_keeps n wiped)
        (λ k. reset_row-Capped n wiped _) h
  ⟶-IsCapped (elsewhere w b) h = h

  ⟶*-IsCapped : {a b : Bootstrap W} → a ⟶* b → IsCapped a.rows → IsCapped b.rows
  ⟶*-IsCapped here h = h
  ⟶*-IsCapped (more e es) h = ⟶*-IsCapped es (⟶-IsCapped e h)

  abbrev pub no_rows : W → Bootstrap W
  no_rows w = record { rows = []; gate_state = none; world = w }

  -- From an empty table on, whatever ticks, resets and other changes happen, and whatever the stages do, the row
  -- of a stage counts at most two failures in a row, or three and is given up.
  pub steps-IsCapped : (w : W) {b : Bootstrap W} → no_rows w ⟶* b → IsCapped b.rows
  unfolding peek_stage_row
  steps-IsCapped w es = ⟶*-IsCapped es (record {
    daily_capped = inl (omega arith);
    native_capped = inl (omega arith);
    erc20_capped = inl (omega arith);
  })
