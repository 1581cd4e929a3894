-- ===== src/Catchup/Attempts.antt =====
-- The steps of a pass of the sweeper and the attempts of its days (`_catch_up_days` of
-- safe_transaction_service/analytics/catchup/sweeper.py).
use safe_transaction_service.Common.{
  ℕ, Bool, true, false, not, Option, none, some, List, [], ◌∷◌, All, ◌==◌,
}
use safe_transaction_service.Catchup.{
  DayState, DayResult, DayStatus, done, incomplete, deferred, gave_up, Code, IndexerStatus,
  CatchupSettings, World, Upsert, Outcome, upserted, escaped, Report, record_attempt,
  mark_day_succeeded, compute_day, after_gate, reset_by, store_outcome, gate_code, get_day_state,
  give_up_each, defer_day, defer_each, retry_only, note_result, by_status, compute_each,
}
use safe_transaction_service.Catchup.Room.{
  HasRoom, select-HasRoom, record_day_result-HasRoom, reset_core_ok-HasRoom,
  mark_day_deferred-HasRoom, mark_gave_up-HasRoom, attempt-HasRoom,
}

module _ (most : ℕ) (days : List ℕ) where
  pub give_up_each-HasRoom :
      (now : ℕ) (given : List ℕ) (rows : List DayState)
      → All (HasRoom most days) rows
      → All (HasRoom most days) (give_up_each now given rows)
  unfolding give_up_each
  give_up_each-HasRoom now [] rows hs = hs
  give_up_each-HasRoom now (d ∷ ds) rows hs =
      give_up_each-HasRoom now ds _ (mark_gave_up-HasRoom most days d now rows hs)

  defer_day-HasRoom :
      (day : ℕ) (o : Option Code) (rows : List DayState)
      → All (HasRoom most days) rows
      → All (HasRoom most days) (defer_day day o rows)
  defer_day-HasRoom day none rows hs = hs
  defer_day-HasRoom day (some c) rows hs = mark_day_deferred-HasRoom most days day c rows hs

  pub defer_each-HasRoom :
      (cfg : CatchupSettings) (status : Option IndexerStatus) (due : List ℕ) (rows : List DayState)
      → All (HasRoom most days) rows
      → All (HasRoom most days) (defer_each cfg status due rows)
  unfolding defer_each
  defer_each-HasRoom cfg status [] rows hs = hs
  defer_each-HasRoom cfg status (d ∷ ds) rows hs =
      defer_each-HasRoom cfg status ds _
        (defer_day-HasRoom d (gate_code cfg.settle_minutes d status) rows hs)

  store_outcome-HasRoom :
      (day : ℕ) (out : Outcome) (w : World)
      → All (HasRoom most days) w.states
      → All (HasRoom most days) (store_outcome day out w).1.states
  store_outcome-HasRoom day (upserted r) w hs =
      record_day_result-HasRoom most days day r w.states hs
  store_outcome-HasRoom day escaped w hs = hs

  reset_by-HasRoom :
      (was_reset : Bool) (day : ℕ) (rows : List DayState)
      → All (HasRoom most days) rows
      → All (HasRoom most days) (reset_by was_reset day rows)
  reset_by-HasRoom true day rows hs = reset_core_ok-HasRoom most days day rows hs
  reset_by-HasRoom false day rows hs = hs

  after_gate-HasRoom :
      (upsert : Upsert) (day : ℕ) (only : Option (List ℕ)) (o : Option Code) (w : World)
      → All (HasRoom most days) w.states
      → All (HasRoom most days) (after_gate upsert day only o w).1.states
  after_gate-HasRoom upsert day only none w hs =
      let (out, was_reset, m) = upsert day only (get_day_state day w.states) w.metrics in
      store_outcome-HasRoom day out
        (record w { states = reset_by was_reset day w.states; metrics = m })
        (reset_by-HasRoom was_reset day w.states hs)
  after_gate-HasRoom upsert day only (some code) w hs = hs

  by_status-HasRoom :
      (day : ℕ) (v : DayStatus) (code : Option Code) (r : Report) (w : World)
      → All (HasRoom most days) w.states
      → All (HasRoom most days) (by_status day v code (r, w)).1.states
  unfolding mark_day_succeeded
  by_status-HasRoom day done code r w hs =
      select-HasRoom most days (λ s. not (s.key == day)) w.states hs
  by_status-HasRoom day incomplete code r w hs = hs
  by_status-HasRoom day deferred code r w hs = hs
  by_status-HasRoom day gave_up code r w hs = hs

  note_result-HasRoom :
      (day : ℕ) (out : Option DayResult × World) (r : Report)
      → All (HasRoom most days) out.1.states
      → All (HasRoom most days) (note_result day out r).1.states
  note_result-HasRoom day (none, w) r hs = hs
  note_result-HasRoom day (some result, w) r hs =
      by_status-HasRoom day result.status result.code r w hs

pub compute_each-HasRoom :
    (most : ℕ) (upsert : Upsert) (cfg : CatchupSettings) (now : ℕ) (status : Option IndexerStatus)
    (snapshot : List DayState) (days : List ℕ) (r : Report) (w : World)
    → All (HasRoom most days) w.states
    → All (HasRoom most []) (compute_each upsert cfg now status snapshot days (r, w)).1.states
unfolding compute_each compute_day record_attempt
compute_each-HasRoom most upsert cfg now status snapshot [] r w hs = hs
compute_each-HasRoom most upsert cfg now status snapshot (day ∷ days) r w hs =
    let counted : World = record w { states = (record_attempt day now w.states).1 } in
    let only = retry_only (get_day_state day snapshot) in
    let computed = compute_day upsert cfg.settle_minutes false day status only counted in
    let noted = note_result day computed r in
    compute_each-HasRoom most upsert cfg now status snapshot days noted.0 noted.1 (
      note_result-HasRoom most days day computed r (
        after_gate-HasRoom most days upsert day only (gate_code cfg.settle_minutes day status)
          counted (attempt-HasRoom most day days now w.states hs)))
