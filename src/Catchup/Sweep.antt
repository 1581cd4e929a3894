-- ===== src/Catchup/Sweep.antt =====
-- `_catch_up_days` of safe_transaction_service/analytics/catchup/sweeper.py.
use safe_transaction_service.Common.{
  ℕ, zero, suc, ◌-◌, ◌/◌, Bool, true, false, not, ◌&&◌, Option, none, some, List, [], ◌∷◌, ◌++◌,
  leb, if◌then◌else◌, select, take,
}
use safe_transaction_service.Catchup.States.{
  Code, DayStatus, done, incomplete, deferred, gave_up, DayState, DayResult, is_unset,
  get_day_state, ensure_day_states, record_attempt, mark_day_succeeded, mark_gave_up,
  mark_day_deferred,
}
use safe_transaction_service.Catchup.Gate.{IndexerStatus, ensure_day_settled}
use safe_transaction_service.Catchup.Settings.{CatchupSettings}
use safe_transaction_service.Catchup.Day.{
  Metrics, World, Upsert, gate_code, compute_day, select_failed_days,
}

-- The days that `_catch_up_days` returns, and whether a live backfill skipped the run.
pub record Report : Type 0 where
  pub days_fixed : List ℕ
  pub days_deferred : List (ℕ × Option Code)
  pub days_incomplete : List ℕ
  pub days_given_up : List ℕ
  pub skipped : Bool

abbrev pub empty_report : Report
empty_report = record {
  days_fixed = [];
  days_deferred = [];
  days_incomplete = [];
  days_given_up = [];
  skipped = false;
}

-- From the oldest day to yesterday.
abbrev pub window : ℕ → ℕ → List ℕ
window today zero = []
window today (suc n) = (today - suc n) ∷ window today n

abbrev pub window_since : ℕ → List ℕ → Option ℕ → List ℕ
window_since today days none = []
window_since today days (some first) = select (leb first) days

unfoldable pub candidates : CatchupSettings → ℕ → Metrics → List ℕ
unfolding select_failed_days
candidates cfg now m =
    let today = now / 86400 in
    select_failed_days m.completed (window_since today (window today cfg.window_days) m.first_day)

-- Every candidate has a row; a day without one would be in neither list.
abbrev pub is_exhausted : CatchupSettings → Option DayState → Bool
is_exhausted cfg none = false
is_exhausted cfg (some s) = leb cfg.max_attempts s.attempts

abbrev pub is_reached : ℕ → Option ℕ → Bool
is_reached now none = true
is_reached now (some t) = leb t now

abbrev pub is_due : CatchupSettings → ℕ → Option DayState → Bool
is_due cfg now none = false
is_due cfg now (some s) = not (leb cfg.max_attempts s.attempts) && is_reached now s.next_attempt_at

abbrev pub insert_day : ℕ → List ℕ → List ℕ
insert_day d [] = d ∷ []
insert_day d (e ∷ es) = if leb d e then d ∷ e ∷ es else e ∷ insert_day d es

abbrev pub sort_days : List ℕ → List ℕ
sort_days [] = []
sort_days (d ∷ ds) = insert_day d (sort_days ds)

-- The days that are due, of a snapshot of the rows.
unfoldable pub due_days : CatchupSettings → ℕ → List DayState → List ℕ → List ℕ
unfolding get_day_state
due_days cfg now states days =
    sort_days (select (λ day. is_due cfg now (get_day_state day states)) days)

abbrev pub is_ready : CatchupSettings → Option IndexerStatus → ℕ → Bool
is_ready cfg status day = is_unset (gate_code cfg.settle_minutes day status)

-- The oldest days that are due and that the gate lets through.
unfoldable pub selected_days :
    CatchupSettings → ℕ → Option IndexerStatus → List DayState → List ℕ → List ℕ
unfolding due_days ensure_day_settled
selected_days cfg now status states days =
    take cfg.max_days_per_run (select (is_ready cfg status) (due_days cfg now states days))

unfoldable pub give_up_each : ℕ → List ℕ → List DayState → List DayState
unfolding mark_gave_up
give_up_each now [] rows = rows
give_up_each now (day ∷ days) rows = give_up_each now days (mark_gave_up day now rows).1

abbrev pub defer_day : ℕ → Option Code → List DayState → List DayState
defer_day day none rows = rows
defer_day day (some code) rows = mark_day_deferred day code rows

unfoldable pub defer_each :
    CatchupSettings → Option IndexerStatus → List ℕ → List DayState → List DayState
unfolding mark_day_deferred ensure_day_settled
defer_each cfg status [] rows = rows
defer_each cfg status (day ∷ days) rows =
    defer_each cfg status days (defer_day day (gate_code cfg.settle_minutes day status) rows)

abbrev pub deferral : ℕ → Option Code → List (ℕ × Option Code)
deferral day none = []
deferral day (some code) = (day, some code) ∷ []

unfoldable pub deferrals : CatchupSettings → Option IndexerStatus → List ℕ → List (ℕ × Option Code)
unfolding ensure_day_settled
deferrals cfg status [] = []
deferrals cfg status (day ∷ days) =
    deferral day (gate_code cfg.settle_minutes day status) ++ deferrals cfg status days

-- Only the populators that failed are retried, once the core is done.
abbrev pub failed_only : Option Bool → List ℕ → Option (List ℕ)
failed_only (some true) (step ∷ steps) = some (step ∷ steps)
failed_only _ _ = none

abbrev pub retry_only : Option DayState → Option (List ℕ)
retry_only none = none
retry_only (some s) = failed_only s.core_ok s.failed_steps

abbrev pub add_fixed : ℕ → Report × World → Report × World
add_fixed day (r, w) = (
  record r { days_fixed = r.days_fixed ++ day ∷ [] },
  record w { states = mark_day_succeeded day w.states },
)

abbrev pub add_incomplete : ℕ → Report → Report
add_incomplete day r = record r { days_incomplete = r.days_incomplete ++ day ∷ [] }

abbrev pub by_status : ℕ → DayStatus → Option Code → Report × World → Report × World
by_status day done code rw' = add_fixed day rw'
by_status day incomplete code (r, w) = (add_incomplete day r, w)
by_status day deferred code (r, w) =
    (record r { days_deferred = r.days_deferred ++ (day, code) ∷ [] }, w)
by_status day gave_up code (r, w) =
    (record r { days_deferred = r.days_deferred ++ (day, code) ∷ [] }, w)

abbrev pub note_result : ℕ → Option DayResult × World → Report → Report × World
note_result day (none, w) r = (add_incomplete day r, w)
note_result day (some result, w) r = by_status day result.status result.code (r, w)

unfoldable pub compute_each :
    Upsert
    → CatchupSettings
    → ℕ
    → Option IndexerStatus
    → List DayState
    → List ℕ
    → Report × World
    → Report × World
unfolding get_day_state record_attempt compute_day mark_day_succeeded
compute_each upsert cfg now status snapshot [] rw' = rw'
compute_each upsert cfg now status snapshot (day ∷ days) (r, w) =
    let counted : World = record w { states = (record_attempt day now w.states).1 } in
    let only = retry_only (get_day_state day snapshot) in
    let computed = compute_day upsert cfg.settle_minutes false day status only counted in
    compute_each upsert cfg now status snapshot days (note_result day computed r)

abbrev pub sweep :
    Upsert → CatchupSettings → ℕ → Option IndexerStatus → List ℕ → World → Report × World
sweep upsert cfg now status days w =
    let snapshot = ensure_day_states days w.states in
    let given_up = select (λ day. is_exhausted cfg (get_day_state day snapshot)) days in
    let due = due_days cfg now snapshot days in
    let marked = defer_each cfg status due (give_up_each now given_up snapshot) in
    let report : Report = record empty_report {
      days_given_up = given_up;
      days_deferred = deferrals cfg status due;
    } in
    compute_each upsert cfg now status snapshot (selected_days cfg now status snapshot days)
      (report, record w { states = marked })

abbrev pub sweep_candidates :
    Upsert → CatchupSettings → ℕ → Option IndexerStatus → List ℕ → World → Report × World
sweep_candidates upsert cfg now status [] w = (empty_report, w)
sweep_candidates upsert cfg now status (day ∷ days) w = sweep upsert cfg now status (day ∷ days) w

-- The Boolean is `_backfill_is_live`.
unfoldable pub catch_up_days :
    Upsert → CatchupSettings → ℕ → Option IndexerStatus → Bool → World → Report × World
unfolding candidates get_day_state ensure_day_states due_days selected_days give_up_each defer_each
    deferrals compute_each
catch_up_days upsert cfg now status true w = (record empty_report { skipped = true }, w)
catch_up_days upsert cfg now status false w =
    sweep_candidates upsert cfg now status (candidates cfg now w.metrics) w
