-- ===== src/Bootstrap/Daily.antt =====
-- `DailyStage` of safe_transaction_service/analytics/bootstrap/daily.py, over the runs of the daily backfill.
use safe_transaction_service.Common.{
  ℕ, zero, suc, ◌+◌, ◌-◌, ◌/◌, Bool, true, false, not, ◌&&◌, ◌||◌, Option, none, some, List, [],
  ◌∷◌, ◌==◌, leb, if◌then◌else◌, contains, pos,
}
use safe_transaction_service.Catchup.{select_failed_days}
use safe_transaction_service.Backfill.{
  Chunk, ChunkState, dispatch_failed, Run, Store, load_run, supersede_backfill_run,
  start_backfill_run,
}
use safe_transaction_service.Backfill
use safe_transaction_service.Bootstrap.Rows.{daily}
use safe_transaction_service.Bootstrap.Tick.{
  Stage, StageState, pending, running, stalled, failed, done,
}

-- A member of the lease set of a run, with its score.
pub record Lease : Type 0 where
  pub lease_run : ℕ
  pub lease_day : ℕ
  pub expires_at : ℕ

-- What the stage reads: the clock, the dates of `DailyMetric` with `completed_at`, the store of the runs,
-- the leases and the heartbeats of runs, the last first.
pub record DailyWorld : Type 0 where
  pub now : ℕ
  pub completed : List ℕ
  pub store : Store
  pub leases : List Lease
  pub heartbeats : List (ℕ × ℕ)

abbrev pub any_chunk : (Chunk → Bool) → List Chunk → Bool
any_chunk p [] = false
any_chunk p (c ∷ cs) = p c || any_chunk p cs

abbrev pub is_dispatch_failed : ChunkState → Bool
is_dispatch_failed dispatch_failed = true
is_dispatch_failed Backfill.pending = false
is_dispatch_failed Backfill.running = false
is_dispatch_failed Backfill.done = false

unfoldable pub run_has_dispatch_failure : Run → Bool
run_has_dispatch_failure run = any_chunk (λ c. is_dispatch_failed c.state) run.chunks

-- Some day is not completed.
abbrev pub any_incomplete : List ℕ → List ℕ → Bool
any_incomplete completed [] = false
any_incomplete completed (d ∷ ds) = not (contains d completed) || any_incomplete completed ds

unfoldable pub run_has_incomplete_day : List ℕ → Run → Bool
run_has_incomplete_day completed run = any_chunk (λ c. any_incomplete completed c.days) run.chunks

unfoldable pub any_lease_held : ℕ → ℕ → List Lease → Bool
any_lease_held now id [] = false
any_lease_held now id (l ∷ ls) =
    (l.lease_run == id && leb now l.expires_at) || any_lease_held now id ls

unfoldable pub heartbeat_of : ℕ → List (ℕ × ℕ) → Option ℕ
heartbeat_of id [] = none
heartbeat_of id ((i, t) ∷ hs) = if i == id then some t else heartbeat_of id hs

abbrev pub is_running : ChunkState → Bool
is_running Backfill.running = true
is_running dispatch_failed = false
is_running Backfill.pending = false
is_running Backfill.done = false

abbrev pub time_or : Option ℕ → ℕ → ℕ
time_or none t = t
time_or (some u) t = u

-- The dispatch of the first running chunk, or the start of the run.
abbrev pub dispatched_or : List Chunk → ℕ → ℕ
dispatched_or [] started = started
dispatched_or (c ∷ cs) started =
    let later = dispatched_or cs started in
    if is_running c.state then time_or c.dispatched_at started else later

unfoldable pub run_reference : List (ℕ × ℕ) → Run → ℕ
unfolding heartbeat_of
run_reference heartbeats run =
    time_or (heartbeat_of run.run_id heartbeats) (dispatched_or run.chunks run.started_at)

abbrev pub stale_seconds : ℕ
stale_seconds = 300

-- `count` days from `start` on.
abbrev pub days_from : ℕ → ℕ → List ℕ
days_from start zero = []
days_from start (suc n) = start ∷ days_from (suc start) n

abbrev pub dates_in_range : ℕ → ℕ → List ℕ
dates_in_range start end = days_from start (suc end - start)

abbrev pub count_between : ℕ → ℕ → List ℕ → ℕ
count_between start end [] = 0
count_between start end (d ∷ ds) =
    let rest = count_between start end ds in if leb start d && leb d end then suc rest else rest

abbrev pub superseding : ℕ → Option Run → Store → Store
superseding now none s = s
superseding now (some run) s = supersede_backfill_run now run.run_id s

module _ (accepts : Bool) (fresh_id : Store → ℕ) where
  -- `DAILY_STAGE_CHUNK_DAYS` is 7.
  abbrev pub dispatch_missing : ℕ → List ℕ → Store → Store
  dispatch_missing now [] s = s
  dispatch_missing now (d ∷ ds) s =
      start_backfill_run accepts now (fresh_id s) (d ∷ ds) (pos 7) false s

module _ (depth : ℕ) where
  -- `_window`; the day of a time is its quotient by 86400.
  abbrev pub window_start : DailyWorld → ℕ
  window_start w = w.now / 86400 - depth

  abbrev pub window_end : DailyWorld → ℕ
  window_end w = w.now / 86400 - 1

  unfoldable pub daily_is_done : DailyWorld → Bool
  daily_is_done w =
      leb (suc (window_end w) - window_start w)
        (count_between (window_start w) (window_end w) w.completed)

  abbrev pub found_run : Option ℕ → List Run → Option Run
  found_run none runs = none
  found_run (some id) runs = load_run id runs

  unfoldable pub current_run : DailyWorld → Option Run
  current_run w = found_run w.store.pointer w.store.manifests

  abbrev pub finished_status : DailyWorld → Run → StageState
  finished_status w run =
      if run.superseded
      then pending
      else if run_has_dispatch_failure run || run_has_incomplete_day w.completed run
      then failed
      else pending

  abbrev pub live_status : DailyWorld → Run → StageState
  live_status w run =
      if any_lease_held w.now run.run_id w.leases
      then running
      else if leb (run_reference w.heartbeats run + stale_seconds) w.now
      then stalled
      else running

  abbrev pub by_finish : DailyWorld → Run → Option ℕ → StageState
  by_finish w run (some t) = finished_status w run
  by_finish w run none = live_status w run

  abbrev pub by_run : DailyWorld → Option Run → StageState
  by_run w none = pending
  by_run w (some run) = by_finish w run run.finished_at

  unfoldable pub daily_status : DailyWorld → StageState
  daily_status w = if daily_is_done w then done else by_run w (current_run w)

  -- The days that are dispatched.
  unfoldable pub missing_days : DailyWorld → List ℕ
  missing_days w = select_failed_days w.completed (dates_in_range (window_start w) (window_end w))

  module _ (accepts : Bool) (fresh_id : Store → ℕ) where
    abbrev pub start_from : StageState → DailyWorld → Store
    start_from done w = w.store
    start_from running w = w.store
    start_from stalled w =
        dispatch_missing accepts fresh_id w.now (missing_days w)
          (superseding w.now (current_run w) w.store)
    start_from pending w = dispatch_missing accepts fresh_id w.now (missing_days w) w.store
    start_from failed w = dispatch_missing accepts fresh_id w.now (missing_days w) w.store

    unfoldable pub daily_start_or_resume : DailyWorld → DailyWorld
    daily_start_or_resume w = record w { store = start_from (daily_status w) w }

    abbrev pub daily_stage : Stage DailyWorld
    daily_stage = record {
      name = daily;
      resumed_externally = false;
      is_done = λ w. some (daily_is_done w);
      status = λ w. some (daily_status w);
      start_or_resume = daily_start_or_resume;
    }
