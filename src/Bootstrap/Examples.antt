-- ===== src/Bootstrap/Examples.antt =====
-- Ticks of the bootstrap on concrete rows.
use safe_transaction_service.Common.{ℕ, ◌+◌, ◌≡◌, refl, true, false, none, some, List, [], ◌∷◌, pos}
use safe_transaction_service.Catchup.{ensure_day_settled}
use safe_transaction_service.Bootstrap.{
  peek_current_stage, nothing_left, StageName, all_complete, find_stage_row, maybe_reopen_daily,
  save_stage_row, pick_current_stage, row_reports_gave_up, row_reports_done, record_dispatch, daily,
  native, erc20, StageRow, fresh_row, Stage, StageState, pending, failed, StatusReply, position,
  check_indexer, Bootstrap, TickSettings, run_tick, bootstrap_complete, reset_stage, peek_stage_row,
}
use safe_transaction_service.Bootstrap.Complete.{IsShownOver, report_complete}
use safe_transaction_service.Bootstrap.Capped.{IsCapped}
use safe_transaction_service.Bootstrap.GivesUp.{failing}
use safe_transaction_service.Bootstrap.InOrder.{StartsInOrder, run_tick-StartsInOrder}
use safe_transaction_service.Bootstrap.Steps.{tick, reset, here, more, no_rows, steps-IsCapped}
use safe_transaction_service.Catchup.{select_failed_days}
use safe_transaction_service.Backfill.{Run, Store, new_run, split_days, load_run, shard_ok}
use safe_transaction_service.Backfill.Quiet.{call_back_all}
use safe_transaction_service.Bootstrap.{
  DailyWorld, stalled, missing_days, daily_is_done, daily_status, daily_start_or_resume,
  current_run, any_lease_held, run_reference, heartbeat_of,
}
use safe_transaction_service.Bootstrap.Window.{is_nil, daily_is_done_lem}
use safe_transaction_service.Bootstrap.Replaced.{daily_start_or_resume_replaces}

-- The world counts the starts; the stage is never done.
abbrev stage_of : StageName → StageState → Stage ℕ
stage_of n state = record {
  name = n;
  resumed_externally = false;
  is_done = λ w. some false;
  status = λ w. some state;
  start_or_resume = λ w. w + 1;
}

abbrev settings : TickSettings
settings = record {
  enable_analytics = true;
  auto_backfill = true;
  daily_depth = 30;
  settle_minutes = 0;
}

-- The indexers are a day ahead.
abbrev ahead : ℕ → StatusReply
ahead t = position (record {
  erc20_block_timestamp = t + 86400;
  master_copies_block_timestamp = t + 86400;
  oldest_unprocessed_ts = none;
})

abbrev given_up : StageRow
given_up = record (fresh_row daily) { consecutive_failures = 3; gave_up_at = some 9 }

abbrev all_over : List StageRow
all_over =
    given_up
    ∷ record (fresh_row native) { completed_at = some 8 }
    ∷ record (fresh_row erc20) { completed_at = some 9 }
    ∷ []

abbrev two_stages : List (Stage ℕ)
two_stages = stage_of daily failed ∷ stage_of native pending ∷ []

abbrev daily_given_up : Bootstrap ℕ
daily_given_up = record { rows = given_up ∷ []; gate_state = none; world = 0 }

-- The daily stage has given up, so the native one is started.
native_started : (run_tick settings 100000 (ahead 100000) two_stages daily_given_up).world ≡ 1
unfolding run_tick bootstrap_complete all_complete find_stage_row maybe_reopen_daily save_stage_row
    pick_current_stage peek_stage_row row_reports_gave_up row_reports_done check_indexer
    ensure_day_settled record_dispatch
native_started = refl

run_tick-StartsInOrder_example :
    StartsInOrder 30 100000
      (check_indexer 0 100000 (ahead 100000))
      two_stages
      daily_given_up
      (run_tick settings 100000 (ahead 100000) two_stages daily_given_up)
run_tick-StartsInOrder_example =
    run_tick-StartsInOrder settings 100000 (ahead 100000) two_stages daily_given_up

-- A tick that counts a failure, then a reset of that stage.
steps-IsCapped_example :
    IsCapped (
      reset_stage daily false (run_tick settings 100000 (ahead 100000) two_stages (no_rows 0)).rows)
steps-IsCapped_example = steps-IsCapped 0 (
    more (tick settings 100000 (ahead 100000) two_stages (no_rows 0)) (
      more (reset daily false (run_tick settings 100000 (ahead 100000) two_stages (no_rows 0)))
        here))

abbrev dispatched_once : Bootstrap ℕ
dispatched_once = record {
  rows = failing daily none 0 none (some 100000) ∷ [];
  gate_state = none;
  world = 1;
}

-- Day 10 of the epoch is today; of the window from 7 to 9 the day 8 is missing.
abbrev old_run : Run
old_run = new_run 100 1 (7 ∷ 8 ∷ 9 ∷ []) (pos 7) false

abbrev one_missing : DailyWorld
one_missing = record {
  now = 864000;
  completed = 7 ∷ 9 ∷ 3 ∷ [];
  store = record { manifests = old_run ∷ []; pointer = some 1; queue = [] };
  leases = [];
  heartbeats = [];
}

missing_one : missing_days 3 one_missing ≡ 8 ∷ []
unfolding missing_days select_failed_days
missing_one = refl

daily_is_done_lem_example : daily_is_done 3 one_missing ≡ is_nil (missing_days 3 one_missing)
daily_is_done_lem_example = daily_is_done_lem 3 one_missing (refl, (refl, (refl, tt)))

abbrev next_id : Store → ℕ
next_id s = 2

is_stalled : daily_status 3 one_missing ≡ stalled
unfolding daily_status daily_is_done current_run load_run any_lease_held run_reference heartbeat_of
    split_days
is_stalled = refl

daily_start_or_resume_replaces_example :
    let s = (daily_start_or_resume 3 true next_id one_missing).store in
    (call_back_all 1 ((true, 864100, shard_ok 7 ∷ [], 0) ∷ []) s).queue ≡ s.queue
unfolding current_run load_run
daily_start_or_resume_replaces_example =
    daily_start_or_resume_replaces 3 true next_id one_missing old_run
      ((true, 864100, shard_ok 7 ∷ [], 0) ∷ []) is_stalled refl (λ s. refl)

all_complete_now : bootstrap_complete 30 all_over ≡ true
unfolding bootstrap_complete all_complete find_stage_row
all_complete_now = refl

report_complete_example :
    (peek_current_stage 30 0 two_stages all_over ≡ nothing_left)
    × (IsShownOver 30 0 all_over (stage_of daily failed)
        × (IsShownOver 30 0 all_over (stage_of native pending) × Unit {0}))
report_complete_example = report_complete 30 0 all_over two_stages all_complete_now
