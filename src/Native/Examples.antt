-- ===== src/Native/Examples.antt =====
-- Tests and witnesses of the native balance runs (safe_transaction_service/analytics/tasks_shards.py).
use safe_transaction_service.Common.{ℕ, ◌≡◌, refl, arith, true, false, none, some, [], ◌∷◌}
use safe_transaction_service.Native.{
  finished, has_row, NativeStore, NativeRun, ChunkTask, completes, redispatch, load_native_run,
  save_native_run, put_native_run, beating, new_native_run, backfill_native_balance_chunk,
  start_native_balance_backfill_run, safe_addresses_after, seed_missing, write_watermark,
}
use safe_transaction_service.Native.Single.{IsSingle}
use safe_transaction_service.Native.Complete.{finished_run_covers}
use safe_transaction_service.Native.Steps.{executes, resumes, here, more, started-IsSingle}

abbrev three_safes : NativeStore
three_safes = record {
  runs = [];
  pointer = none;
  queue = [];
  db = record {
    safes = 11 ∷ 12 ∷ 13 ∷ [];
    rows = record { safe_address = 12; updated_to_block = 40 } ∷ [];
    watermark = none;
  };
}

abbrev started_three : NativeStore
started_three = start_native_balance_backfill_run 5 7 50 2 3 three_safes

abbrev first_task : ChunkTask
first_task = record { task_run = 7; task_seq = 1 }

abbrev idle_three : NativeStore
idle_three = record started_three { queue = [] }

abbrev lost_race : NativeStore
lost_race = backfill_native_balance_chunk 6 false completes first_task idle_three

abbrev first_run : NativeRun
first_run = beating 6 (beating 5 (new_native_run 5 7 50 2 3))

-- A chunk that loses the lock is queued again, and the run is dispatched again meanwhile.
started-IsSingle_example : IsSingle 7 (redispatch 900 first_run lost_race)
unfolding start_native_balance_backfill_run save_native_run put_native_run
    backfill_native_balance_chunk load_native_run
started-IsSingle_example =
    started-IsSingle {Change = λ a b. a ≡ b} 5 7 50 2 3 three_safes refl refl (
      more (executes 6 false completes first_task [] [] started_three)
        (more (resumes 900 first_run lost_race refl) here))

abbrev chunk_of : ℕ → NativeStore → NativeStore
chunk_of seq s =
    backfill_native_balance_chunk 6 true completes (record { task_run = 7; task_seq = seq })
      (record s { queue = [] })

abbrev after_one : NativeStore
after_one = chunk_of 1 started_three

abbrev after_two : NativeStore
after_two = chunk_of 2 after_one

abbrev after_three : NativeStore
after_three = chunk_of 3 after_two

abbrev last_run : NativeRun
last_run = record {
  run_id = 7;
  head = 50;
  chunk_size = 2;
  total_safes_at_start = 3;
  started_at = 5;
  finished_at = some 6;
  state = finished;
  dispatch_seq = 3;
  cursor = some 13;
  chunks_done = 2;
  safes_seen = 3;
  safes_seeded = 2;
  safes_already_present = 1;
  watermark_written = true;
  heartbeat_at = some 6;
}

finished_run_covers_example : has_row 13 after_three.db.rows ≡ true
unfolding start_native_balance_backfill_run save_native_run put_native_run
    backfill_native_balance_chunk load_native_run redispatch safe_addresses_after seed_missing
    write_watermark
finished_run_covers_example =
    finished_run_covers 5 7 50 2 3 three_safes last_run 13 (omega arith)
      ((omega arith, (omega arith, tt)), ((omega arith, tt), (tt, refl)))
      (more (executes 6 true completes (record { task_run = 7; task_seq = 1 }) [] [] started_three)
        (more (executes 6 true completes (record { task_run = 7; task_seq = 2 }) [] [] after_one) (
          more (executes 6 true completes (record { task_run = 7; task_seq = 3 }) [] [] after_two)
            here)))
      refl refl refl
