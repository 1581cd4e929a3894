-- ===== src/Native/Chunk.antt =====
-- The runs and their chunks: `backfill_native_balance_chunk` with what it calls, and
-- `start_native_balance_backfill_run` (safe_transaction_service/analytics/tasks_shards.py). The text of an error and
-- the key of a manifest are left out, and a chunk runs from its start to its end as one step: a resume
-- between the release of its lock and its last save is not modelled.
use safe_transaction_service.Common.{
  ℕ, zero, suc, ◌+◌, ◌-◌, ◌/◌, max, Bool, true, false, not, Option, none, some, List, [], ◌∷◌, ◌++◌,
  ◌==◌, leb, if◌then◌else◌, length,
}
use safe_transaction_service.Native.Rollup.{
  RollupDb, safe_addresses_after, seed_missing, seed_first, missing, write_watermark,
  writes_watermark,
}

pub data RunState : Type 0 where
  running finished failed : RunState

pub record NativeRun : Type 0 where
  pub run_id : ℕ
  pub head : ℕ
  pub chunk_size : ℕ
  pub total_safes_at_start : ℕ
  pub started_at : ℕ
  pub finished_at : Option ℕ
  pub state : RunState
  pub dispatch_seq : ℕ
  pub cursor : Option ℕ
  pub chunks_done : ℕ
  pub safes_seen : ℕ
  pub safes_seeded : ℕ
  pub safes_already_present : ℕ
  pub watermark_written : Bool
  pub heartbeat_at : Option ℕ

-- A chunk task in the queue, by its arguments.
pub record ChunkTask : Type 0 where
  pub task_run : ℕ
  pub task_seq : ℕ

-- `pointer` is the run id at `NATIVE_BALANCE_CURSOR_KEY`.
pub record NativeStore : Type 0 where
  pub runs : List NativeRun
  pub pointer : Option ℕ
  pub queue : List ChunkTask
  pub db : RollupDb

unfoldable pub load_native_run : ℕ → List NativeRun → Option NativeRun
load_native_run id [] = none
load_native_run id (r ∷ rs) = if r.run_id == id then some r else load_native_run id rs

unfoldable pub put_native_run : NativeRun → List NativeRun → List NativeRun
put_native_run run [] = run ∷ []
put_native_run run (r ∷ rs) = if r.run_id == run.run_id then run ∷ rs else r ∷ put_native_run run rs

-- The save refreshes the heartbeat.
abbrev pub beating : ℕ → NativeRun → NativeRun
beating now run = record run { heartbeat_at = some now }

unfoldable pub save_native_run : ℕ → NativeRun → NativeStore → NativeStore
save_native_run now run s = record s { runs = put_native_run (beating now run) s.runs }

abbrev pub enqueue : ℕ → ℕ → NativeStore → NativeStore
enqueue id seq s = record s { queue = s.queue ++ record { task_run = id; task_seq = seq } ∷ [] }

abbrev pub bumped : NativeRun → NativeRun
bumped run = record run { dispatch_seq = suc run.dispatch_seq }

-- `next_native_balance_dispatch_seq`, and the dispatch with its value.
unfoldable pub redispatch : ℕ → NativeRun → NativeStore → NativeStore
redispatch now run s =
    enqueue run.run_id (suc run.dispatch_seq) (save_native_run now (bumped run) s)

abbrev pub size_floor : ℕ
size_floor = 250

unfoldable pub halved_or_none : ℕ → ℕ → Option ℕ
halved_or_none current floor = if leb current floor then none else some (max floor (current / 2))

abbrev pub failed_run : ℕ → NativeRun → NativeRun
failed_run now run = record run { state = failed; finished_at = some now }

abbrev pub shrink_to : ℕ → NativeRun → Option ℕ → NativeStore → NativeStore
shrink_to now run none s = save_native_run now (failed_run now run) s
shrink_to now run (some size) s = redispatch now (record run { chunk_size = size }) s

unfoldable pub shrink_or_fail : ℕ → NativeRun → NativeStore → NativeStore
shrink_or_fail now run s = shrink_to now run (halved_or_none run.chunk_size size_floor) s

-- What becomes of the body of the `try`: it ends, or a time limit or another exception stops it, with so many
-- of its rows committed.
pub data Work : Type 0 where
  completes : Work
  times_out : ℕ → Work
  raises : ℕ → Work

abbrev pub worked_db : NativeRun → List ℕ → RollupDb → RollupDb
worked_db run [] db = write_watermark run.head db
worked_db run (a ∷ more) db = seed_missing (a ∷ more) run.head db

abbrev pub finished_run : ℕ → Bool → NativeRun → NativeRun
finished_run now wrote run = record run {
  watermark_written = wrote;
  state = finished;
  finished_at = some now;
}

abbrev pub last_address : ℕ → List ℕ → ℕ
last_address a [] = a
last_address a (b ∷ bs) = last_address b bs

abbrev pub advanced_run : ℕ → List ℕ → RollupDb → NativeRun → NativeRun
advanced_run a more db run =
    let seeded = length (missing (a ∷ more) db.rows) in
    record run {
      cursor = some (last_address a more);
      chunks_done = suc run.chunks_done;
      safes_seen = run.safes_seen + length (a ∷ more);
      safes_seeded = run.safes_seeded + seeded;
      safes_already_present = run.safes_already_present + (length (a ∷ more) - seeded);
    }

abbrev pub after_work : ℕ → NativeRun → List ℕ → NativeStore → NativeStore
after_work now run [] s =
    save_native_run now (finished_run now (writes_watermark s.db) run)
      (record s { db = worked_db run [] s.db })
after_work now run (a ∷ more) s =
    redispatch now (advanced_run a more s.db run) (record s { db = worked_db run (a ∷ more) s.db })

-- The first `k` addresses of the page that have no row are seeded, or the watermark is written.
abbrev pub partly_db : ℕ → NativeRun → List ℕ → RollupDb → RollupDb
partly_db zero run page db = db
partly_db (suc k) run [] db = write_watermark run.head db
partly_db (suc k) run (a ∷ more) db = seed_first (suc k) (a ∷ more) run.head db

abbrev pub partly : ℕ → NativeRun → List ℕ → NativeStore → NativeStore
partly k run page s = record s { db = partly_db k run page s.db }

abbrev pub on_work : ℕ → Work → NativeRun → List ℕ → NativeStore → NativeStore
on_work now completes run page s = after_work now run page s
on_work now (times_out k) run page s = shrink_or_fail now run (partly k run page s)
on_work now (raises k) run page s = save_native_run now (failed_run now run) (partly k run page s)

abbrev pub still_runs : RunState → Bool
still_runs running = true
still_runs finished = false
still_runs failed = false

abbrev pub chunk_loaded : ℕ → Bool → Work → ℕ → Option NativeRun → NativeStore → NativeStore
chunk_loaded now lock_free work seq none s = s
chunk_loaded now lock_free work seq (some run) s =
    if not (still_runs run.state)
    then s
    else if not (run.dispatch_seq == seq)
    then s
    else if not lock_free
    then enqueue run.run_id seq (save_native_run now run s)
    else on_work now work run (safe_addresses_after run.cursor run.chunk_size s.db)
        (save_native_run now run s)

-- `lock_free` tells that the rollup lock is acquired.
unfoldable pub backfill_native_balance_chunk :
    ℕ → Bool → Work → ChunkTask → NativeStore → NativeStore
backfill_native_balance_chunk now lock_free work t s =
    chunk_loaded now lock_free work t.task_seq (load_native_run t.task_run s.runs) s

abbrev pub new_native_run : ℕ → ℕ → ℕ → ℕ → ℕ → NativeRun
new_native_run now id head chunk_size total = record {
  run_id = id;
  head = head;
  chunk_size = chunk_size;
  total_safes_at_start = total;
  started_at = now;
  finished_at = none;
  state = running;
  dispatch_seq = 1;
  cursor = none;
  chunks_done = 0;
  safes_seen = 0;
  safes_seeded = 0;
  safes_already_present = 0;
  watermark_written = false;
  heartbeat_at = none;
}

unfoldable pub start_native_balance_backfill_run : ℕ → ℕ → ℕ → ℕ → ℕ → NativeStore → NativeStore
start_native_balance_backfill_run now id head chunk_size total s =
    let saved = save_native_run now (new_native_run now id head chunk_size total) s in
    enqueue id 1 (record saved { pointer = some id })
