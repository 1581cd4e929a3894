-- ===== src/Backfill/Chain.antt =====
-- The chunks of a run one after the other: the store in Redis, the queue of chords, and
-- `backfill_done` with what it calls (safe_transaction_service/analytics/tasks_shards.py).
use safe_transaction_service.Common.{
  ℕ, zero, suc, ◌+◌, ◌-◌, Bool, true, false, not, ◌||◌, Option, none, some, List, [], ◌∷◌, ◌++◌,
  leb, ◌==◌, ℤ, if◌then◌else◌, length, take, select,
}
use safe_transaction_service.Backfill.Manifest.{
  ChunkState, pending, running, done, dispatch_failed, Chunk, Run, Failure, build_backfill_run,
}

-- A chord of the queue: one shard for each day, then `backfill_done`.
pub record Chord : Type 0 where
  pub run_id : ℕ
  pub chunk_index : ℕ
  pub days : List ℕ
  pub skip_settle_check : Bool

-- `pointer` is the run id at `BACKFILL_CURSOR_KEY`.
pub record Store : Type 0 where
  pub manifests : List Run
  pub pointer : Option ℕ
  pub queue : List Chord

-- `load_backfill_run`
unfoldable pub load_run : ℕ → List Run → Option Run
load_run id [] = none
load_run id (r ∷ rs) = if r.run_id == id then some r else load_run id rs

unfoldable pub save_run : Run → List Run → List Run
save_run run [] = run ∷ []
save_run run (r ∷ rs) = if r.run_id == run.run_id then run ∷ rs else r ∷ save_run run rs

-- `run["chunks"][index]`, changed in place.
unfoldable pub update_chunk : ℕ → (Chunk → Chunk) → List Chunk → List Chunk
update_chunk i f [] = []
update_chunk zero f (c ∷ cs) = f c ∷ cs
update_chunk (suc i) f (c ∷ cs) = c ∷ update_chunk i f cs

abbrev pub days_at : ℕ → List Chunk → List ℕ
days_at i [] = []
days_at zero (c ∷ cs) = c.days
days_at (suc i) (c ∷ cs) = days_at i cs

abbrev pub or_now : Option ℕ → ℕ → Option ℕ
or_now none now = some now
or_now (some t) now = some t

abbrev pub superseded_run : ℕ → Run → Run
superseded_run now r = record r { superseded = true; finished_at = or_now r.finished_at now }

abbrev pub save_found : (Run → Run) → Option Run → Store → Store
save_found f none s = s
save_found f (some r) s = record s { manifests = save_run (f r) s.manifests }

unfoldable pub supersede_backfill_run : ℕ → ℕ → Store → Store
supersede_backfill_run now id s = save_found (superseded_run now) (load_run id s.manifests) s

abbrev pub started_chunk : ℕ → Chunk → Chunk
started_chunk now c = record c { state = running; dispatched_at = some now }

abbrev pub with_started : ℕ → ℕ → Run → Run
with_started now i r = record r { chunks = update_chunk i (started_chunk now) r.chunks }

-- The Boolean tells whether the broker took the chord; the manifest is saved before.
unfoldable pub dispatch_chunk : Bool → ℕ → Run → ℕ → Store → Store
dispatch_chunk accepted now run i s =
    let run' = with_started now i run in
    let saved = record s { manifests = save_run run' s.manifests } in
    if accepted
    then record saved {
      queue =
          s.queue
          ++ record {
            run_id = run.run_id;
            chunk_index = i;
            days = days_at i run.chunks;
            skip_settle_check = run.skip_settle_check;
          }
            ∷ [];
    }
    else saved

abbrev pub start_run : Bool → ℕ → Option Run → Store → Store
start_run accepted now none s = s
start_run accepted now (some run) s =
    dispatch_chunk accepted now run 0
      (record s { manifests = save_run run s.manifests; pointer = some run.run_id })

-- A refused chord raises, with the manifest and the pointer written.
unfoldable pub start_backfill_run : Bool → ℕ → ℕ → List ℕ → ℤ → Bool → Store → Store
start_backfill_run accepted now id dates chunk_days skip s =
    start_run accepted now (build_backfill_run now id dates chunk_days skip) s

-- What a shard returned: a day that is written, a failure with its day, or nothing.
pub data ShardResult : Type 0 where
  shard_ok : ℕ → ShardResult
  shard_failed : ℕ → ShardResult
  shard_lost : ShardResult

pub record Summary : Type 0 where
  pub total : ℕ
  pub written : ℕ
  pub failed : ℕ
  pub failures : List Failure

-- `days[position] if days and position < len(days) else None`
abbrev pub day_at : ℕ → List ℕ → Option ℕ
day_at i [] = none
day_at zero (d ∷ ds) = some d
day_at (suc i) (d ∷ ds) = day_at i ds

abbrev pub count_written : List ShardResult → ℕ
count_written [] = 0
count_written (shard_ok d ∷ rs) = suc (count_written rs)
count_written (shard_failed d ∷ rs) = count_written rs
count_written (shard_lost ∷ rs) = count_written rs

abbrev pub failures_from : ℕ → List ℕ → List ShardResult → List Failure
failures_from i days [] = []
failures_from i days (shard_ok d ∷ rs) = failures_from (suc i) days rs
failures_from i days (shard_failed d ∷ rs) = some d ∷ failures_from (suc i) days rs
failures_from i days (shard_lost ∷ rs) = day_at i days ∷ failures_from (suc i) days rs

abbrev pub summarize : List ℕ → List ShardResult → Summary
summarize days results = record {
  total = length results;
  written = count_written results;
  failed = length results - count_written results;
  failures = take 50 (failures_from 0 days results);
}

abbrev pub done_chunk : ℕ → Summary → Chunk → Chunk
done_chunk now m c = record c {
  state = done;
  finished_at = some now;
  total = m.total;
  written = m.written;
  failed = m.failed;
}

abbrev pub is_done_chunk : Chunk → Bool
is_done_chunk c = is_done_state c.state
  where
    is_done_state : ChunkState → Bool
    is_done_state done = true
    is_done_state pending = false
    is_done_state running = false
    is_done_state dispatch_failed = false

-- `sum(c[...] for c in done)`
abbrev pub sum_of : (Chunk → ℕ) → List Chunk → ℕ
sum_of f [] = 0
sum_of f (c ∷ cs) = f c + sum_of f cs

abbrev pub max_failures : ℕ
max_failures = 200

abbrev pub add_failures : List Failure → List Failure → List Failure
add_failures old new =
    let kept = take max_failures old in kept ++ take (max_failures - length kept) new

abbrev pub folded_run : ℕ → ℕ → Summary → Run → Run
folded_run now i m r =
    let chunks = update_chunk i (done_chunk now m) r.chunks in
    let finished = select is_done_chunk chunks in
    record r {
      chunks = chunks;
      total = sum_of (λ c. c.total) finished;
      written = sum_of (λ c. c.written) finished;
      failed = sum_of (λ c. c.failed) finished;
      failures = add_failures r.failures m.failures;
    }

abbrev pub is_other : Option ℕ → ℕ → Bool
is_other none id = false
is_other (some p) id = not (p == id)

-- The run is no longer the one to progress.
abbrev pub is_stale : Option ℕ → Run → Bool
is_stale pointer run = run.superseded || is_other pointer run.run_id

abbrev pub failed_chunk : Chunk → Chunk
failed_chunk c = record c { state = dispatch_failed }

-- The `except` of the hand-off, over the manifest that is loaded again.
abbrev pub hand_off_failed : ℕ → ℕ → Run → Option Run → Run
hand_off_failed now i run none = record run {
  chunks = update_chunk i failed_chunk run.chunks;
  finished_at = some now;
}
hand_off_failed now i run (some r) = record r {
  chunks = update_chunk i failed_chunk r.chunks;
  finished_at = some now;
}

abbrev pub hand_off : Bool → ℕ → ℕ → Run → Store → Store
hand_off true now i run s = dispatch_chunk true now run i s
hand_off false now i run s =
    let s' = dispatch_chunk false now run i s in
    record s' {
      manifests =
          save_run
            (hand_off_failed now i (with_started now i run) (load_run run.run_id s'.manifests))
            s'.manifests;
    }

abbrev pub advance_loaded : Bool → ℕ → ℕ → Summary → Option Run → Store → Store
advance_loaded accepted now i m none s = s
advance_loaded accepted now i m (some loaded) s =
    let run = folded_run now i m loaded in
    if leb run.chunk_count (suc i)
    then record s { manifests = save_run (record run { finished_at = some now }) s.manifests }
    else if is_stale s.pointer run
    then record s {
      manifests = save_run (record run { finished_at = or_now run.finished_at now }) s.manifests;
    }
    else hand_off accepted now (suc i) run s

unfoldable pub advance_backfill_run : Bool → ℕ → ℕ → ℕ → Summary → Store → Store
advance_backfill_run accepted now id i m s =
    advance_loaded accepted now i m (load_run id s.manifests) s

abbrev pub days_of : ℕ → Option Run → List ℕ
days_of i none = []
days_of i (some r) = days_at i r.chunks

-- For a chord of a run; the chunk's summary of its own key is not kept.
unfoldable pub backfill_done : Bool → ℕ → List ShardResult → ℕ → ℕ → Store → Store
backfill_done accepted now results id i s =
    advance_backfill_run accepted now id i (summarize (days_of i (load_run id s.manifests)) results)
      s
