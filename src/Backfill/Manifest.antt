-- ===== src/Backfill/Manifest.antt =====
-- The manifest of a backfill run: `build_backfill_run` of safe_transaction_service/analytics/tasks_shards.py.
-- Days are days since the epoch, times are seconds, a run id is a number.
use safe_transaction_service.Common.{
  ℕ, zero, suc, ◌+◌, Bool, false, Option, none, some, List, [], ◌∷◌, ℤ, pos, negsuc, leb,
  if◌then◌else◌, length, take, drop,
}

pub data ChunkState : Type 0 where
  pending running done dispatch_failed : ChunkState

pub record Chunk : Type 0 where
  pub index : ℕ
  pub days : List ℕ
  pub state : ChunkState
  pub dispatched_at : Option ℕ
  pub finished_at : Option ℕ
  pub total : ℕ
  pub written : ℕ
  pub failed : ℕ

-- A failed shard: its day, if it is known.
abbrev pub Failure : Type 0
Failure = Option ℕ

pub record Run : Type 0 where
  pub run_id : ℕ
  pub total_days : ℕ
  pub chunk_days : ℕ
  pub chunk_count : ℕ
  pub skip_settle_check : Bool
  pub started_at : ℕ
  pub finished_at : Option ℕ
  pub superseded : Bool
  pub total : ℕ
  pub written : ℕ
  pub failed : ℕ
  pub failures : List Failure
  pub chunks : List Chunk

abbrev pub new_chunk : ℕ → List ℕ → Chunk
new_chunk index days = record {
  index = index;
  days = days;
  state = pending;
  dispatched_at = none;
  finished_at = none;
  total = 0;
  written = 0;
  failed = 0;
}

-- `for index, offset in enumerate(range(0, len(days), chunk_size))`, on fuel
unfoldable pub split_days : ℕ → ℕ → List ℕ → ℕ → ℕ → List Chunk
split_days zero size days index offset = []
split_days (suc fuel) size days index offset =
    let rest = split_days fuel size days (suc index) (offset + size) in
    if leb (length days) offset then [] else new_chunk index (take size (drop offset days)) ∷ rest

abbrev pub size_or : ℤ → ℕ → ℕ
size_or (pos zero) all = all
size_or (pos (suc n)) all = suc n
size_or (negsuc n) all = all

-- A range has at most as many steps as there are days.
abbrev pub new_run : ℕ → ℕ → List ℕ → ℤ → Bool → Run
new_run now run_id days chunk_days skip =
    let size = size_or chunk_days (length days) in
    let chunks = split_days (length days) size days 0 0 in
    record {
      run_id = run_id;
      total_days = length days;
      chunk_days = size;
      chunk_count = length chunks;
      skip_settle_check = skip;
      started_at = now;
      finished_at = none;
      superseded = false;
      total = 0;
      written = 0;
      failed = 0;
      failures = [];
      chunks = chunks;
    }

-- No result is the `ValueError`.
unfoldable pub build_backfill_run : ℕ → ℕ → List ℕ → ℤ → Bool → Option Run
build_backfill_run now run_id [] chunk_days skip = none
build_backfill_run now run_id (d ∷ ds) chunk_days skip =
    some (new_run now run_id (d ∷ ds) chunk_days skip)
