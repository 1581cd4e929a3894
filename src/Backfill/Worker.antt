-- ===== src/Backfill/Worker.antt =====
-- A worker that takes the chords of the queue (safe_transaction_service/analytics/tasks_shards.py): the shards of
-- a chord are `compute_daily_metric_shard`, over the catch-up's `compute_day`.
use safe_transaction_service.Common.{ℕ, zero, suc, Bool, Option, none, some, List, [], ◌∷◌, ◌++◌}
use safe_transaction_service.Catchup.{
  DayStatus, done, incomplete, deferred, gave_up, DayResult, IndexerStatus, Upsert, World,
  compute_day,
}
use safe_transaction_service.Backfill.Chain.{
  Chord, Store, ShardResult, shard_ok, shard_failed, backfill_done,
}

abbrev pub shard_status : ℕ → DayStatus → ShardResult
shard_status day deferred = shard_failed day
shard_status day done = shard_ok day
shard_status day incomplete = shard_ok day
shard_status day gave_up = shard_ok day

abbrev pub shard_of : ℕ → Option DayResult → ShardResult
shard_of day none = shard_failed day
shard_of day (some r) = shard_status day r.status

module _ (upsert : Upsert) (settle_minutes : ℕ) (status : Option IndexerStatus) where
  unfoldable pub compute_daily_metric_shard : Bool → ℕ → World → ShardResult × World
  compute_daily_metric_shard skip day w =
      let (r, w') = compute_day upsert settle_minutes skip day status none w in (shard_of day r, w')

  -- The shards of a group, in the order of their days.
  unfoldable pub run_shards : Bool → List ℕ → World → List ShardResult × World
  run_shards skip [] w = ([], w)
  run_shards skip (d ∷ ds) w =
      let (r, w1) = compute_daily_metric_shard skip d w in
      let (rs, w2) = run_shards skip ds w1 in (r ∷ rs, w2)

  -- `accepts` and `clock` are what the broker and the clock say when the callback of a chunk runs.
  module _ (accepts : ℕ → Bool) (clock : ℕ → ℕ) where
    abbrev pub work : Chord → List Chord → Store → World → Store × World
    work c rest s w =
        let (results, w') = run_shards c.skip_settle_check c.days w in
        (
          backfill_done (accepts c.chunk_index) (clock c.chunk_index) results c.run_id c.chunk_index
              (record s { queue = rest }),
          w',
        )

    abbrev pub drain_queue :
        (Store → World → List ℕ × Store × World)
        → List Chord
        → Store
        → World
        → List ℕ × Store × World
    drain_queue later [] s w = ([], s, w)
    drain_queue later (c ∷ rest) s w =
        let (s1, w1) = work c rest s w in
        let (days, s2, w2) = later s1 w1 in (c.days ++ days, s2, w2)

    -- At most `fuel` chords, with the days that their shards took.
    unfoldable pub drain : ℕ → Store → World → List ℕ × Store × World
    drain zero s w = ([], s, w)
    drain (suc fuel) s w = drain_queue (drain fuel) s.queue s w
