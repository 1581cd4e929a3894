-- ===== src/Native/Effects.antt =====
-- What a chunk's work does to the store: it ends in a save or in a dispatch of its run
-- (safe_transaction_service/analytics/tasks_shards.py).
use safe_transaction_service.Common.{ℕ, ◌≡◌, refl, Option, none, some, List, [], ◌∷◌}
use safe_transaction_service.Native.{
  NativeRun, ChunkTask, NativeStore, RollupDb, save_native_run, redispatch, halved_or_none,
  shrink_to, shrink_or_fail, failed_run, size_floor, Work, completes, times_out, raises, after_work,
  on_work, partly, partly_db, finished_run, advanced_run, worked_db, writes_watermark,
}

abbrev pub with_queue : List ChunkTask → NativeStore → NativeStore
with_queue q s = record s { queue = q }

abbrev pub with_db : RollupDb → NativeStore → NativeStore
with_db d s = record s { db = d }

-- What holds after a chunk's work, from what saves, dispatches and changes of the rows do.
module _ (now : ℕ) (P Q : NativeStore → Type 0) (r : NativeRun)
    (rows_change : (d : RollupDb) (s : NativeStore) → P s → P (with_db d s))
    (saves : (run' : NativeRun) (s : NativeStore)
      → run'.run_id ≡ r.run_id
      → run'.dispatch_seq ≡ r.dispatch_seq
      → P s
      → Q (save_native_run now run' s))
    (dispatches : (run' : NativeRun) (s : NativeStore)
      → run'.run_id ≡ r.run_id
      → run'.dispatch_seq ≡ r.dispatch_seq
      → P s
      → Q (redispatch now run' s)) where
  after_work_keeps : (page : List ℕ) (s : NativeStore) → P s → Q (after_work now r page s)
  after_work_keeps [] s h =
      let d = worked_db r [] s.db in
      saves (finished_run now (writes_watermark s.db) r) (with_db d s) refl refl (rows_change d s h)
  after_work_keeps (a ∷ more) s h =
      let d = worked_db r (a ∷ more) s.db in
      dispatches (advanced_run a more s.db r) (with_db d s) refl refl (rows_change d s h)

  shrink_to_keeps : (size : Option ℕ) (s : NativeStore) → P s → Q (shrink_to now r size s)
  shrink_to_keeps none s h = saves (failed_run now r) s refl refl h
  shrink_to_keeps (some size) s h = dispatches (record r { chunk_size = size }) s refl refl h

  pub on_work_keeps :
      (work : Work) (page : List ℕ) (s : NativeStore) → P s → Q (on_work now work r page s)
  unfolding shrink_or_fail
  on_work_keeps completes page s h = after_work_keeps page s h
  on_work_keeps (times_out k) page s h =
      shrink_to_keeps (halved_or_none r.chunk_size size_floor) (partly k r page s)
        (rows_change (partly_db k r page s.db) s h)
  on_work_keeps (raises k) page s h =
      saves (failed_run now r) (partly k r page s) refl refl
        (rows_change (partly_db k r page s.db) s h)
