-- ===== src/Native/Steps.antt =====
-- The steps of a run (safe_transaction_service/analytics/tasks_shards.py): workers take the chunk tasks of the
-- queue in any order, messages are lost, a run that goes on is dispatched again, and other runs start.
use safe_transaction_service.Common.{
  ℕ, ◌≡◌, refl, sym, ◌∙◌, subst, inl, inr, Bool, false, not, some, List, [], ◌∷◌, ◌++◌, ◌==◌, arith,
  Bool-cases, Option-cases,
}
use safe_transaction_service.Native.{
  NativeRun, ChunkTask, NativeStore, RollupDb, load_native_run, save_native_run, beating,
  redispatch, Work, still_runs, chunk_loaded, backfill_native_balance_chunk, new_native_run,
  start_native_balance_backfill_run, safe_addresses_after,
}
use safe_transaction_service.Native.Single.{
  load-named, load-put, tally, tally-append, is_live, is_ahead, IsSingle, save-IsSingle,
  redispatch-IsSingle, save-IsSingle_other, enqueue-IsSingle_other,
}
use safe_transaction_service.Native.Chain.{
  lost-IsSingle, IsAtSeq, numbered_by, db-IsAtSeq, save-IsAtSeq, busy-IsSingle, same_seq,
  at_most_one, not_ahead, db-IsSingle, redispatch-IsSingle_other, other_chunk-IsSingle,
}
use safe_transaction_service.Native.Effects.{with_queue, with_db, on_work_keeps}

module _ (id : ℕ) (now : ℕ) where
  own_chunk-IsSingle :
      (lock_free : Bool) (work : Work) (r : NativeRun) (t : ChunkTask)
      (before after : List ChunkTask) (s : NativeStore)
      → r.run_id ≡ id
      → t.task_run ≡ id
      → load_native_run id s.runs ≡ some r
      → IsSingle id (with_queue (before ++ t ∷ after) s)
      → IsSingle id
          (chunk_loaded now lock_free work t.task_seq (some r) (with_queue (before ++ after) s))
  own_chunk-IsSingle lock_free work r t before after s named run_named loaded h =
      let rest : NativeStore = with_queue (before ++ after) s in
      let lost : IsSingle id rest = lost-IsSingle id before after t s h in
      elim (Bool-cases (not (still_runs r.state))) [
        | inl over ↦ rw over lost
        | inr on ↦ elim (Bool-cases (r.dispatch_seq == t.task_seq)) [
          | inr stale ↦ rw (on, stale) lost
          | inl current ↦
              let seq_named : t.task_seq ≡ r.dispatch_seq = ground (arith, current) in
              elim (Bool-cases lock_free) [
                | inr busy ↦
                    rw (on, current, busy)
                      (busy-IsSingle id now r t before after s named run_named seq_named loaded h)
                | inl free ↦
                    let at : IsAtSeq id r.dispatch_seq rest =
                      numbered_by id r.dispatch_seq r rest lost loaded refl in
                    rw (on, current, free)
                      (on_work_keeps now (IsAtSeq id r.dispatch_seq) (IsSingle id) r
                        (db-IsAtSeq id r.dispatch_seq)
                        (λ (run' : NativeRun) (s' : NativeStore) same e k.
                          save-IsSingle id now run' s' k.single (same ∙ named) (e ∙ sym k.numbered))
                        (λ (run' : NativeRun) (s' : NativeStore) same e k.
                          redispatch-IsSingle id now run' s' k.single (same ∙ named)
                            (e ∙ sym k.numbered))
                        work (safe_addresses_after r.cursor r.chunk_size s.db)
                        (save_native_run now r rest) (save-IsAtSeq id now r rest named at))
              ]
        ]
      ]

  chunk-IsSingle :
      (lock_free : Bool) (work : Work) (t : ChunkTask) (before after : List ChunkTask)
      (s : NativeStore)
      → IsSingle id (with_queue (before ++ t ∷ after) s)
      → IsSingle id
          (backfill_native_balance_chunk now lock_free work t (with_queue (before ++ after) s))
  unfolding backfill_native_balance_chunk
  chunk-IsSingle lock_free work t before after s h =
      elim (Option-cases (load_native_run t.task_run s.runs)) [
        | inl gone ↦ rw gone (lost-IsSingle id before after t s h)
        | inr (r, loaded) ↦
            let named : r.run_id ≡ t.task_run = load-named t.task_run s.runs r loaded in
            elim (Bool-cases (r.run_id == id)) [
              | inl same ↦
                  let r_id : r.run_id ≡ id = ground (arith, same) in
                  let t_id : t.task_run ≡ id = sym named ∙ r_id in
                  rw loaded (
                    own_chunk-IsSingle lock_free work r t before after s r_id t_id
                      (subst (λ (i : ℕ). load_native_run i s.runs ≡ some r) t_id loaded) h)
              | inr other ↦ rw loaded (
                  other_chunk-IsSingle id now lock_free work t.task_seq r
                    (with_queue (before ++ after) s) other (lost-IsSingle id before after t s h))
            ]
      ]

  start-IsSingle_other :
      (other head chunk_size total : ℕ) (s : NativeStore)
      → (other == id) ≡ false
      → IsSingle id s
      → IsSingle id (start_native_balance_backfill_run now other head chunk_size total s)
  unfolding start_native_balance_backfill_run
  start-IsSingle_other other head chunk_size total s differs h =
      let made : NativeRun = new_native_run now other head chunk_size total in
      let saved : IsSingle id (save_native_run now made s) =
        save-IsSingle_other id now made s differs h in
      enqueue-IsSingle_other id now other 1
        (record (save_native_run now made s) { pointer = some other }) differs
        (record {
          run = saved.run;
          loaded = saved.loaded;
          one_live = saved.one_live;
          none_ahead = saved.none_ahead;
        })

-- One step, in which the run `id` is not started again, and other writers change the rows as `Change` allows.
-- A chunk runs as a whole, so a run is dispatched again only between two chunks.
pub data Step (id : ℕ) (Change : RollupDb → RollupDb → Type 0)
    : NativeStore → NativeStore → Type 0 where
  executes :
      (now : ℕ) (lock_free : Bool) (work : Work) (t : ChunkTask) (before after : List ChunkTask)
      (s : NativeStore)
      → Step id Change
          (with_queue (before ++ t ∷ after) s)
          (backfill_native_balance_chunk now lock_free work t (with_queue (before ++ after) s))
  loses :
      (t : ChunkTask) (before after : List ChunkTask) (s : NativeStore)
      → Step id Change (with_queue (before ++ t ∷ after) s) (with_queue (before ++ after) s)
  resumes :
      (now : ℕ) (r : NativeRun) (s : NativeStore)
      → load_native_run r.run_id s.runs ≡ some r
      → Step id Change s (redispatch now r s)
  starts :
      (now other head chunk_size total : ℕ) (s : NativeStore)
      → (other == id) ≡ false
      → Step id Change s (start_native_balance_backfill_run now other head chunk_size total s)
  rows_change : (d : RollupDb) (s : NativeStore) → Change s.db d → Step id Change s (with_db d s)

pub data Steps (id : ℕ) (Change : RollupDb → RollupDb → Type 0)
    : NativeStore → NativeStore → Type 0 where
  here : {s : NativeStore} → Steps id Change s s
  more : {s t u : NativeStore} → Step id Change s t → Steps id Change t u → Steps id Change s u

resume-IsSingle :
    (id now : ℕ) (r : NativeRun) (s : NativeStore)
    → load_native_run r.run_id s.runs ≡ some r
    → IsSingle id s
    → IsSingle id (redispatch now r s)
resume-IsSingle id now r s loaded h = elim (Bool-cases (r.run_id == id)) [
  | inl same ↦
      let named : r.run_id ≡ id = ground (arith, same) in
      let own : load_native_run id s.runs ≡ some r =
        subst (λ (i : ℕ). load_native_run i s.runs ≡ some r) named loaded in
      redispatch-IsSingle id now r s h named (same_seq id s.runs r h.run own h.loaded)
  | inr other ↦ redispatch-IsSingle_other id now r s other h
]

Step-IsSingle :
    {id : ℕ} {Change : RollupDb → RollupDb → Type 0} {s t : NativeStore}
    → Step id Change s t
    → IsSingle id s
    → IsSingle id t
Step-IsSingle {id = id} (executes now lock_free work t before after s) h =
    chunk-IsSingle id now lock_free work t before after s h
Step-IsSingle {id = id} (loses t before after s) h = lost-IsSingle id before after t s h
Step-IsSingle {id = id} (resumes now r s loaded) h = resume-IsSingle id now r s loaded h
Step-IsSingle {id = id} (starts now other head chunk_size total s differs) h =
    start-IsSingle_other id now other head chunk_size total s differs h
Step-IsSingle {id = id} (rows_change d s c) h = db-IsSingle id d s h

Steps-IsSingle :
    {id : ℕ} {Change : RollupDb → RollupDb → Type 0} {s t : NativeStore}
    → Steps id Change s t
    → IsSingle id s
    → IsSingle id t
Steps-IsSingle here h = h
Steps-IsSingle (more e es) h = Steps-IsSingle es (Step-IsSingle e h)

start-IsSingle :
    (now id head chunk_size total : ℕ) (s : NativeStore)
    → tally (is_live id 1) s.queue ≡ 0
    → tally (is_ahead id 1) s.queue ≡ 0
    → IsSingle id (start_native_balance_backfill_run now id head chunk_size total s)
unfolding start_native_balance_backfill_run save_native_run
start-IsSingle now id head chunk_size total s fresh later =
    let made : NativeRun = beating now (new_native_run now id head chunk_size total) in
    let task : ChunkTask = record { task_run = id; task_seq = 1 } in
    record {
      run = made;
      loaded = load-put made s.runs;
      one_live = omega (
        arith,
        fresh,
        at_most_one (is_live id 1) task,
        tally-append (is_live id 1) s.queue (task ∷ []),
      );
      none_ahead = omega (
        arith,
        later,
        not_ahead id 1 task refl,
        tally-append (is_ahead id 1) s.queue (task ∷ []),
      );
    }

-- The queue and the manifests while a run goes on, when no task of its id was queued before it started: the
-- manifest is there, at most one queued task carries its dispatch number and none carries a later one, in
-- whatever order workers take the tasks, whichever chunks lose the lock, time out, raise or complete, and
-- whichever messages are lost, runs dispatched again and other runs started.
pub started-IsSingle :
    {Change : RollupDb → RollupDb → Type 0} (now id head chunk_size total : ℕ) (s : NativeStore)
    {t : NativeStore}
    → tally (is_live id 1) s.queue ≡ 0
    → tally (is_ahead id 1) s.queue ≡ 0
    → Steps id Change (start_native_balance_backfill_run now id head chunk_size total s) t
    → IsSingle id t
started-IsSingle now id head chunk_size total s fresh later es =
    Steps-IsSingle es (start-IsSingle now id head chunk_size total s fresh later)
