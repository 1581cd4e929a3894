-- ===== src/Native/Chain.antt =====
-- The tasks of a run in the queue, over the chunks of safe_transaction_service/analytics/tasks_shards.py.
use safe_transaction_service.Common.{
  ℕ, suc, ◌+◌, ◌≤◌, ◌≡◌, refl, sym, ◌∙◌, subst, inl, inr, Bool, false, not, some, List, [], ◌∷◌,
  ◌++◌, ◌==◌, ==_self, arith, Bool-cases,
}
use safe_transaction_service.Native.{
  NativeRun, ChunkTask, NativeStore, RollupDb, load_native_run, put_native_run, save_native_run,
  beating, enqueue, bumped, redispatch, Work, still_runs, chunk_loaded, safe_addresses_after,
}
use safe_transaction_service.Native.Single.{
  load-put, tally, tally-append, is_live, is_ahead, IsSingle, save-IsSingle, save-IsSingle_other,
  enqueue-IsSingle_other,
}
use safe_transaction_service.Native.Effects.{with_queue, with_db, on_work_keeps}

removed :
    (p : ChunkTask → Bool) (before after : List ChunkTask) (t : ChunkTask)
    → tally p (before ++ t ∷ after) ≡ tally p (t ∷ []) + tally p (before ++ after)
removed p before after t =
    let step : tally p (t ∷ after) ≡ tally p (t ∷ []) + tally p after = ground arith in
    omega (arith, tally-append p before (t ∷ after), tally-append p before after, step)

pub at_most_one : (p : ChunkTask → Bool) (t : ChunkTask) → tally p (t ∷ []) ≤ 1
at_most_one p t = ground arith

live_one :
    (id seq : ℕ) (t : ChunkTask)
    → t.task_run ≡ id
    → t.task_seq ≡ seq
    → tally (is_live id seq) (t ∷ []) ≡ 1
live_one id seq t named numbered = rw (named, numbered) (rw (==_self id, ==_self seq) refl)

pub not_ahead :
    (id seq : ℕ) (t : ChunkTask) → t.task_seq ≡ seq → tally (is_ahead id seq) (t ∷ []) ≡ 0
not_ahead id seq t numbered = ground arith

module _ (id : ℕ) where
  pub lost-IsSingle :
      (before after : List ChunkTask) (t : ChunkTask) (s : NativeStore)
      → IsSingle id (with_queue (before ++ t ∷ after) s)
      → IsSingle id (with_queue (before ++ after) s)
  lost-IsSingle before after t s h = record {
    run = h.run;
    loaded = h.loaded;
    one_live = omega (arith, h.one_live, removed (is_live id h.run.dispatch_seq) before after t);
    none_ahead =
        omega (arith, h.none_ahead, removed (is_ahead id h.run.dispatch_seq) before after t);
  }

  pub db-IsSingle : (d : RollupDb) (s : NativeStore) → IsSingle id s → IsSingle id (with_db d s)
  db-IsSingle d s h = record {
    run = h.run;
    loaded = h.loaded;
    one_live = h.one_live;
    none_ahead = h.none_ahead;
  }

  -- A chunk of another run.
  pub redispatch-IsSingle_other :
      (now : ℕ) (run' : NativeRun) (s : NativeStore)
      → (run'.run_id == id) ≡ false
      → IsSingle id s
      → IsSingle id (redispatch now run' s)
  unfolding redispatch
  redispatch-IsSingle_other now run' s other h =
      enqueue-IsSingle_other id now run'.run_id (suc run'.dispatch_seq)
        (save_native_run now (bumped run') s) other
        (save-IsSingle_other id now (bumped run') s other h)

  pub other_chunk-IsSingle :
      (now : ℕ) (lock_free : Bool) (work : Work) (seq : ℕ) (r : NativeRun) (s : NativeStore)
      → (r.run_id == id) ≡ false
      → IsSingle id s
      → IsSingle id (chunk_loaded now lock_free work seq (some r) s)
  other_chunk-IsSingle now lock_free work seq r s other h =
      elim (Bool-cases (not (still_runs r.state))) [
        | inl over ↦ rw over h
        | inr on ↦ elim (Bool-cases (not (r.dispatch_seq == seq))) [
          | inl stale ↦ rw (on, stale) h
          | inr current ↦ elim (Bool-cases (not lock_free)) [
            | inl busy ↦
                rw (on, current, busy)
                  (enqueue-IsSingle_other id now r.run_id seq (save_native_run now r s) other
                    (save-IsSingle_other id now r s other h))
            | inr free ↦
                rw (on, current, free)
                  (on_work_keeps now (IsSingle id) (IsSingle id) r db-IsSingle
                    (λ (run' : NativeRun) (s' : NativeStore) same e k.
                      save-IsSingle_other id now run' s' (rw same other) k)
                    (λ (run' : NativeRun) (s' : NativeStore) same e k.
                      redispatch-IsSingle_other now run' s' (rw same other) k)
                    work (safe_addresses_after r.cursor r.chunk_size s.db) (save_native_run now r s)
                    (save-IsSingle_other id now r s other h))
          ]
        ]
      ]

  -- A chunk of the run itself, under its current number.
  pub record IsAtSeq (seq : ℕ) (s : NativeStore) : Type 0 where
    pub single : IsSingle id s
    pub numbered : single.run.dispatch_seq ≡ seq

  pub same_seq :
      (rs : List NativeRun) (a b : NativeRun)
      → load_native_run id rs ≡ some a
      → load_native_run id rs ≡ some b
      → a.dispatch_seq ≡ b.dispatch_seq
  same_seq rs a b h k = seq_of (sym h ∙ k)
    where
      seq_of : {x y : NativeRun} → some x ≡ some y → x.dispatch_seq ≡ y.dispatch_seq
      seq_of e = cc

  pub numbered_by :
      (seq : ℕ) (r : NativeRun) (s : NativeStore)
      → (h : IsSingle id s) → load_native_run id s.runs ≡ some r
      → r.dispatch_seq ≡ seq
      → IsAtSeq seq s
  numbered_by seq r s h loaded e = record {
    single = h;
    numbered = same_seq s.runs h.run r h.loaded loaded ∙ e;
  }

  pub db-IsAtSeq :
      (seq : ℕ) (d : RollupDb) (s : NativeStore) → IsAtSeq seq s → IsAtSeq seq (with_db d s)
  db-IsAtSeq seq d s h =
      numbered_by seq h.single.run (with_db d s) (db-IsSingle d s h.single) h.single.loaded
        h.numbered

  pub save-IsAtSeq :
      (now : ℕ) (run' : NativeRun) (s : NativeStore)
      → run'.run_id ≡ id
      → IsAtSeq run'.dispatch_seq s
      → IsAtSeq run'.dispatch_seq (save_native_run now run' s)
  unfolding save_native_run
  save-IsAtSeq now run' s named h =
      numbered_by run'.dispatch_seq (beating now run') (save_native_run now run' s)
        (save-IsSingle id now run' s h.single named (sym h.numbered))
        (subst
          (λ (i : ℕ).
            load_native_run i (put_native_run (beating now run') s.runs) ≡ some (beating now run'))
          named (load-put (beating now run') s.runs))
        refl

  -- The task that is taken was the only one of its number.
  pub busy-IsSingle :
      (now : ℕ) (r : NativeRun) (t : ChunkTask) (before after : List ChunkTask) (s : NativeStore)
      → r.run_id ≡ id
      → t.task_run ≡ id
      → t.task_seq ≡ r.dispatch_seq
      → load_native_run id s.runs ≡ some r
      → IsSingle id (with_queue (before ++ t ∷ after) s)
      → IsSingle id
          (enqueue r.run_id t.task_seq (save_native_run now r (with_queue (before ++ after) s)))
  unfolding save_native_run
  busy-IsSingle now r t before after s named run_named seq_named loaded h =
      let seq : ℕ = r.dispatch_seq in
      let same : h.run.dispatch_seq ≡ seq = same_seq s.runs h.run r h.loaded loaded in
      let one : tally (is_live id seq) (before ++ t ∷ after) ≤ 1 = rw (sym same) h.one_live in
      let none : tally (is_ahead id seq) (before ++ t ∷ after) ≡ 0 = rw (sym same) h.none_ahead in
      let taken : tally (is_live id seq) (t ∷ []) ≡ 1 = live_one id seq t run_named seq_named in
      let task : ChunkTask = record { task_run = r.run_id; task_seq = t.task_seq } in
      let at_most : tally (is_live id seq) (task ∷ []) ≤ 1 = at_most_one (is_live id seq) task in
      let behind : tally (is_ahead id seq) (task ∷ []) ≡ 0 = not_ahead id seq task seq_named in
      record {
        run = beating now r;
        loaded =
            subst
              (λ (i : ℕ).
                load_native_run i (put_native_run (beating now r) s.runs) ≡ some (beating now r))
              named (load-put (beating now r) s.runs);
        one_live = omega (
          arith,
          one,
          taken,
          at_most,
          removed (is_live id seq) before after t,
          tally-append (is_live id seq) (before ++ after) (task ∷ []),
        );
        none_ahead = omega (
          arith,
          none,
          behind,
          removed (is_ahead id seq) before after t,
          tally-append (is_ahead id seq) (before ++ after) (task ∷ []),
        );
      }
