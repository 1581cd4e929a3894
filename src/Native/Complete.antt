-- ===== src/Native/Complete.antt =====
-- A run that is finished has seeded every Safe (safe_transaction_service/analytics/tasks_shards.py), over the steps
-- of the runs.
use safe_transaction_service.Common.{
  ℕ, ◌≤◌, ◌≡◌, inl, inr, refl, sym, ◌∙◌, subst, max, ◌/◌, Bool, true, false, not, none, some, ◌++◌,
  ◌==◌, leb, if◌then◌else◌, contains, arith, Bool-cases, Option-cases,
}
use safe_transaction_service.Native.{
  running, finished, has_row, NativeRun, ChunkTask, NativeStore, load_native_run, save_native_run,
  beating, halved_or_none, shrink_or_fail, failed_run, size_floor, Work, completes, times_out,
  raises, on_work, partly, partly_db, still_runs, chunk_loaded, backfill_native_balance_chunk,
  new_native_run, start_native_balance_backfill_run, safe_addresses_after,
}
use safe_transaction_service.Native.Single.{load-put, load-named}
use safe_transaction_service.Native.Effects.{with_queue}
use safe_transaction_service.Native.Rows.{IsAscending}
use safe_transaction_service.Native.Covered.{KeepsRows, IsCovered, RunCovers-kept, partly_keeps}
use safe_transaction_service.Native.Seeded.{
  Own, with_db-IsCovered, own, loaded_as, save-IsCovered, redispatch-IsCovered, failed-Own,
  shrink_to-IsCovered, after_work-IsCovered,
}
use safe_transaction_service.Native.Steps.{
  Step, Steps, executes, loses, resumes, starts, rows_change, here, more,
}

positive_half : (c n : ℕ) → halved_or_none c size_floor ≡ some n → 1 ≤ n
unfolding halved_or_none
positive_half c n h = positive_of (leb c size_floor) h
  where
    positive_of : (b : Bool) → (if b then none else some (max size_floor (c / 2))) ≡ some n → 1 ≤ n
    positive_of true e = cc
    positive_of false e = let half : max size_floor (c / 2) ≡ n = cc in omega (arith, half)

module _ (id now : ℕ) where
  on_work-IsCovered :
      (work : Work) (r : NativeRun) (s : NativeStore)
      → Own id r s.db
      → IsCovered id s
      → IsCovered id (on_work now work r (safe_addresses_after r.cursor r.chunk_size s.db) s)
  unfolding shrink_or_fail
  on_work-IsCovered completes r s mine h =
      after_work-IsCovered id now r (safe_addresses_after r.cursor r.chunk_size s.db) s refl mine h
  on_work-IsCovered (times_out k) r s mine h =
      let page = safe_addresses_after r.cursor r.chunk_size s.db in
      let keeps = partly_keeps k r page s.db in
      shrink_to-IsCovered id now r (halved_or_none r.chunk_size size_floor) (partly k r page s)
        (positive_half r.chunk_size)
        (λ named. RunCovers-kept r s.db (partly_db k r page s.db) keeps (mine named))
        (with_db-IsCovered id (partly_db k r page s.db) s keeps h)
  on_work-IsCovered (raises k) r s mine h =
      let page = safe_addresses_after r.cursor r.chunk_size s.db in
      let keeps = partly_keeps k r page s.db in
      save-IsCovered id now (failed_run now r) (partly k r page s)
        (failed-Own id now r (partly_db k r page s.db)
          (λ named. RunCovers-kept r s.db (partly_db k r page s.db) keeps (mine named)))
        (with_db-IsCovered id (partly_db k r page s.db) s keeps h)

  loaded-IsCovered :
      (lock_free : Bool) (work : Work) (seq : ℕ) (r : NativeRun) (s : NativeStore)
      → Own id r s.db
      → IsCovered id s
      → IsCovered id (chunk_loaded now lock_free work seq (some r) s)
  unfolding save_native_run
  loaded-IsCovered lock_free work seq r s mine h =
      let saved : IsCovered id (save_native_run now r s) = save-IsCovered id now r s mine h in
      elim (Bool-cases (not (still_runs r.state))) [
        | inl over ↦ rw over h
        | inr on ↦ elim (Bool-cases (not (r.dispatch_seq == seq))) [
          | inl stale ↦ rw (on, stale) h
          | inr current ↦ elim (Bool-cases (not lock_free)) [
            | inl busy ↦
                rw (on, current, busy)
                  (record { ascending = saved.ascending; covers = saved.covers })
            | inr free ↦
                rw (on, current, free)
                  (on_work-IsCovered work r (save_native_run now r s) mine saved)
          ]
        ]
      ]

  chunk-IsCovered :
      (lock_free : Bool) (work : Work) (t : ChunkTask) (s : NativeStore)
      → IsCovered id s
      → IsCovered id (backfill_native_balance_chunk now lock_free work t s)
  unfolding backfill_native_balance_chunk
  chunk-IsCovered lock_free work t s h = elim (Option-cases (load_native_run t.task_run s.runs)) [
    | inl gone ↦ rw gone h
    | inr (r, loaded) ↦
        let found : load_native_run r.run_id s.runs ≡ some r =
          subst (λ (i : ℕ). load_native_run i s.runs ≡ some r)
            (sym (load-named t.task_run s.runs r loaded)) loaded in
        rw loaded (loaded-IsCovered lock_free work t.task_seq r s (own id r s found h) h)
  ]

  start-IsCovered_other :
      (other head chunk_size total : ℕ) (s : NativeStore)
      → (other == id) ≡ false
      → IsCovered id s
      → IsCovered id (start_native_balance_backfill_run now other head chunk_size total s)
  unfolding start_native_balance_backfill_run
  start-IsCovered_other other head chunk_size total s differs h =
      let made : NativeRun = new_native_run now other head chunk_size total in
      let saved : IsCovered id (save_native_run now made s) =
        save-IsCovered id now made s (λ named. ground (arith, named, differs)) h in
      record { ascending = saved.ascending; covers = saved.covers }

  start-IsCovered :
      (head chunk_size total : ℕ) (s : NativeStore)
      → 1 ≤ chunk_size
      → IsAscending s.db.safes
      → IsCovered id (start_native_balance_backfill_run now id head chunk_size total s)
  unfolding start_native_balance_backfill_run save_native_run
  start-IsCovered head chunk_size total s positive asc =
      let made : NativeRun = beating now (new_native_run now id head chunk_size total) in
      record {
        ascending = asc;
        covers = λ r e.
            loaded_as id made r s.db (sym (load-put made s.runs) ∙ e) (record {
              sized = positive;
              walked = λ x m c. not_before c;
              ended = λ e. not_over e;
            });
      }
    where
      not_before : {P : Type 0} → true ≡ false → P
      not_before e = cc

      not_over : {P : Type 0} → running ≡ finished → P
      not_over e = cc

Step-IsCovered :
    {id : ℕ} {s t : NativeStore} → Step id KeepsRows s t → IsCovered id s → IsCovered id t
Step-IsCovered {id = id} (executes now lock_free work t before after s) h =
    chunk-IsCovered id now lock_free work t (with_queue (before ++ after) s)
      (record { ascending = h.ascending; covers = h.covers })
Step-IsCovered (loses t before after s) h = record { ascending = h.ascending; covers = h.covers }
Step-IsCovered {id = id} (resumes now r s loaded) h =
    redispatch-IsCovered id now r s (own id r s loaded h) h
Step-IsCovered {id = id} (starts now other head chunk_size total s differs) h =
    start-IsCovered_other id now other head chunk_size total s differs h
Step-IsCovered {id = id} (rows_change d s k) h = with_db-IsCovered id d s k h

Steps-IsCovered :
    {id : ℕ} {s t : NativeStore} → Steps id KeepsRows s t → IsCovered id s → IsCovered id t
Steps-IsCovered here h = h
Steps-IsCovered (more e es) h = Steps-IsCovered es (Step-IsCovered e h)

-- While the Safes stay the same, in the order of their key, and no other writer takes a row away: when a run
-- with a positive chunk size is finished, every Safe has a row in the rollup, whatever messages were lost, chunks
-- were dispatched again, timed out half way or shrank, and whatever other runs did meanwhile.
pub finished_run_covers :
    (now id head chunk_size total : ℕ) (s : NativeStore) {t : NativeStore} (r : NativeRun) (x : ℕ)
    → 1 ≤ chunk_size
    → IsAscending s.db.safes
    → Steps id KeepsRows (start_native_balance_backfill_run now id head chunk_size total s) t
    → load_native_run id t.runs ≡ some r
    → r.state ≡ finished
    → contains x t.db.safes ≡ true
    → has_row x t.db.rows ≡ true
finished_run_covers now id head chunk_size total s r x positive asc es loaded over known =
    let covered =
      Steps-IsCovered es (start-IsCovered id now head chunk_size total s positive asc) in
    (covered.covers r loaded).ended over x known
