-- ===== src/Native/Seeded.antt =====
-- What a run has covered after a save, a dispatch and the work of a chunk
-- (safe_transaction_service/analytics/tasks_shards.py).
use safe_transaction_service.Common.{
  ℕ, ◌≤◌, ◌≡◌, inl, inr, refl, sym, ◌∙◌, subst, Bool, Option, none, some, List, [], ◌∷◌, ◌==◌,
  arith, Bool-cases,
}
use safe_transaction_service.Native.{
  finished, failed, RollupDb, NativeRun, ChunkTask, NativeStore, load_native_run, put_native_run,
  save_native_run, beating, bumped, redispatch, shrink_to, failed_run, after_work,
  safe_addresses_after, finished_run, advanced_run, worked_db, writes_watermark,
}
use safe_transaction_service.Native.Single.{load-put, load-put_other}
use safe_transaction_service.Native.Effects.{with_queue, with_db}
use safe_transaction_service.Native.Rows.{IsAscending}
use safe_transaction_service.Native.Covered.{
  KeepsRows, RunCovers, IsCovered, RunCovers-kept, worked_keeps, finished-RunCovers,
  advanced-RunCovers,
}

-- What a save needs: the run covers, when it is the one of the id.
abbrev pub Own : ℕ → NativeRun → RollupDb → Type 0
Own id r db = r.run_id ≡ id → RunCovers r db

module _ (id : ℕ) where
  pub with_queue-IsCovered :
      (q : List ChunkTask) (s : NativeStore) → IsCovered id s → IsCovered id (with_queue q s)
  with_queue-IsCovered q s h = record { ascending = h.ascending; covers = h.covers }

  pub with_db-IsCovered :
      (d : RollupDb) (s : NativeStore)
      → KeepsRows s.db d
      → IsCovered id s
      → IsCovered id (with_db d s)
  with_db-IsCovered d s k h = record {
    ascending = subst (λ (xs : List ℕ). IsAscending xs) (sym k.same_safes) h.ascending;
    covers = λ r e. RunCovers-kept r s.db d k (h.covers r e);
  }

  pub own :
      (r : NativeRun) (s : NativeStore)
      → load_native_run r.run_id s.runs ≡ some r
      → IsCovered id s
      → Own id r s.db
  own r s loaded h =
      λ named. h.covers r (subst (λ (i : ℕ). load_native_run i s.runs ≡ some r) named loaded)

  pub loaded_as :
      (run r : NativeRun) (db : RollupDb) → some run ≡ some r → RunCovers run db → RunCovers r db
  loaded_as run r db e h = subst (λ (x : NativeRun). RunCovers x db) same h
    where
      same : run ≡ r
      same = cc

  pub save-IsCovered :
      (now : ℕ) (run : NativeRun) (s : NativeStore)
      → Own id run s.db
      → IsCovered id s
      → IsCovered id (save_native_run now run s)
  unfolding save_native_run
  save-IsCovered now run s mine h = record {
    ascending = h.ascending;
    covers = λ r e. elim (Bool-cases (run.run_id == id)) [
      | inl same ↦
          let named : run.run_id ≡ id = ground (arith, same) in
          let c : RunCovers run s.db = mine named in
          let put =
            subst
              (λ (i : ℕ).
                load_native_run i (put_native_run (beating now run) s.runs)
                ≡ some (beating now run))
              named (load-put (beating now run) s.runs) in
          loaded_as (beating now run) r s.db (sym put ∙ e)
            (record { sized = c.sized; walked = c.walked; ended = c.ended })
      | inr other ↦ h.covers r (sym (load-put_other id (beating now run) s.runs other) ∙ e)
    ];
  }

  pub redispatch-IsCovered :
      (now : ℕ) (run : NativeRun) (s : NativeStore)
      → Own id run s.db
      → IsCovered id s
      → IsCovered id (redispatch now run s)
  unfolding redispatch
  redispatch-IsCovered now run s mine h =
      let saved : IsCovered id (save_native_run now (bumped run) s) =
        save-IsCovered now (bumped run) s
          (λ named.
            let c : RunCovers run s.db = mine named in
            record { sized = c.sized; walked = c.walked; ended = c.ended })
          h in
      record { ascending = saved.ascending; covers = saved.covers }

  pub failed-Own :
      (now : ℕ) (r : NativeRun) (db : RollupDb) → Own id r db → Own id (failed_run now r) db
  failed-Own now r db mine = λ named.
      let c : RunCovers r db = mine named in
      record { sized = c.sized; walked = c.walked; ended = λ over. never over }
    where
      never : {P : Type 0} → failed ≡ finished → P
      never e = cc

  pub shrink_to-IsCovered :
      (now : ℕ) (r : NativeRun) (size : Option ℕ) (s : NativeStore)
      → ((n : ℕ) → size ≡ some n → 1 ≤ n)
      → Own id r s.db
      → IsCovered id s
      → IsCovered id (shrink_to now r size s)
  shrink_to-IsCovered now r none s positive mine h =
      save-IsCovered now (failed_run now r) s (failed-Own now r s.db mine) h
  shrink_to-IsCovered now r (some n) s positive mine h =
      redispatch-IsCovered now (record r { chunk_size = n }) s
        (λ named.
          let c : RunCovers r s.db = mine named in
          record { sized = positive n refl; walked = c.walked; ended = c.ended })
        h

  pub after_work-IsCovered :
      (now : ℕ) (r : NativeRun) (page : List ℕ) (s : NativeStore)
      → safe_addresses_after r.cursor r.chunk_size s.db ≡ page
      → Own id r s.db
      → IsCovered id s
      → IsCovered id (after_work now r page s)
  after_work-IsCovered now r [] s e mine h =
      let wrote : Bool = writes_watermark s.db in
      save-IsCovered now (finished_run now wrote r) (with_db (worked_db r [] s.db) s)
        (λ named. finished-RunCovers now wrote r s.db e (mine named))
        (with_db-IsCovered (worked_db r [] s.db) s (worked_keeps r [] s.db) h)
  after_work-IsCovered now r (a ∷ later) s e mine h =
      let d : RollupDb = worked_db r (a ∷ later) s.db in
      redispatch-IsCovered now (advanced_run a later s.db r) (with_db d s)
        (λ named. advanced-RunCovers a later r s.db e h.ascending (mine named))
        (with_db-IsCovered d s (worked_keeps r (a ∷ later) s.db) h)
