-- ===== src/Native/Single.antt =====
-- The chunk tasks of a run in the queue (safe_transaction_service/analytics/tasks_shards.py), under workers that
-- take them in any order, messages that are lost, and resumes.
use safe_transaction_service.Common.{
  ℕ, suc, ◌+◌, ◌≤◌, ◌≡◌, refl, ◌∙◌, subst, inl, inr, Bool, false, ◌&&◌, some, List, [], ◌∷◌, ◌++◌,
  ◌==◌, ltb, ==_self, if◌then◌else◌, arith, Bool-cases,
}
use safe_transaction_service.Native.{
  NativeRun, ChunkTask, NativeStore, load_native_run, put_native_run, save_native_run, beating,
  enqueue, bumped, redispatch,
}

pub load-put :
    (run : NativeRun) (rs : List NativeRun)
    → load_native_run run.run_id (put_native_run run rs) ≡ some run
unfolding load_native_run put_native_run
load-put run [] = rw (==_self run.run_id) refl
load-put run (r ∷ rs) = elim (Bool-cases (r.run_id == run.run_id)) [
  | inl e ↦ rw e (rw (==_self run.run_id) refl)
  | inr e ↦ rw (e, e) (load-put run rs)
]

pub load-put_other :
    (id : ℕ) (run : NativeRun) (rs : List NativeRun)
    → (run.run_id == id) ≡ false
    → load_native_run id (put_native_run run rs) ≡ load_native_run id rs
unfolding load_native_run put_native_run
load-put_other id run [] h = rw h refl
load-put_other id run (r ∷ rs) h = ground (arith, load-put_other id run rs h)

pub load-named :
    (id : ℕ) (rs : List NativeRun) (r : NativeRun) → load_native_run id rs ≡ some r → r.run_id ≡ id
unfolding load_native_run
load-named id [] r h = cc
load-named id (x ∷ rs) r h = ground (arith, load-named id rs r)

-- How many tasks pass a test.
abbrev pub tally : (ChunkTask → Bool) → List ChunkTask → ℕ
tally p [] = 0
tally p (t ∷ ts) = let rest = tally p ts in if p t then suc rest else rest

pub tally-append :
    (p : ChunkTask → Bool) (xs ys : List ChunkTask) → tally p (xs ++ ys) ≡ tally p xs + tally p ys
tally-append p [] ys = omega arith
tally-append p (x ∷ xs) ys = ground (arith, tally-append p xs ys)

-- The tasks of a run with a dispatch number, and those with a later one.
abbrev pub is_live : ℕ → ℕ → ChunkTask → Bool
is_live id seq t = t.task_run == id && t.task_seq == seq

abbrev pub is_ahead : ℕ → ℕ → ChunkTask → Bool
is_ahead id seq t = t.task_run == id && ltb seq t.task_seq

live_next :
    (id seq : ℕ) (ts : List ChunkTask)
    → tally (is_live id (suc seq)) ts ≤ tally (is_ahead id seq) ts
live_next id seq [] = omega arith
live_next id seq (t ∷ ts) = ground (arith, live_next id seq ts)

ahead_next :
    (id seq : ℕ) (ts : List ChunkTask)
    → tally (is_ahead id (suc seq)) ts ≤ tally (is_ahead id seq) ts
ahead_next id seq [] = omega arith
ahead_next id seq (t ∷ ts) = ground (arith, ahead_next id seq ts)

-- At most one task of the run has its current number, and none a later one.
pub record IsSingle (id : ℕ) (s : NativeStore) : Type 0 where
  pub run : NativeRun
  pub loaded : load_native_run id s.runs ≡ some run
  pub one_live : tally (is_live id run.dispatch_seq) s.queue ≤ 1
  pub none_ahead : tally (is_ahead id run.dispatch_seq) s.queue ≡ 0

module _ (id now : ℕ) where
  -- A save of the run itself, under its number.
  pub save-IsSingle :
      (run' : NativeRun) (s : NativeStore) (h : IsSingle id s)
      → run'.run_id ≡ id
      → run'.dispatch_seq ≡ h.run.dispatch_seq
      → IsSingle id (save_native_run now run' s)
  unfolding save_native_run
  save-IsSingle run' s h named same = record {
    run = beating now run';
    loaded =
        subst
          (λ (i : ℕ).
            load_native_run i (put_native_run (beating now run') s.runs) ≡ some (beating now run'))
          named (load-put (beating now run') s.runs);
    one_live = rw same h.one_live;
    none_ahead = rw same h.none_ahead;
  }

  pub redispatch-IsSingle :
      (run' : NativeRun) (s : NativeStore) (h : IsSingle id s)
      → run'.run_id ≡ id
      → run'.dispatch_seq ≡ h.run.dispatch_seq
      → IsSingle id (redispatch now run' s)
  unfolding redispatch save_native_run
  redispatch-IsSingle run' s h named same =
      let next : NativeRun = beating now (bumped run') in
      let task : ChunkTask = record { task_run = run'.run_id; task_seq = suc run'.dispatch_seq } in
      let none : tally (is_ahead id run'.dispatch_seq) s.queue ≡ 0 = rw same h.none_ahead in
      let added_live = tally-append (is_live id (suc run'.dispatch_seq)) s.queue (task ∷ []) in
      let added_ahead = tally-append (is_ahead id (suc run'.dispatch_seq)) s.queue (task ∷ []) in
      record {
        run = next;
        loaded =
            subst (λ (i : ℕ). load_native_run i (put_native_run next s.runs) ≡ some next) named
              (load-put next s.runs);
        one_live = ground (arith, none, added_live, live_next id run'.dispatch_seq s.queue);
        none_ahead = ground (arith, none, added_ahead, ahead_next id run'.dispatch_seq s.queue);
      }

  -- What happens to another run.
  pub save-IsSingle_other :
      (run' : NativeRun) (s : NativeStore)
      → (run'.run_id == id) ≡ false
      → IsSingle id s
      → IsSingle id (save_native_run now run' s)
  unfolding save_native_run
  save-IsSingle_other run' s other h = record {
    run = h.run;
    loaded = load-put_other id (beating now run') s.runs other ∙ h.loaded;
    one_live = h.one_live;
    none_ahead = h.none_ahead;
  }

  pub enqueue-IsSingle_other :
      (other_id seq : ℕ) (s : NativeStore)
      → (other_id == id) ≡ false
      → IsSingle id s
      → IsSingle id (enqueue other_id seq s)
  enqueue-IsSingle_other other_id seq s other h =
      let task : ChunkTask = record { task_run = other_id; task_seq = seq } in
      record {
        run = h.run;
        loaded = h.loaded;
        one_live =
            rw (tally-append (is_live id h.run.dispatch_seq) s.queue (task ∷ []))
              (rw other (omega (arith, h.one_live)));
        none_ahead =
            rw (tally-append (is_ahead id h.run.dispatch_seq) s.queue (task ∷ []))
              (rw other (omega (arith, h.none_ahead)));
      }
