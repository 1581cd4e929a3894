-- ===== src/Backfill/Ends.antt =====
-- A run from its start to its end (safe_transaction_service/analytics/tasks_shards.py).
use safe_transaction_service.Common.{
  ℕ, suc, ◌+◌, ◌≤◌, ◌≡◌, refl, sym, ◌∙◌, ap, subst, inl, inr, Bool, true, false, Option, some, List,
  [], ◌∷◌, ◌++◌, ℤ, leb, le→leb, ==_self, length, take, arith, Bool-cases, All, All-append,
  length-append, append_assoc, ◌==◌,
}
use safe_transaction_service.Catchup.{IndexerStatus, Upsert, World}
use safe_transaction_service.Backfill.{
  Chunk, done, Run, Store, Summary, new_run, build_backfill_run, load_run, save_run, update_chunk,
  days_at, started_chunk, with_started, dispatch_chunk, start_run, start_backfill_run, done_chunk,
  folded_run, is_stale, advance_backfill_run, backfill_done, days_of, summarize, run_shards, drain,
  split_days, new_chunk, size_or,
}
use safe_transaction_service.Backfill.Split.{chunk_days_of, split_days_concat, size_or_pos}

pub load-save : (run : Run) (rs : List Run) → load_run run.run_id (save_run run rs) ≡ some run
unfolding load_run save_run
load-save run [] = rw (==_self run.run_id) refl
load-save run (r ∷ rs) = elim (Bool-cases (r.run_id == run.run_id)) [
  | inl e ↦ rw e (rw (==_self run.run_id) refl)
  | inr e ↦ rw (e, e) (load-save run rs)
]

-- A chunk behind others.
module _ (c : Chunk) (post : List Chunk) where
  update_chunk-append :
      (f : Chunk → Chunk) (pre : List Chunk)
      → update_chunk (length pre) f (pre ++ c ∷ post) ≡ pre ++ f c ∷ post
  unfolding update_chunk
  update_chunk-append f [] = refl
  update_chunk-append f (x ∷ pre) = ap (λ (cs : List Chunk). x ∷ cs) (update_chunk-append f pre)

  days_at-append : (pre : List Chunk) → days_at (length pre) (pre ++ c ∷ post) ≡ c.days
  days_at-append [] = refl
  days_at-append (x ∷ pre) = days_at-append pre

length_snoc : (pre : List Chunk) (c : Chunk) → length (pre ++ c ∷ []) ≡ suc (length pre)
length_snoc pre c = omega (arith, length-append pre (c ∷ []))

abbrev pub IsDone : Chunk → Type 0
IsDone c = c.state ≡ done

lt→leb : (a b : ℕ) → suc a ≤ b → leb b a ≡ false
lt→leb a b h = ground arith

-- The chunk `c` is queued, those before it are done, those after it have not begun.
pub record IsAt (id : ℕ) (skip : Bool) (pre : List Chunk) (c : Chunk) (post : List Chunk)
    (s : Store) : Type 0 where
  pub run : Run
  pub loaded : load_run id s.manifests ≡ some run
  pub named : run.run_id ≡ id
  pub skips : run.skip_settle_check ≡ skip
  pub chunks : run.chunks ≡ pre ++ c ∷ post
  pub counted : run.chunk_count ≡ length (pre ++ c ∷ post)
  pub current : run.superseded ≡ false
  pub pointed : s.pointer ≡ some id
  pub queued :
      s.queue
      ≡ record { run_id = id; chunk_index = length pre; days = c.days; skip_settle_check = skip }
        ∷ []
  pub before : All IsDone pre

-- No chord is left, and the run is closed with all its chunks done.
pub record IsOver (id : ℕ) (s : Store) : Type 0 where
  pub run : Run
  pub loaded : load_run id s.manifests ≡ some run
  pub closed : (t : ℕ) × (run.finished_at ≡ some t)
  pub chunks_done : All IsDone run.chunks
  pub none_queued : s.queue ≡ []

module _ (id : ℕ) (skip : Bool) (now : ℕ) (m : Summary) where
  last-IsOver :
      (pre : List Chunk) (c : Chunk) (s : Store)
      → IsAt id skip pre c [] s
      → IsOver id (advance_backfill_run true now id (length pre) m (record s { queue = [] }))
  unfolding advance_backfill_run
  last-IsOver pre c s h =
      let folded : Run = folded_run now (length pre) m h.run in
      let closed_run : Run = record folded { finished_at = some now } in
      let last : leb h.run.chunk_count (suc (length pre)) ≡ true =
        le→leb h.run.chunk_count (suc (length pre)) (omega (arith, h.counted, length_snoc pre c)) in
      rw (h.loaded, last)
        (record {
          run = closed_run;
          loaded =
              subst (λ (i : ℕ). load_run i (save_run closed_run s.manifests) ≡ some closed_run)
                h.named (load-save closed_run s.manifests);
          closed = (now, refl);
          chunks_done =
              rw (h.chunks, update_chunk-append c [] (done_chunk now m) pre)
                (All-append IsDone pre (done_chunk now m c ∷ []) h.before (refl, tt));
          none_queued = refl;
        })

  next-IsAt :
      (pre : List Chunk) (c next : Chunk) (post : List Chunk) (s : Store)
      → IsAt id skip pre c (next ∷ post) s
      → IsAt id skip
          (pre ++ done_chunk now m c ∷ [])
          (started_chunk now next)
          post
          (advance_backfill_run true now id (length pre) m (record s { queue = [] }))
  unfolding advance_backfill_run dispatch_chunk
  next-IsAt pre c next post s h =
      let done_now : Chunk = done_chunk now m c in
      let pre' : List Chunk = pre ++ done_now ∷ [] in
      let folded : Run = folded_run now (length pre) m h.run in
      let run' : Run = with_started now (suc (length pre)) folded in
      let len : length pre' ≡ suc (length pre) = length_snoc pre done_now in
      let all_chunks : folded.chunks ≡ pre' ++ next ∷ post =
        ap (update_chunk (length pre) (done_chunk now m)) h.chunks
        ∙ update_chunk-append c (next ∷ post) (done_chunk now m) pre
        ∙ sym (append_assoc pre (done_now ∷ []) (next ∷ post)) in
      let started : run'.chunks ≡ pre' ++ started_chunk now next ∷ post =
        subst
          (λ (i : ℕ).
            update_chunk i (started_chunk now) folded.chunks
            ≡ pre' ++ started_chunk now next ∷ post)
          len (rw all_chunks (update_chunk-append next post (started_chunk now) pre')) in
      let days : days_at (suc (length pre)) folded.chunks ≡ next.days =
        subst (λ (i : ℕ). days_at i folded.chunks ≡ next.days) len
          (rw all_chunks (days_at-append next post pre')) in
      let not_last : leb h.run.chunk_count (suc (length pre)) ≡ false =
        lt→leb (suc (length pre)) h.run.chunk_count
          (omega (arith, h.counted, length-append pre (c ∷ next ∷ post))) in
      let fresh : is_stale s.pointer folded ≡ false =
        rw (h.current, h.pointed, h.named, ==_self id) refl in
      rw (h.loaded, not_last, fresh)
        (record {
          run = run';
          loaded =
              subst (λ (i : ℕ). load_run i (save_run run' s.manifests) ≡ some run') h.named
                (load-save run' s.manifests);
          named = h.named;
          skips = h.skips;
          chunks = started;
          counted =
              h.counted
              ∙ omega (
                arith,
                length-append pre (c ∷ next ∷ post),
                length-append pre' (started_chunk now next ∷ post),
                len,
              );
          current = h.current;
          pointed = h.pointed;
          queued = rw (h.named, len, h.skips, days) refl;
          before = All-append IsDone pre (done_now ∷ []) h.before (refl, tt);
        })

module _ (upsert : Upsert) (settle_minutes : ℕ) (status : Option IndexerStatus)
    (clock : ℕ → ℕ) where
  abbrev run_out : ℕ → Store → World → List ℕ × Store × World
  run_out fuel s w = drain upsert settle_minutes status (λ i. true) clock fuel s w

  abbrev Ends : ℕ → List ℕ → List ℕ × Store × World → Type 0
  Ends id days (taken, s, w) = (taken ≡ days) × IsOver id s

  drain-Ends :
      (id : ℕ) (skip : Bool) (post pre : List Chunk) (c : Chunk) (s : Store) (w : World)
      → IsAt id skip pre c post s
      → Ends id (c.days ++ chunk_days_of post) (run_out (suc (length post)) s w)
  unfolding drain backfill_done
  drain-Ends id skip [] pre c s w h =
      let results = run_shards upsert settle_minutes status skip c.days w in
      let days = days_of (length pre) (load_run id s.manifests) in
      rw h.queued
        (refl, last-IsOver id skip (clock (length pre)) (summarize days results.0) pre c s h)
  drain-Ends id skip (next ∷ post) pre c s w h =
      let results = run_shards upsert settle_minutes status skip c.days w in
      let m : Summary = summarize (days_of (length pre) (load_run id s.manifests)) results.0 in
      let s' : Store =
        advance_backfill_run true (clock (length pre)) id (length pre) m
          (record s { queue = [] }) in
      let (taken, over) =
        drain-Ends id skip post (pre ++ done_chunk (clock (length pre)) m c ∷ [])
          (started_chunk (clock (length pre)) next) s' results.1
          (next-IsAt id skip (clock (length pre)) m pre c next post s h) in
      rw h.queued (ap (λ (ds : List ℕ). c.days ++ ds) taken, over)

  start-IsAt :
      (now id size : ℕ) (skip : Bool) (c : Chunk) (post : List Chunk) (run : Run) (s : Store)
      → run.run_id ≡ id
      → run.skip_settle_check ≡ skip
      → run.chunks ≡ c ∷ post
      → run.chunk_count ≡ length (c ∷ post)
      → run.superseded ≡ false
      → s.queue ≡ []
      → IsAt id skip [] (started_chunk now c) post (start_run true now (some run) s)
  unfolding dispatch_chunk update_chunk
  start-IsAt now id size skip c post run s named skips chunks counted current idle =
      let run' : Run = with_started now 0 run in
      record {
        run = run';
        loaded =
            subst (λ (i : ℕ). load_run i (save_run run' (save_run run s.manifests)) ≡ some run')
              named (load-save run' (save_run run s.manifests));
        named = named;
        skips = skips;
        chunks = rw chunks refl;
        counted = counted;
        current = current;
        pointed = ap some named;
        queued = rw (idle, named, chunks, skips) refl;
        before = tt;
      }

  -- A run that is started while no chord is queued comes to its end: after as many chords as it has chunks,
  -- none is left, the run is closed with all chunks done, and the shards have taken exactly the given days,
  -- in their order. The broker takes each chord; what the shards return does not matter.
  pub start_backfill_run_ends :
      (now id d : ℕ) (ds : List ℕ) (chunk_days : ℤ) (skip : Bool) (s : Store) (w : World)
      → s.queue ≡ []
      → let run = new_run now id (d ∷ ds) chunk_days skip in
        let (taken, s', w') =
          run_out run.chunk_count (start_backfill_run true now id (d ∷ ds) chunk_days skip s) w in
        (taken ≡ d ∷ ds) × IsOver id s'
  unfolding start_backfill_run build_backfill_run split_days
  start_backfill_run_ends now id d ds chunk_days skip s w idle =
      let size = size_or chunk_days (length (d ∷ ds)) in
      let c : Chunk = new_chunk 0 (take size (d ∷ ds)) in
      let post : List Chunk = split_days (length ds) size (d ∷ ds) 1 (0 + size) in
      let run : Run = new_run now id (d ∷ ds) chunk_days skip in
      let begun : run.chunks ≡ c ∷ post = rw (lt→leb 0 (suc (length ds)) (omega arith)) refl in
      let counted : run.chunk_count ≡ length (c ∷ post) = ap length begun in
      let all_days : c.days ++ chunk_days_of post ≡ d ∷ ds =
        ap chunk_days_of (sym begun)
        ∙ split_days_concat (length (d ∷ ds)) size (d ∷ ds) 0 0
            (size_or_pos chunk_days (length (d ∷ ds)) (omega arith)) (omega arith) in
      let (taken, over) =
        drain-Ends id skip post [] (started_chunk now c) (start_run true now (some run) s) w
          (start-IsAt now id size skip c post run s refl refl begun counted refl idle) in
      subst (λ (n : ℕ). Ends id (d ∷ ds) (run_out n (start_run true now (some run) s) w))
        (sym counted) (taken ∙ all_days, over)
