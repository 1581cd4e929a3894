-- ===== src/Bootstrap/Replaced.antt =====
-- A stalled run that the daily stage replaces (safe_transaction_service/analytics/bootstrap/daily.py).
use safe_transaction_service.Common.{
  ℕ, ◌≡◌, refl, ◌∙◌, ap, inl, inr, Bool, true, false, some, List, [], ◌∷◌, pos, ◌==◌, arith,
}
use safe_transaction_service.Backfill.{
  new_run, Run, Store, load_run, save_run, supersede_backfill_run, start_backfill_run,
  build_backfill_run, dispatch_chunk, with_started,
}
use safe_transaction_service.Backfill.Quiet.{
  Callback, call_back_all, IsSuperseded, supersede-IsSuperseded, IsSuperseded-queue,
}
use safe_transaction_service.Bootstrap.{
  DailyWorld, stalled, daily_status, daily_start_or_resume, missing_days, dispatch_missing,
  current_run,
}

load-save_other :
    (id : ℕ) (run : Run) (rs : List Run)
    → (run.run_id == id) ≡ false
    → load_run id (save_run run rs) ≡ load_run id rs
unfolding load_run save_run
load-save_other id run [] h = rw h refl
load-save_other id run (r ∷ rs) h = ground (arith, load-save_other id run rs h)

manifests-dispatch :
    (accepts : Bool) (now : ℕ) (run : Run) (s : Store)
    → (dispatch_chunk accepts now run 0 s).manifests ≡ save_run (with_started now 0 run) s.manifests
unfolding dispatch_chunk
manifests-dispatch true now run s = refl
manifests-dispatch false now run s = refl

load-dispatch_missing :
    (accepts : Bool) (fresh_id : Store → ℕ) (now id : ℕ) (days : List ℕ) (s : Store)
    → (fresh_id s == id) ≡ false
    → load_run id (dispatch_missing accepts fresh_id now days s).manifests ≡ load_run id s.manifests
unfolding start_backfill_run build_backfill_run
load-dispatch_missing accepts fresh_id now id [] s other = refl
load-dispatch_missing accepts fresh_id now id (d ∷ ds) s other =
    let run : Run = new_run now (fresh_id s) (d ∷ ds) (pos 7) false in
    let begun : Store = record s {
      manifests = save_run run s.manifests;
      pointer = some (fresh_id s);
    } in
    ap (load_run id) (manifests-dispatch accepts now run begun)
    ∙ load-save_other id (with_started now 0 run) begun.manifests other
    ∙ load-save_other id run s.manifests other

IsSuperseded-same :
    (id : ℕ) (s s' : Store)
    → load_run id s'.manifests ≡ load_run id s.manifests
    → IsSuperseded id s
    → IsSuperseded id s'
IsSuperseded-same id s s' e (inl h) = inl (e ∙ h)
IsSuperseded-same id s s' e (inr (r, h, gone)) = inr (r, e ∙ h, gone)

-- A start over a stalled run supersedes that run: whatever calls of its callback follow, with any results,
-- they queue no chord beside those of the new run. The new run has another id.
pub daily_start_or_resume_replaces :
    (depth : ℕ) (accepts : Bool) (fresh_id : Store → ℕ) (w : DailyWorld) (run : Run)
    (cs : List Callback)
    → daily_status depth w ≡ stalled
    → current_run depth w ≡ some run
    → ((s : Store) → (fresh_id s == run.run_id) ≡ false)
    → let s = (daily_start_or_resume depth accepts fresh_id w).store in
      (call_back_all run.run_id cs s).queue ≡ s.queue
unfolding daily_start_or_resume
daily_start_or_resume_replaces depth accepts fresh_id w run cs halted current new =
    let id : ℕ = run.run_id in
    let gone : Store = supersede_backfill_run w.now id w.store in
    let s' : Store = dispatch_missing accepts fresh_id w.now (missing_days depth w) gone in
    rw (halted, current)
      (IsSuperseded-queue id cs s' (
        IsSuperseded-same id gone s'
          (load-dispatch_missing accepts fresh_id w.now id (missing_days depth w) gone (new gone))
          (supersede-IsSuperseded id w.now w.store).0))
