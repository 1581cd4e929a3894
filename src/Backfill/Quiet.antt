-- ===== src/Backfill/Quiet.antt =====
-- A run after `supersede_backfill_run` (safe_transaction_service/analytics/tasks_shards.py).
use safe_transaction_service.Common.{
  ℕ, suc, ◌≡◌, refl, sym, ◌∙◌, subst, ◌⊎◌, inl, inr, Bool, true, Option, none, some, List, [], ◌∷◌,
  leb, arith, Bool-cases, Option-cases,
}
use safe_transaction_service.Backfill.{
  Run, Store, Summary, load_run, save_run, superseded_run, supersede_backfill_run, or_now,
  folded_run, is_stale, advance_loaded, advance_backfill_run, backfill_done, days_of, summarize,
  ShardResult,
}
use safe_transaction_service.Backfill.Ends.{load-save}

pub load-named : (id : ℕ) (rs : List Run) (r : Run) → load_run id rs ≡ some r → r.run_id ≡ id
unfolding load_run
load-named id [] r h = cc
load-named id (x ∷ rs) r h = ground (arith, load-named id rs r)

-- A call of `backfill_done`, by what the broker and the clock say, the results and the index.
abbrev pub Callback : Type 0
Callback = Bool × ℕ × List ShardResult × ℕ

abbrev pub call_back : ℕ → Callback → Store → Store
call_back id (accepted, now, results, i) s = backfill_done accepted now results id i s

abbrev pub call_back_all : ℕ → List Callback → Store → Store
call_back_all id [] s = s
call_back_all id (c ∷ cs) s = call_back_all id cs (call_back id c s)

module _ (id : ℕ) where
  abbrev pub IsSuperseded : Store → Type 0
  IsSuperseded s =
      (load_run id s.manifests ≡ none)
      ⊎ ((r : Run) × (load_run id s.manifests ≡ some r) × (r.superseded ≡ true))

  saved-IsSuperseded :
      (run r : Run) (s : Store)
      → load_run id s.manifests ≡ some r
      → run.run_id ≡ r.run_id
      → run.superseded ≡ true
      → IsSuperseded (record s { manifests = save_run run s.manifests })
  saved-IsSuperseded run r s loaded same gone = inr (
    run,
    subst (λ (i : ℕ). load_run i (save_run run s.manifests) ≡ some run)
        (same ∙ load-named id s.manifests r loaded) (load-save run s.manifests),
    gone,
  )

  pub supersede-IsSuperseded :
      (now : ℕ) (s : Store)
      → IsSuperseded (supersede_backfill_run now id s)
        × ((supersede_backfill_run now id s).queue ≡ s.queue)
  unfolding supersede_backfill_run
  supersede-IsSuperseded now s = elim (Option-cases (load_run id s.manifests)) [
    | inl e ↦ rw e (inl e, refl)
    | inr (r, e) ↦ rw e (saved-IsSuperseded (superseded_run now r) r s e refl refl, refl)
  ]

  stale : (pointer : Option ℕ) (run : Run) → run.superseded ≡ true → is_stale pointer run ≡ true
  stale pointer run h = rw h refl

  abbrev Keeps : Store → Store → Type 0
  Keeps s s' = IsSuperseded s' × (s'.queue ≡ s.queue)

  advance_loaded-Keeps :
      (accepted : Bool) (now i : ℕ) (m : Summary) (r : Run) (s : Store)
      → load_run id s.manifests ≡ some r
      → r.superseded ≡ true
      → Keeps s (advance_loaded accepted now i m (some r) s)
  advance_loaded-Keeps accepted now i m r s e gone =
      let folded : Run = folded_run now i m r in
      elim (Bool-cases (leb r.chunk_count (suc i))) [
        | inl last ↦
            rw last
              (saved-IsSuperseded (record folded { finished_at = some now }) r s e refl gone, refl)
        | inr more ↦
            rw (more, stale s.pointer folded gone)
              (
                saved-IsSuperseded (record folded { finished_at = or_now r.finished_at now }) r s e
                    refl gone,
                refl,
              )
      ]

  call_back-Keeps : (c : Callback) (s : Store) → IsSuperseded s → Keeps s (call_back id c s)
  unfolding backfill_done advance_backfill_run
  call_back-Keeps (accepted, now, results, i) s (inl e) =
      let m : Summary = summarize (days_of i (load_run id s.manifests)) results in
      subst (λ (o : Option Run). Keeps s (advance_loaded accepted now i m o s)) (sym e)
        (inl e, refl)
  call_back-Keeps (accepted, now, results, i) s (inr (r, e, gone)) =
      let m : Summary = summarize (days_of i (load_run id s.manifests)) results in
      subst (λ (o : Option Run). Keeps s (advance_loaded accepted now i m o s)) (sym e)
        (advance_loaded-Keeps accepted now i m r s e gone)

  pub IsSuperseded-queue :
      (cs : List Callback) (s : Store) → IsSuperseded s → (call_back_all id cs s).queue ≡ s.queue
  IsSuperseded-queue [] s gone = refl
  IsSuperseded-queue (c ∷ cs) s gone =
      let (still, same) = call_back-Keeps c s gone in
      IsSuperseded-queue cs (call_back id c s) still ∙ same
