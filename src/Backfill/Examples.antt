-- ===== src/Backfill/Examples.antt =====
-- Runs of the daily backfill on concrete days.
use safe_transaction_service.Common.{
  ℕ, ◌≡◌, ◌≤◌, refl, true, false, none, some, List, [], ◌∷◌, pos, length, All,
}
use safe_transaction_service.Catchup.{World, Upsert, upserted, done}
use safe_transaction_service.Backfill.{
  Run, Store, new_run, split_days, build_backfill_run, start_backfill_run, drain, shard_ok,
  shard_lost, save_run, load_run, update_chunk, dispatch_chunk, backfill_done, advance_backfill_run,
}
use safe_transaction_service.Backfill.Split.{chunk_days_of, build_backfill_run_lem}
use safe_transaction_service.Backfill.Ends.{IsOver, start_backfill_run_ends}
use safe_transaction_service.Backfill.Quiet.{call_back_all}

abbrev five_days : List ℕ
five_days = 10 ∷ 11 ∷ 12 ∷ 13 ∷ 14 ∷ []

-- Chunks of two days: two of them and a last one of one day.
split_five : chunk_days_of (split_days 5 2 five_days 0 4) ≡ 14 ∷ []
unfolding split_days
split_five = refl

build_backfill_run_lem_example :
    (run : Run) × (build_backfill_run 7 1 five_days (pos 2) false ≡ some run)
    × (chunk_days_of run.chunks ≡ five_days)
    × (All (λ c. length c.days ≤ 2) run.chunks)
    × (run.chunk_count ≡ length run.chunks)
build_backfill_run_lem_example =
    build_backfill_run_lem 7 1 10 (11 ∷ 12 ∷ 13 ∷ 14 ∷ []) (pos 2) false

abbrev empty_store : Store
empty_store = record { manifests = []; pointer = none; queue = [] }

-- Each day computes, and is written.
abbrev writes : Upsert
writes day only row m =
    (upserted (record { status = done; core_ok = true; failed = []; code = none }), true, m)

abbrev no_days : World
no_days = record { states = []; metrics = record { first_day = none; completed = [] } }

abbrev five_run : Run
five_run = new_run 7 1 five_days (pos 2) true

-- With as many chords as chunks, which are three.
start_backfill_run_ends_example :
    let (taken, s, w) =
      drain writes 10 none
        (λ i. true)
        (λ i. 100)
        five_run.chunk_count
        (start_backfill_run true 7 1 five_days (pos 2) true empty_store)
        no_days in
    (taken ≡ five_days) × IsOver 1 s
start_backfill_run_ends_example =
    start_backfill_run_ends writes 10 none (λ i. 100) 7 1 10 (11 ∷ 12 ∷ 13 ∷ 14 ∷ []) (pos 2) true
      empty_store no_days refl

abbrev started : Store
started = record { manifests = five_run ∷ []; pointer = some 1; queue = [] }

-- The chord of the first chunk queues the next one.
handed_off :
    (call_back_all 1 ((true, 90, shard_ok 10 ∷ shard_lost ∷ [], 0) ∷ []) started).queue
    ≡ record { run_id = 1; chunk_index = 1; days = 12 ∷ 13 ∷ []; skip_settle_check = true } ∷ []
unfolding backfill_done advance_backfill_run load_run save_run update_chunk dispatch_chunk
    split_days
handed_off = refl
