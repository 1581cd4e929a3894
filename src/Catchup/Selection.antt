-- ===== src/Catchup/Selection.antt =====
-- The days that a run of the sweeper attempts (`_catch_up_days` of
-- safe_transaction_service/analytics/catchup/sweeper.py), and when a day is settled
-- (`ensure_day_settled` of gate.py).
use safe_transaction_service.Common.{
  ℕ, zero, suc, ◌+◌, ◌*◌, ◌≤◌, ◌<◌, ◌≡◌, refl, inl, inr, Bool, true, false, Option, none, some,
  List, [], ◌∷◌, All, length, select, take, arith, leb, Bool-cases,
}
use safe_transaction_service.Catchup.{
  DayState, IndexerStatus, day_end, is_before, ensure_day_settled, CatchupSettings, get_day_state,
  is_due, is_reached, is_ready, is_unset, insert_day, sort_days, due_days, selected_days,
}

-- The indexers are past the end of the day by the minutes of slack, and no unprocessed call is from
-- before its end.
abbrev pub IsSettled : ℕ → ℕ → IndexerStatus → Type 0
IsSettled settle_minutes day s =
    (day_end day + settle_minutes * 60 ≤ s.erc20_block_timestamp)
    × (day_end day + settle_minutes * 60 ≤ s.master_copies_block_timestamp)
    × (is_before (day_end day) s.oldest_unprocessed_ts ≡ false)

ensure_day_settled-IsSettled :
    (settle_minutes day : ℕ) (s : IndexerStatus)
    → ensure_day_settled settle_minutes day s ≡ none
    → IsSettled settle_minutes day s
unfolding ensure_day_settled
ensure_day_settled-IsSettled m day s h = ground arith

-- The state of a day lets it be attempted now, and the status of the indexers does too.
abbrev pub IsReady : CatchupSettings → ℕ → Option IndexerStatus → List DayState → ℕ → Type 0
IsReady cfg now none states day = ⊥
IsReady cfg now (some status) states day =
    ((s : DayState) × (get_day_state day states ≡ some s)
      × (s.attempts < cfg.max_attempts)
      × (is_reached now s.next_attempt_at ≡ true))
    × IsSettled cfg.settle_minutes day status

module _ (P : ℕ → Type 0) where
  All-insert_day : (d : ℕ) (ds : List ℕ) → P d → All P ds → All P (insert_day d ds)
  All-insert_day d [] p ps = (p, tt)
  All-insert_day d (e ∷ es) p (q, qs) = elim (Bool-cases (leb d e)) [
    | inl h ↦ rw h (p, (q, qs))
    | inr h ↦ rw h (q, All-insert_day d es p qs)
  ]

  All-sort_days : (ds : List ℕ) → All P ds → All P (sort_days ds)
  All-sort_days [] ps = tt
  All-sort_days (d ∷ ds) (p, ps) = All-insert_day d (sort_days ds) p (All-sort_days ds ps)

  All-take : (n : ℕ) (ds : List ℕ) → All P ds → All P (take n ds)
  All-take zero ds ps = tt
  All-take (suc n) [] ps = tt
  All-take (suc n) (d ∷ ds) (p, ps) = (p, All-take n ds ps)

  All-select :
      {Q : ℕ → Type 0} (p : ℕ → Bool)
      → ((d : ℕ) → p d ≡ true → P d → Q d)
      → (ds : List ℕ) → All P ds
      → All Q (select p ds)
  All-select p f [] ps = tt
  All-select p f (d ∷ ds) (q, qs) = elim (Bool-cases (p d)) [
    | inl h ↦ rw h (f d h q, All-select p f ds qs)
    | inr h ↦ rw h (All-select p f ds qs)
  ]

All-Unit : (ds : List ℕ) → All (λ d. Unit {0}) ds
All-Unit [] = tt
All-Unit (d ∷ ds) = (tt, All-Unit ds)

length-take : (n : ℕ) (ds : List ℕ) → length (take n ds) ≤ n
length-take zero ds = omega arith
length-take (suc n) [] = omega arith
length-take (suc n) (d ∷ ds) = omega (arith, length-take n ds)

due_state :
    (cfg : CatchupSettings) (now : ℕ) (o : Option DayState)
    → is_due cfg now o ≡ true
    → (s : DayState) × (o ≡ some s)
      × (s.attempts < cfg.max_attempts)
      × (is_reached now s.next_attempt_at ≡ true)
due_state cfg now none h = cc
due_state cfg now (some s) h = (s, refl, ground arith, ground arith)

unset_none : {A : Type 0} (o : Option A) → is_unset o ≡ true → o ≡ none
unset_none none h = refl
unset_none (some a) h = cc

due-IsReady :
    (cfg : CatchupSettings) (now : ℕ) (status : Option IndexerStatus) (states : List DayState)
    (d : ℕ)
    → is_due cfg now (get_day_state d states) ≡ true
    → is_ready cfg status d ≡ true
    → IsReady cfg now status states d
due-IsReady cfg now none states d due ready = cc
due-IsReady cfg now (some status) states d due ready = (
  due_state cfg now (get_day_state d states) due,
  ensure_day_settled-IsSettled cfg.settle_minutes d status
      (unset_none (ensure_day_settled cfg.settle_minutes d status) ready),
)

-- The days that a run attempts are at most `max_days_per_run`; each has a row with fewer than
-- `max_attempts` attempts whose next attempt is due, and is settled.
pub selected_days-IsReady :
    (cfg : CatchupSettings) (now : ℕ) (status : Option IndexerStatus) (states : List DayState)
    (days : List ℕ)
    → (length (selected_days cfg now status states days) ≤ cfg.max_days_per_run)
      × All (IsReady cfg now status states) (selected_days cfg now status states days)
unfolding selected_days due_days
selected_days-IsReady cfg now status states days =
    let due = select (λ day. is_due cfg now (get_day_state day states)) days in
    let ready = select (is_ready cfg status) (sort_days due) in
    (
      length-take cfg.max_days_per_run ready,
      All-take (IsReady cfg now status states) cfg.max_days_per_run ready (
          All-select (λ d. is_due cfg now (get_day_state d states) ≡ true) (is_ready cfg status)
            (λ d r h. due-IsReady cfg now status states d h r) (sort_days due)
            (All-sort_days (λ d. is_due cfg now (get_day_state d states) ≡ true) due
              (All-select (λ d. Unit {0}) (λ day. is_due cfg now (get_day_state day states))
                (λ d h u. h) days (All-Unit days)))),
    )
