-- ===== src/Catchup/Room.antt =====
-- Rows with room for the attempts to come (safe_transaction_service/analytics/catchup/state.py).
use safe_transaction_service.Common.{
  ℕ, ◌+◌, ◌≤◌, ◌≡◌, Bool, true, false, some, List, [], ◌∷◌, All, arith, ◌==◌, select, Bool-cases,
  inl, inr,
}
use safe_transaction_service.Catchup.{
  DayState, DayResult, Code, update_day, stamp_rows, attempt, may_give_up, stamp_gave_up,
  mark_gave_up, mark_day_deferred, record_day_result, reset_core_ok, gave_up,
}
use safe_transaction_service.Catchup.Count.{count}

-- The attempts of a row and those to come are at most a number.
abbrev pub HasRoom : ℕ → List ℕ → DayState → Type 0
HasRoom most days s = s.attempts + count s.key days ≤ most

module _ (most : ℕ) (days : List ℕ) where
  update_day-HasRoom :
      (day : ℕ) (f : DayState → DayState)
      → ((s : DayState) → HasRoom most days s → HasRoom most days (f s))
      → (rows : List DayState) → All (HasRoom most days) rows
      → All (HasRoom most days) (update_day day f rows)
  unfolding update_day
  update_day-HasRoom day f keeps [] hs = tt
  update_day-HasRoom day f keeps (s ∷ ss) (h, hs) = elim (Bool-cases (s.key == day)) [
    | inl e ↦ rw e (keeps s h, update_day-HasRoom day f keeps ss hs)
    | inr e ↦ rw e (h, update_day-HasRoom day f keeps ss hs)
  ]

  stamp_rows-HasRoom :
      (p : DayState → Bool) (now : ℕ) (rows : List DayState)
      → All (HasRoom most days) rows
      → All (HasRoom most days) (stamp_rows p (stamp_gave_up now) rows)
  unfolding stamp_rows
  stamp_rows-HasRoom p now [] hs = tt
  stamp_rows-HasRoom p now (s ∷ ss) (h, hs) = elim (Bool-cases (p s)) [
    | inl e ↦ rw e (h, stamp_rows-HasRoom p now ss hs)
    | inr e ↦ rw e (h, stamp_rows-HasRoom p now ss hs)
  ]

  pub select-HasRoom :
      (p : DayState → Bool) (rows : List DayState)
      → All (HasRoom most days) rows
      → All (HasRoom most days) (select p rows)
  select-HasRoom p [] hs = tt
  select-HasRoom p (s ∷ ss) (h, hs) = elim (Bool-cases (p s)) [
    | inl e ↦ rw e (h, select-HasRoom p ss hs)
    | inr e ↦ rw e (select-HasRoom p ss hs)
  ]

  pub record_day_result-HasRoom :
      (day : ℕ) (r : DayResult) (rows : List DayState)
      → All (HasRoom most days) rows
      → All (HasRoom most days) (record_day_result day r rows)
  unfolding record_day_result
  record_day_result-HasRoom day r rows hs = update_day-HasRoom day _ (λ s h. h) rows hs

  pub reset_core_ok-HasRoom :
      (day : ℕ) (rows : List DayState)
      → All (HasRoom most days) rows
      → All (HasRoom most days) (reset_core_ok day rows)
  unfolding reset_core_ok
  reset_core_ok-HasRoom day rows hs = update_day-HasRoom day _ (λ s h. h) rows hs

  pub mark_day_deferred-HasRoom :
      (day : ℕ) (code : Code) (rows : List DayState)
      → All (HasRoom most days) rows
      → All (HasRoom most days) (mark_day_deferred day code rows)
  unfolding mark_day_deferred
  mark_day_deferred-HasRoom day code rows hs = update_day-HasRoom day _ (λ s h. h) rows hs

  pub mark_gave_up-HasRoom :
      (day now : ℕ) (rows : List DayState)
      → All (HasRoom most days) rows
      → All (HasRoom most days) (mark_gave_up day now rows).1
  unfolding mark_gave_up
  mark_gave_up-HasRoom day now rows hs =
      stamp_rows-HasRoom (may_give_up day) now
        (update_day day (λ s. record s { last_state = some gave_up }) rows)
        (update_day-HasRoom day (λ s. record s { last_state = some gave_up }) (λ s h. h) rows hs)

-- An attempt uses up the room that was kept for it.
pub attempt-HasRoom :
    (most day : ℕ) (days : List ℕ) (now : ℕ) (rows : List DayState)
    → All (HasRoom most (day ∷ days)) rows
    → All (HasRoom most days) (update_day day (attempt now) rows)
unfolding update_day attempt
attempt-HasRoom most day days now [] hs = tt
attempt-HasRoom most day days now (s ∷ ss) (h, hs) =
    let rest = attempt-HasRoom most day days now ss hs in
    elim (Bool-cases (s.key == day)) [
      | inl e ↦ let e' : (day == s.key) ≡ true = ground arith in rw e (ground arith, rest)
      | inr e ↦ let e' : (day == s.key) ≡ false = ground arith in rw e (ground arith, rest)
    ]
