-- ===== src/Bootstrap/Decide.antt =====
-- `_should_dispatch_after_failure` (safe_transaction_service/analytics/bootstrap/tick.py), on the row it is about.
use safe_transaction_service.Common.{
  ℕ, ◌≡◌, refl, ◌∙◌, ap, inl, inr, Bool, false, not, some, List, leb, if◌then◌else◌, Bool-cases,
}
use safe_transaction_service.Bootstrap.{
  StageName, same_name, StageRow, peek_stage_row, failed_row, record_failure, mark_gave_up,
  is_new_failure, is_cooling, count_failure, retry_cap, should_dispatch_after_failure,
}
use safe_transaction_service.Bootstrap.Lookup.{peek-save_self, peek-save_other}

abbrev pub gave_up_row : ℕ → StageRow → StageRow
gave_up_row now r = record r { gave_up_at = some now }

abbrev pub counted_row : ℕ → StageRow → StageRow
counted_row now r =
    if is_new_failure r.last_failure_at r.last_dispatch_at then failed_row now r else r

abbrev pub decided : ℕ → StageRow → Bool × StageRow
decided now r =
    let r' = counted_row now r in
    if leb retry_cap r'.consecutive_failures
    then (false, gave_up_row now r')
    else (not (is_cooling now r'.last_failure_at), r')

module _ (now : ℕ) (n : StageName) (rows : List StageRow) where
  peek-count_failure :
      peek_stage_row n (count_failure now n rows) ≡ counted_row now (peek_stage_row n rows)
  unfolding record_failure
  peek-count_failure =
      elim (Bool-cases (
        is_new_failure (peek_stage_row n rows).last_failure_at
          (peek_stage_row n rows).last_dispatch_at)) [
            | inl e ↦ rw e (peek-save_self n (failed_row now) rows (λ r. refl))
            | inr e ↦ rw e refl
          ]

  peek-count_failure_other :
      (m : StageName)
      → same_name n m ≡ false
      → peek_stage_row m (count_failure now n rows) ≡ peek_stage_row m rows
  unfolding record_failure
  peek-count_failure_other m other =
      elim (Bool-cases (
        is_new_failure (peek_stage_row n rows).last_failure_at
          (peek_stage_row n rows).last_dispatch_at)) [
            | inl e ↦ rw e (peek-save_other m n (failed_row now) rows (λ r. refl) other)
            | inr e ↦ rw e refl
          ]

  pub should_dispatch_lem :
      let (go, rows') = should_dispatch_after_failure now n rows in
      (go ≡ (decided now (peek_stage_row n rows)).0)
      × (peek_stage_row n rows' ≡ (decided now (peek_stage_row n rows)).1)
  unfolding should_dispatch_after_failure mark_gave_up
  should_dispatch_lem =
      elim (Bool-cases
        (leb retry_cap (counted_row now (peek_stage_row n rows)).consecutive_failures)) [
          | inl e ↦
              rw (peek-count_failure, e)
                (
                  refl,
                  peek-save_self n (gave_up_row now) (count_failure now n rows) (λ r. refl)
                      ∙ ap (gave_up_row now) peek-count_failure,
                )
          | inr e ↦ rw (peek-count_failure, e) (refl, peek-count_failure)
        ]

  pub should_dispatch_other :
      (m : StageName)
      → same_name n m ≡ false
      → peek_stage_row m (should_dispatch_after_failure now n rows).1 ≡ peek_stage_row m rows
  unfolding should_dispatch_after_failure mark_gave_up
  should_dispatch_other m other =
      elim (Bool-cases
        (leb retry_cap (peek_stage_row n (count_failure now n rows)).consecutive_failures)) [
          | inl e ↦ rw e (
              peek-save_other m n (gave_up_row now) (count_failure now n rows) (λ r. refl) other
              ∙ peek-count_failure_other m other)
          | inr e ↦ rw e (peek-count_failure_other m other)
        ]
