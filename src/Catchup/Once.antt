-- ===== src/Catchup/Once.antt =====
-- The errors that are logged once (`mark_gave_up` and `mark_expired_once` of
-- safe_transaction_service/analytics/catchup/state.py).
use safe_transaction_service.Common.{ℕ, ◌≡◌, refl, false, some, List, [], ◌∷◌, arith}
use safe_transaction_service.Catchup.{
  DayState, DayResult, Code, gave_up, update_day, stamp_rows, count_rows, may_give_up,
  stamp_gave_up, mark_gave_up, record_attempt, attempt, reset_core_ok, record_day_result,
  mark_day_deferred,
}

-- What happens to the rows until the day succeeds or is pruned.
pub data Update : Type 0 where
  attempted : ℕ → ℕ → Update
  reset : ℕ → Update
  resulted : ℕ → DayResult → Update
  deferred_by : ℕ → Code → Update
  given_up : ℕ → ℕ → Update

abbrev pub update : Update → List DayState → List DayState
update (attempted day now) rows = (record_attempt day now rows).1
update (reset day) rows = reset_core_ok day rows
update (resulted day r) rows = record_day_result day r rows
update (deferred_by day code) rows = mark_day_deferred day code rows
update (given_up day now) rows = (mark_gave_up day now rows).1

abbrev pub updates : List Update → List DayState → List DayState
updates [] rows = rows
updates (u ∷ us) rows = updates us (update u rows)

-- No row of the day waits for its error.
abbrev IsLogged : ℕ → List DayState → Type 0
IsLogged day rows = count_rows (may_give_up day) rows ≡ 0

update_day-IsLogged :
    (day other : ℕ) (f : DayState → DayState)
    → ((s : DayState) → may_give_up day (f s) ≡ may_give_up day s)
    → (rows : List DayState) → IsLogged day rows
    → IsLogged day (update_day other f rows)
unfolding count_rows update_day
update_day-IsLogged day other f same [] h = refl
update_day-IsLogged day other f same (s ∷ ss) h =
    ground (arith, same s, update_day-IsLogged day other f same ss)

stamp-IsLogged :
    (day other now : ℕ) (rows : List DayState)
    → IsLogged day rows
    → IsLogged day (stamp_rows (may_give_up other) (stamp_gave_up now) rows)
unfolding count_rows stamp_rows
stamp-IsLogged day other now [] h = refl
stamp-IsLogged day other now (s ∷ ss) h = ground (arith, stamp-IsLogged day other now ss)

stamp-logs :
    (day now : ℕ) (rows : List DayState)
    → IsLogged day (stamp_rows (may_give_up day) (stamp_gave_up now) rows)
unfolding count_rows stamp_rows
stamp-logs day now [] = refl
stamp-logs day now (s ∷ ss) = ground (arith, stamp-logs day now ss)

update-IsLogged :
    (day : ℕ) (u : Update) (rows : List DayState) → IsLogged day rows → IsLogged day (update u rows)
unfolding record_attempt attempt reset_core_ok record_day_result mark_day_deferred mark_gave_up
update-IsLogged day (attempted other now) rows h =
    update_day-IsLogged day other (attempt now) (λ s. refl) rows h
update-IsLogged day (reset other) rows h = update_day-IsLogged day other _ (λ s. refl) rows h
update-IsLogged day (resulted other r) rows h = update_day-IsLogged day other _ (λ s. refl) rows h
update-IsLogged day (deferred_by other code) rows h =
    update_day-IsLogged day other _ (λ s. refl) rows h
update-IsLogged day (given_up other now) rows h =
    stamp-IsLogged day other now _ (update_day-IsLogged day other _ (λ s. refl) rows h)

updates-IsLogged :
    (day : ℕ) (us : List Update) (rows : List DayState)
    → IsLogged day rows
    → IsLogged day (updates us rows)
updates-IsLogged day [] rows h = h
updates-IsLogged day (u ∷ us) rows h =
    updates-IsLogged day us (update u rows) (update-IsLogged day u rows h)

-- After `mark_gave_up` the error of a day is not logged again, whatever attempts, resets, results,
-- deferrals and further marks of any day come in between.
pub mark_gave_up_once :
    (day now later : ℕ) (us : List Update) (rows : List DayState)
    → (mark_gave_up day later (updates us (mark_gave_up day now rows).1)).0 ≡ false
unfolding mark_gave_up
mark_gave_up_once day now later us rows =
    let logged =
      updates-IsLogged day us (mark_gave_up day now rows).1
        (stamp-logs day now (update_day day (λ s. record s { last_state = some gave_up }) rows)) in
    let again =
      update_day-IsLogged day day (λ s. record s { last_state = some gave_up }) (λ s. refl)
        (updates us (mark_gave_up day now rows).1) logged in
    rw again refl
