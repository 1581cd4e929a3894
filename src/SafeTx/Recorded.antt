-- ===== src/SafeTx/Recorded.antt =====
-- The last status of a Safe and its row in the history
-- (safe_transaction_service/history/indexers/tx_processor.py).
use safe_transaction_service.Common.{
  ℕ, Option, none, some, List, [], ◌∷◌, ◌≡◌, ap, ◌∙◌, arith, ◌==◌, if◌then◌else◌,
}
use safe_transaction_service.SafeTx.{
  Status, Field, World, status_of, save_status, save_history, update_status, copy_fields,
  store_new_safe_status,
}
use safe_transaction_service.SafeTx.Isolation.{last_of}
use safe_transaction_service.SafeTx.Executed.{on_option}
use safe_transaction_service.SafeTx.Advanced.{update_status_self}

-- The history row of an internal transaction.
abbrev pub history_of : ℕ → List Status → Option Status
history_of n [] = none
history_of n (s ∷ ss) = if s.internal_tx == n then some s else history_of n ss

-- The last status of the Safe is there, and its history row is the same.
abbrev pub IsRecorded : ℕ → World → Type 0
IsRecorded a w =
    (t : Status) × (last_of a w ≡ some t) × (history_of t.internal_tx w.db.statuses ≡ some t)

pub save_history_self :
    (s : Status) (ss : List Status) → history_of s.internal_tx (save_history s ss) ≡ some s
unfolding save_history
save_history_self s [] = ground arith
save_history_self s (x ∷ ss) = ground (arith, save_history_self s ss)

pub save_status_self :
    (s : Status) (ss : List Status) → status_of s.address (save_status s ss) ≡ some s
unfolding save_status status_of
save_status_self s [] = ground arith
save_status_self s (x ∷ ss) = ground (arith, save_status_self s ss)

update_status_found :
    (fs : List Field) (s r : Status) (ss : List Status)
    → status_of s.address ss ≡ some r
    → copy_fields fs s r ≡ s
    → status_of s.address (update_status fs s ss) ≡ some s
unfolding on_option
update_status_found fs s r ss h e =
    update_status_self fs s ss ∙ ap (on_option (copy_fields fs s)) h ∙ ap some e

-- A store is recorded if the fields that it leaves out are as in the row.
pub store-IsRecorded :
    (s : Status) (n : ℕ) (fs : List Field) (w : World) (r : Status)
    → last_of s.address w ≡ some r
    → copy_fields fs (record s { internal_tx = n }) r ≡ record s { internal_tx = n }
    → IsRecorded s.address (store_new_safe_status s n fs w)
unfolding store_new_safe_status
store-IsRecorded s n [] w r h e =
    let s' : Status = record s { internal_tx = n } in
    (s', save_status_self s' w.db.last_statuses, save_history_self s' w.db.statuses)
store-IsRecorded s n (f ∷ fs) w r h e =
    let s' : Status = record s { internal_tx = n } in
    (
      s',
      update_status_found (f ∷ fs) s' r w.db.last_statuses h e,
      save_history_self s' w.db.statuses,
    )
