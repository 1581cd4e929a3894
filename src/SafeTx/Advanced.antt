-- ===== src/SafeTx/Advanced.antt =====
-- The status that `execTransaction` stores (safe_transaction_service/history/indexers/tx_processor.py).
use safe_transaction_service.Common.{
  ◌+◌, true, Option, none, some, List, [], ◌∷◌, ◌==◌, ◌≡◌, refl, sym, ap, ◌∙◌, subst, Bool-cases,
  inl, inr,
}
use safe_transaction_service.SafeTx.{
  Env, Status, nonce_field, Field, ExecArguments, InternalTx, World, status_of, update_status,
  copy_fields, exec_transaction, store_new_safe_status, assign_status, or_else,
}
use safe_transaction_service.SafeTx.Isolation.{copy_fields-address}
use safe_transaction_service.SafeTx.Rows.{store_execution-statuses}
use safe_transaction_service.SafeTx.Executed.{on_option}

pub update_status_self :
    (fs : List Field) (t : Status) (ss : List Status)
    → status_of t.address (update_status fs t ss)
      ≡ on_option (copy_fields fs t) (status_of t.address ss)
unfolding status_of update_status on_option
update_status_self fs t [] = refl
update_status_self fs t (x ∷ ss) = elim (Bool-cases (x.address == t.address)) [
  | inl e ↦
      let e' : ((copy_fields fs t x).address == t.address) ≡ true =
        subst (λ n. (n == t.address) ≡ true) (sym (copy_fields-address fs t x)) e in
      rw (e, e') refl
  | inr e ↦ rw (e, e) (update_status_self fs t ss)
]

module _ (env : Env) (s : Status) (itx : InternalTx) (args : ExecArguments) where
  abbrev advanced : Status → Status
  advanced row = record row { nonce = or_else args.nonce s.nonce + 1; internal_tx = itx.id }

  abbrev pub advanced_row : Option Status → Option Status
  advanced_row none = none
  advanced_row (some row) = some (advanced row)

  on_option-advanced :
      (o : Option Status)
      → on_option
          (copy_fields
            (nonce_field ∷ [])
            (record s { internal_tx = itx.id; nonce = or_else args.nonce s.nonce + 1 }))
          o
        ≡ advanced_row o
  unfolding on_option
  on_option-advanced none = refl
  on_option-advanced (some row) = refl

  -- `execTransaction` sets the nonce of the stored last status to one past the nonce of the executed
  -- transaction, notes its internal transaction, and changes nothing else of that status.
  pub exec_transaction-advanced :
      (w : World)
      → status_of s.address (exec_transaction env s itx args w).db.last_statuses
        ≡ advanced_row (status_of s.address w.db.last_statuses)
  unfolding exec_transaction store_new_safe_status assign_status
  exec_transaction-advanced w =
      let t : Status = record s { internal_tx = itx.id; nonce = or_else args.nonce s.nonce + 1 } in
      ap (λ ss. status_of s.address (update_status (nonce_field ∷ []) t ss))
        (ap (λ p. p.0) (store_execution-statuses env s itx args w.db))
      ∙ update_status_self (nonce_field ∷ []) t w.db.last_statuses
      ∙ on_option-advanced (status_of s.address w.db.last_statuses)
