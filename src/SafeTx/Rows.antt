-- ===== src/SafeTx/Rows.antt =====
-- The calls that store transactions and confirmations, beside the rows of statuses
-- (safe_transaction_service/history/indexers/tx_processor.py).
use safe_transaction_service.Common.{ℕ, Option, none, some, List, [], ◌∷◌, ◌≡◌, refl, ◌∙◌, Bytes}
use safe_transaction_service.SafeTx.{
  Env, Signature, Status, ExecArguments, MultisigConfirmation, InternalTx, Database,
  confirm_signature, confirm_signatures, store_execution, store_approval, multisig_of,
  confirmation_of, create_multisig, create_confirmation, unless_found, get_or_create_confirmation,
  signed_confirmation, approved_confirmation, store_multisig, executed_multisig, executed_hash,
}

-- The last statuses and the history.
abbrev pub status_rows : Database → List Status × List Status
status_rows d = (d.last_statuses, d.statuses)

unless_found-statuses :
    {A : Type 0} (o : Option A) (created d : Database)
    → status_rows created ≡ status_rows d
    → status_rows (unless_found o created d) ≡ status_rows d
unless_found-statuses none created d h = h
unless_found-statuses (some x) created d h = refl

create_confirmation-statuses :
    (c : MultisigConfirmation) (d : Database)
    → status_rows (create_confirmation c d) ≡ status_rows d
unfolding create_confirmation
create_confirmation-statuses c d = refl

get_or_create_confirmation-statuses :
    (c : MultisigConfirmation) (d : Database)
    → status_rows (get_or_create_confirmation c d) ≡ status_rows d
get_or_create_confirmation-statuses c d =
    unless_found-statuses (confirmation_of c.multisig_transaction_hash c.owner d.confirmations)
      (create_confirmation c d) d (create_confirmation-statuses c d)

confirm_signatures-statuses :
    (h : Bytes) (ss : List Signature) (d : Database)
    → status_rows (confirm_signatures h ss d) ≡ status_rows d
unfolding confirm_signatures confirm_signature
confirm_signatures-statuses h [] d = refl
confirm_signatures-statuses h (s ∷ ss) d =
    confirm_signatures-statuses h ss (confirm_signature h s d)
    ∙ get_or_create_confirmation-statuses (signed_confirmation h s) d

store_multisig-statuses :
    (env : Env) (s : Status) (itx : InternalTx) (args : ExecArguments) (d : Database)
    → status_rows (store_multisig env s itx args d) ≡ status_rows d
unfolding store_multisig create_multisig
store_multisig-statuses env s itx args d =
    let m = executed_multisig env s itx args in
    unless_found-statuses (multisig_of m.safe_tx_hash d.multisig_txs) (create_multisig m d) d refl

pub store_execution-statuses :
    (env : Env) (s : Status) (itx : InternalTx) (args : ExecArguments) (d : Database)
    → status_rows (store_execution env s itx args d) ≡ status_rows d
unfolding store_execution
store_execution-statuses env s itx args d =
    let hash = executed_hash env s itx.from args in
    confirm_signatures-statuses hash (env.parse_signature args.signatures hash)
      (store_multisig env s itx args d)
    ∙ store_multisig-statuses env s itx args d

pub store_approval-statuses :
    (env : Env) (tx : ℕ) (hash : Bytes) (owner : ℕ) (d : Database)
    → status_rows (store_approval env tx hash owner d) ≡ status_rows d
unfolding store_approval
store_approval-statuses env tx hash owner d =
    get_or_create_confirmation-statuses
      (approved_confirmation hash owner tx (env.approved_hash_signature owner hash)) d
