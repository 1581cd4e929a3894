-- ===== src/SafeTx/Callers.antt =====
-- Module transactions and approved hashes: `execTransactionFromModule` and `approveHash` in
-- `__process_decoded_transaction` (safe_transaction_service/history/indexers/tx_processor.py).
use safe_transaction_service.Common.{ℕ, Bool, true, Option, none, some, ◌∷◌, if◌then◌else◌, Bytes}
use safe_transaction_service.Common.Result.{Result, ok, raised, Action}
use safe_transaction_service.SafeTx.Types.{
  InternalTx, ModuleArguments, MultisigConfirmation, Database, World, Error,
  cannot_find_previous_trace, rpc_error,
}
use safe_transaction_service.SafeTx.Logs.{is_module_failed}
use safe_transaction_service.SafeTx.Queries.{is_null, add_relevant, add_module_tx}
use safe_transaction_service.SafeTx.Binding.{confirmation_of, on_confirmation, create_confirmation}
use safe_transaction_service.SafeTx.Execution.{
  Env, Signature, found_trace, no_trace, failed_trace, or_none, get_or_create_confirmation,
}

-- The module that calls: an error of the node counts as no trace.
unfoldable pub module_of : Env → InternalTx → Option ℕ → Result Error ℕ
module_of env itx (some m) = ok m
module_of env itx none = elim (env.previous_trace itx) [
  | found_trace sender ↦ ok sender
  | no_trace ↦ raised cannot_find_previous_trace
  | failed_trace ↦ raised cannot_find_previous_trace
]

abbrev pub store_module_execution : Env → InternalTx → ModuleArguments → ℕ → Database → Database
store_module_execution env itx args m d =
    let tx = itx.ethereum_tx in
    record d {
      module_txs =
          add_module_tx
            (record {
              internal_tx = itx.id;
              safe = itx.from;
              sender = m;
              to = args.to;
              value = args.value;
              payload = or_none args.payload;
              operation = args.operation;
              failed = is_module_failed env.topics tx m itx.from;
            })
            d.module_txs;
      relevant = add_relevant (tx.tx_hash, itx.from) d.relevant;
      user_operations = (itx.from, tx.tx_hash) ∷ d.user_operations;
    }

abbrev pub exec_for_module :
    Env → InternalTx → ModuleArguments → Result Error ℕ → Action World Error Bool
exec_for_module env itx args (ok m) w =
    (ok true, record w { db = store_module_execution env itx args m w.db })
exec_for_module env itx args (raised e) w = (raised e, w)

unfoldable pub exec_transaction_from_module :
    Env → InternalTx → ModuleArguments → Action World Error Bool
unfolding module_of add_module_tx add_relevant is_module_failed
exec_transaction_from_module env itx args w =
    exec_for_module env itx args (module_of env itx args.sender) w

-- The owner that approves: an error of the node is not caught here.
unfoldable pub approver_of : Env → InternalTx → Option ℕ → Result Error ℕ
approver_of env itx (some owner) = ok owner
approver_of env itx none = elim (env.previous_trace itx) [
  | found_trace sender ↦ ok sender
  | no_trace ↦ raised cannot_find_previous_trace
  | failed_trace ↦ raised rpc_error
]

abbrev pub set_confirmed_in : ℕ → MultisigConfirmation → MultisigConfirmation
set_confirmed_in tx c = if is_null c.ethereum_tx then record c { ethereum_tx = some tx } else c

abbrev pub approved_confirmation : Bytes → ℕ → ℕ → Signature → MultisigConfirmation
approved_confirmation hash owner tx s = record {
  multisig_transaction_hash = hash;
  owner = owner;
  ethereum_tx = some tx;
  multisig_transaction = none;
  signature = s.exported;
  signature_type = s.signature_type;
}

unfoldable pub store_approval : Env → ℕ → Bytes → ℕ → Database → Database
unfolding confirmation_of create_confirmation on_confirmation
store_approval env tx hash owner d =
    let d' =
      get_or_create_confirmation
        (approved_confirmation hash owner tx (env.approved_hash_signature owner hash)) d in
    record d' { confirmations = on_confirmation hash owner (set_confirmed_in tx) d'.confirmations }

abbrev pub approve_by : Env → InternalTx → Bytes → Result Error ℕ → Action World Error Bool
approve_by env itx hash (ok owner) w =
    (ok true, record w { db = store_approval env itx.ethereum_tx.tx_hash hash owner w.db })
approve_by env itx hash (raised e) w = (raised e, w)

unfoldable pub approve : Env → InternalTx → Bytes → Option ℕ → Action World Error Bool
unfolding approver_of store_approval
approve env itx hash owner w = approve_by env itx hash (approver_of env itx owner) w
