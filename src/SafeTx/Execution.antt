-- ===== src/SafeTx/Execution.antt =====
-- Executed transactions: the branch `execTransaction` of `__process_decoded_transaction`
-- (safe_transaction_service/history/indexers/tx_processor.py).
use safe_transaction_service.Common.{
  ℕ, ◌+◌, Bool, true, Option, none, some, List, [], ◌∷◌, ◌==◌, if◌then◌else◌, Bytes,
}
use safe_transaction_service.SafeTx.Types.{
  InternalTx, ExecArguments, Status, nonce_field, MultisigTransaction, MultisigConfirmation,
  Database, World,
}
use safe_transaction_service.SafeTx.Logs.{Topics, is_failed, is_empty}
use safe_transaction_service.SafeTx.Queries.{is_null, multisig_of, on_multisig, add_relevant}
use safe_transaction_service.SafeTx.Binding.{
  create_multisig, confirmation_of, on_confirmation, create_confirmation,
}
use safe_transaction_service.SafeTx.Last.{Version, store_new_safe_status, assign_status}

-- A signature: its bytes, the bytes that `export_signature` gives, and its type.
pub record Signature : Type 0 where
  pub owner : ℕ
  pub signature : ℕ
  pub exported : ℕ
  pub signature_type : ℕ

-- The answer of the node to a query for the trace before: its sender, nothing, or a `Web3RPCError`.
pub data Trace : Type 0 where
  found_trace : ℕ → Trace
  no_trace failed_trace : Trace

-- What the processor gets from libraries, from the node and from the table of master copies.
pub record Env : Type 0 where
  pub null_address : ℕ
  pub topics : Topics
  pub mined : ℕ → ℕ
  pub version_of : ℕ → Option Version
  pub previous_trace : InternalTx → Trace
  pub hash_of : ℕ → ExecArguments → ℕ → Version → Bytes
  pub parse_signature : ℕ → Bytes → List Signature
  pub approved_hash_signature : ℕ → Bytes → Signature

abbrev pub or_none : Bytes → Option Bytes
or_none b = if is_empty b then none else some b

abbrev pub or_else : {A : Type 0} → Option A → A → A
or_else none b = b
or_else (some a) b = a

-- The version that the hash is computed for.
unfoldable pub safe_version : Env → Status → ExecArguments → Version
safe_version env s args =
    if args.has_base_gas
    then or_else (env.version_of s.master_copy) (record { major = 1; minor = 3; patch = 0 })
    else record { major = 0; minor = 0; patch = 1 }

unfoldable pub executed_hash : Env → Status → ℕ → ExecArguments → Bytes
unfolding safe_version
executed_hash env s safe args =
    env.hash_of safe args (or_else args.nonce s.nonce) (safe_version env s args)

abbrev pub new_multisig : ℕ → ExecArguments → ℕ → Bytes → ℕ → Bool → MultisigTransaction
new_multisig safe args nonce hash tx failed = record {
  safe_tx_hash = hash;
  safe = safe;
  ethereum_tx = some tx;
  to = args.to;
  value = args.value;
  payload = or_none args.payload;
  operation = args.operation;
  safe_tx_gas = args.safe_tx_gas;
  base_gas = args.base_gas;
  gas_price = args.gas_price;
  gas_token = args.gas_token;
  refund_receiver = args.refund_receiver;
  nonce = nonce;
  signatures = some args.signatures;
  failed = some failed;
  trusted = true;
}

-- The execution of a transaction that was stored without one.
abbrev pub set_executed : ℕ → Bool → ℕ → MultisigTransaction → MultisigTransaction
set_executed tx failed signatures m =
    if is_null m.ethereum_tx
    then record m {
      ethereum_tx = some tx;
      failed = some failed;
      signatures = some signatures;
      trusted = true;
    }
    else m

-- `get_or_create`: the rows with the new one, unless there is a row already.
abbrev pub unless_found : {A : Type 0} → Option A → Database → Database → Database
unless_found none created d = created
unless_found (some _) created d = d

abbrev pub get_or_create_multisig : MultisigTransaction → Database → Database
get_or_create_multisig m d =
    unless_found (multisig_of m.safe_tx_hash d.multisig_txs) (create_multisig m d) d

abbrev pub get_or_create_confirmation : MultisigConfirmation → Database → Database
get_or_create_confirmation c d =
    unless_found (confirmation_of c.multisig_transaction_hash c.owner d.confirmations)
      (create_confirmation c d) d

-- A confirmation whose signature is another gets the one of the execution.
abbrev pub refresh_signature : Signature → MultisigConfirmation → MultisigConfirmation
refresh_signature s c =
    if c.signature == s.signature
    then c
    else record c { signature = s.exported; signature_type = s.signature_type }

-- The confirmation that a signature of the executed transaction stands for.
abbrev pub signed_confirmation : Bytes → Signature → MultisigConfirmation
signed_confirmation hash s = record {
  multisig_transaction_hash = hash;
  owner = s.owner;
  ethereum_tx = none;
  multisig_transaction = some hash;
  signature = s.exported;
  signature_type = s.signature_type;
}

unfoldable pub confirm_signature : Bytes → Signature → Database → Database
unfolding confirmation_of create_confirmation on_confirmation
confirm_signature hash s d =
    let d' = get_or_create_confirmation (signed_confirmation hash s) d in
    record d' {
      confirmations = on_confirmation hash s.owner (refresh_signature s) d'.confirmations;
    }

unfoldable pub confirm_signatures : Bytes → List Signature → Database → Database
unfolding confirm_signature
confirm_signatures hash [] d = d
confirm_signatures hash (s ∷ ss) d = confirm_signatures hash ss (confirm_signature hash s d)

abbrev pub has_failed : Env → Status → InternalTx → ExecArguments → Bool
has_failed env s itx args = is_failed env.topics itx.ethereum_tx (executed_hash env s itx.from args)

unfoldable pub executed_multisig : Env → Status → InternalTx → ExecArguments → MultisigTransaction
unfolding executed_hash is_failed
executed_multisig env s itx args =
    new_multisig itx.from args (or_else args.nonce s.nonce) (executed_hash env s itx.from args)
      itx.ethereum_tx.tx_hash (has_failed env s itx args)

-- The row of an executed transaction, and that the Ethereum transaction concerns the Safe.
unfoldable pub store_multisig : Env → Status → InternalTx → ExecArguments → Database → Database
unfolding executed_multisig executed_hash is_failed multisig_of create_multisig add_relevant
    on_multisig
store_multisig env s itx args d =
    let tx = itx.ethereum_tx.tx_hash in
    let d' = get_or_create_multisig (executed_multisig env s itx args) d in
    record d' {
      multisig_txs =
          on_multisig (executed_hash env s itx.from args)
            (set_executed tx (has_failed env s itx args) args.signatures) d'.multisig_txs;
      relevant = add_relevant (tx, itx.from) d'.relevant;
    }

-- Then the confirmations of the signatures.
unfoldable pub store_execution : Env → Status → InternalTx → ExecArguments → Database → Database
unfolding executed_hash store_multisig confirm_signatures
store_execution env s itx args d =
    let hash = executed_hash env s itx.from args in
    confirm_signatures hash (env.parse_signature args.signatures hash)
      (store_multisig env s itx args d)

unfoldable pub exec_transaction : Env → Status → InternalTx → ExecArguments → World → World
unfolding store_execution assign_status store_new_safe_status
exec_transaction env s itx args w =
    let w1 = record w { db = store_execution env s itx args w.db } in
    let s' = record s { nonce = or_else args.nonce s.nonce + 1 } in
    store_new_safe_status s' itx.id (nonce_field ∷ []) (assign_status s' w1)
