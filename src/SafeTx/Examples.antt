-- ===== src/SafeTx/Examples.antt =====
-- Runs of the processor on one Safe (address 10, owners 1 and 2), and the theorems at them.
use safe_transaction_service.Common.{
  ℕ, inr, Bool, true, false, none, some, List, [], ◌∷◌, ◌≡◌, refl,
}
use safe_transaction_service.Common.Result.{Result, ok}
use safe_transaction_service.SafeTx.{
  Env, no_trace, EthereumTx, InternalTx, InternalTxDecoded, ExecArguments, Status, World, Database,
  Version, remove_owner, change_threshold, exec_transaction_call, process_decoded_transaction,
  process_decoded_transactions, status_of, exec_transaction, executed_hash, multisig_of, has_failed,
  is_version_breaking_signatures, breaking_versions, Error, last_for_address,
}
use safe_transaction_service.SafeTx.Batch.{process_decoded_transactions-IsSettled, IsSettled}
use safe_transaction_service.SafeTx.Isolation.{last_of}
use safe_transaction_service.SafeTx.Untouched.{process_decoded_transactions-kept}
use safe_transaction_service.SafeTx.Versions.{is_version_breaking_signatures_lem, any_separates}
use safe_transaction_service.SafeTx.Executed.{exec_transaction-recorded, execution_of, recorded}
use safe_transaction_service.SafeTx.Advanced.{exec_transaction-advanced, advanced_row}
use safe_transaction_service.SafeTx.Alone.{IsCoherent, process_decoded_transaction-IsCoherent}

abbrev environment : Env
environment = record {
  null_address = 0;
  topics = record {
    failure = (7 ∷ []) ∷ [];
    module_failure = (8 ∷ []) ∷ [];
    address_bytes = λ a. a ∷ [];
  };
  mined = λ n. n;
  version_of = λ m. some (record { major = 1; minor = 3; patch = 0 });
  previous_trace = λ itx. no_trace;
  hash_of = λ safe args nonce version. safe ∷ nonce ∷ [];
  parse_signature =
      λ n hash. record { owner = 1; signature = n; exported = n; signature_type = 27 } ∷ [];
  approved_hash_signature = λ owner hash. record {
    owner = owner;
    signature = owner;
    exported = owner;
    signature_type = 1;
  };
}

abbrev safe : Status
safe = record {
  internal_tx = 100;
  address = 10;
  owners = 1 ∷ 2 ∷ [];
  threshold = 1;
  nonce = 4;
  master_copy = 50;
  fallback_handler = 0;
  guard = none;
  module_guard = none;
  enabled_modules = [];
}

abbrev database : Database
database = record {
  contracts = record { address = 10; ethereum_tx = some 5; banned = false } ∷ [];
  last_statuses = safe ∷ [];
  statuses = safe ∷ [];
  multisig_txs = [];
  confirmations = [];
  module_txs = [];
  relevant = [];
  delegates = [];
  message_confirmations = [];
  user_operations = [];
  processed = [];
}

abbrev world : World
world = record { db = database; cache = [] }

abbrev tx : EthereumTx
tx = record {
  tx_hash = 6;
  logs =
      record { address = some 10; topics = (7 ∷ []) ∷ (10 ∷ 4 ∷ []) ∷ []; payload = some (1 ∷ []) }
      ∷ [];
}

abbrev internal : ℕ → InternalTx
internal n = record { id = n; from = 10; to = 50; gas_used = 5000; ethereum_tx = tx }

abbrev arguments : ExecArguments
arguments = record {
  to = 20;
  value = 1;
  payload = [];
  operation = 0;
  safe_tx_gas = 0;
  has_base_gas = true;
  base_gas = 0;
  gas_price = 0;
  gas_token = 0;
  refund_receiver = 0;
  signatures = 65;
  nonce = none;
}

-- A change of the threshold, a removal of an address that is no owner with another threshold, and an
-- execution.
abbrev calls : List InternalTxDecoded
calls =
    record { internal_tx = internal 101; call = change_threshold 2 }
    ∷ record { internal_tx = internal 102; call = remove_owner 9 1 }
    ∷ record { internal_tx = internal 103; call = exec_transaction_call arguments }
    ∷ []

abbrev outcome : Result Error (List Bool) × World
outcome = process_decoded_transactions environment calls world

-- The removal is ignored, but the history row of the execution has its threshold; the last status has
-- the other one.
calls_results : outcome.0 ≡ ok (true ∷ false ∷ true ∷ [])
unfolding process_decoded_transactions
calls_results = refl

calls_last :
    last_of 10 outcome.1 ≡ some (record safe { threshold = 2; nonce = 5; internal_tx = 103 })
unfolding process_decoded_transactions
calls_last = refl

calls_history :
    last_for_address (λ n. n) 10 outcome.1.db.statuses
    ≡ some (record safe { threshold = 1; nonce = 5; internal_tx = 103 })
unfolding process_decoded_transactions last_for_address
calls_history = refl

calls_execution :
    execution_of (multisig_of (10 ∷ 4 ∷ []) outcome.1.db.multisig_txs) ≡ some (some 6, some true)
unfolding process_decoded_transactions multisig_of
calls_execution = refl

process_decoded_transactions-IsSettled_example : IsSettled calls world outcome
process_decoded_transactions-IsSettled_example =
    process_decoded_transactions-IsSettled environment calls world

process_decoded_transactions-kept_example : last_of 11 outcome.1 ≡ last_of 11 world
process_decoded_transactions-kept_example =
    process_decoded_transactions-kept 11 environment calls world (refl, (refl, (refl, tt)))

abbrev old : Version
old = record { major = 1; minor = 1; patch = 1 }

abbrev new : Version
new = record { major = 1; minor = 4; patch = 1 }

is_version_breaking_signatures_lem_example :
    is_version_breaking_signatures old new ≡ any_separates breaking_versions old new
is_version_breaking_signatures_lem_example = is_version_breaking_signatures_lem old new

abbrev cached : World
cached = record { db = database; cache = safe ∷ [] }

safe_last : last_of 10 world ≡ some safe
unfolding status_of
safe_last = refl

exec_transaction-recorded_example :
    execution_of (
      multisig_of
        (executed_hash environment safe 10 arguments)
        (exec_transaction environment safe (internal 103) arguments world).db.multisig_txs)
    ≡ some (
        recorded 6
          (has_failed environment safe (internal 103) arguments)
          (multisig_of (executed_hash environment safe 10 arguments) []))
exec_transaction-recorded_example =
    exec_transaction-recorded environment safe (internal 103) arguments world

exec_transaction-advanced_example :
    status_of 10 (exec_transaction environment safe (internal 103) arguments world).db.last_statuses
    ≡ advanced_row environment safe (internal 103) arguments (status_of 10 (safe ∷ []))
exec_transaction-advanced_example =
    exec_transaction-advanced environment safe (internal 103) arguments world

-- The removal that is ignored in the batch, by itself.
process_decoded_transaction-IsCoherent_example :
    IsCoherent 10
      (process_decoded_transaction environment
        (record { internal_tx = internal 102; call = remove_owner 9 1 })
        world).1
process_decoded_transaction-IsCoherent_example =
    process_decoded_transaction-IsCoherent environment
      (record { internal_tx = internal 102; call = remove_owner 9 1 }) world
      (inr (safe, safe_last, refl))
