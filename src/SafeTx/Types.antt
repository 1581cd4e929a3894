-- ===== src/SafeTx/Types.antt =====
-- The calls and the rows that `SafeTxProcessor` works on
-- (safe_transaction_service/history/indexers/tx_processor.py and
-- safe_transaction_service/history/models.py). Addresses, transactions, internal transactions and
-- opaque byte strings are numbers; hashes that are compared with logs are lists of bytes. Timestamps
-- are left out.
use safe_transaction_service.Common.{ℕ, Bool, Option, List, Bytes}

-- `payload` is the data, `none` where it is missing or the empty text; `0x` has no bytes.
pub record Log : Type 0 where
  pub address : Option ℕ
  pub topics : List Bytes
  pub payload : Option Bytes

pub record EthereumTx : Type 0 where
  pub tx_hash : ℕ
  pub logs : List Log

-- `InternalTx`: `from` is the Safe that was called, `to` its master copy.
pub record InternalTx : Type 0 where
  pub id : ℕ
  pub from : ℕ
  pub to : ℕ
  pub gas_used : ℕ
  pub ethereum_tx : EthereumTx

-- The arguments of `execTransaction`. `nonce` is given by events only. `base_gas` is the argument
-- `baseGas`, or `dataGas` where there is no `baseGas` (`has_base_gas`).
pub record ExecArguments : Type 0 where
  pub to : ℕ
  pub value : ℕ
  pub payload : Bytes
  pub operation : ℕ
  pub safe_tx_gas : ℕ
  pub has_base_gas : Bool
  pub base_gas : ℕ
  pub gas_price : ℕ
  pub gas_token : ℕ
  pub refund_receiver : ℕ
  pub signatures : ℕ
  pub nonce : Option ℕ

pub record ModuleArguments : Type 0 where
  pub sender : Option ℕ
  pub to : ℕ
  pub value : ℕ
  pub payload : Bytes
  pub operation : ℕ

-- `function_name` with its `arguments`. A threshold of 0 or none is falsy.
pub data Call : Type 0 where
  setup : List ℕ → ℕ → Option ℕ → Call
  add_owner_with_threshold : ℕ → ℕ → Call
  remove_owner : ℕ → ℕ → Call
  swap_owner_call : ℕ → ℕ → Call
  change_threshold : ℕ → Call
  change_master_copy : ℕ → Call
  set_fallback_handler : ℕ → Call
  set_guard : ℕ → Call
  set_module_guard : ℕ → Call
  enable_module : ℕ → Call
  disable_module_call : ℕ → Call
  exec_from_module : ModuleArguments → Call
  approve_hash : Bytes → Option ℕ → Call
  exec_transaction_call : ExecArguments → Call
  unknown : Call

pub record InternalTxDecoded : Type 0 where
  pub internal_tx : InternalTx
  pub call : Call

-- `SafeStatusBase`: the fields of `SafeLastStatus` and of `SafeStatus`.
pub record Status : Type 0 where
  pub internal_tx : ℕ
  pub address : ℕ
  pub owners : List ℕ
  pub threshold : ℕ
  pub nonce : ℕ
  pub master_copy : ℕ
  pub fallback_handler : ℕ
  pub guard : Option ℕ
  pub module_guard : Option ℕ
  pub enabled_modules : List ℕ

pub data Field : Type 0 where
  owners_field threshold_field nonce_field master_copy_field fallback_handler_field guard_field :
      Field
  module_guard_field enabled_modules_field : Field

pub record SafeContract : Type 0 where
  pub address : ℕ
  pub ethereum_tx : Option ℕ
  pub banned : Bool

pub record MultisigTransaction : Type 0 where
  pub safe_tx_hash : Bytes
  pub safe : ℕ
  pub ethereum_tx : Option ℕ
  pub to : ℕ
  pub value : ℕ
  pub payload : Option Bytes
  pub operation : ℕ
  pub safe_tx_gas : ℕ
  pub base_gas : ℕ
  pub gas_price : ℕ
  pub gas_token : ℕ
  pub refund_receiver : ℕ
  pub nonce : ℕ
  pub signatures : Option ℕ
  pub failed : Option Bool
  pub trusted : Bool

pub record MultisigConfirmation : Type 0 where
  pub multisig_transaction_hash : Bytes
  pub owner : ℕ
  pub ethereum_tx : Option ℕ
  pub multisig_transaction : Option Bytes
  pub signature : ℕ
  pub signature_type : ℕ

pub record ModuleTransaction : Type 0 where
  pub internal_tx : ℕ
  pub safe : ℕ
  pub sender : ℕ
  pub to : ℕ
  pub value : ℕ
  pub payload : Option Bytes
  pub operation : ℕ
  pub failed : Bool

pub record SafeContractDelegate : Type 0 where
  pub safe_contract : Option ℕ
  pub delegate : ℕ
  pub delegator : ℕ

-- `relevant` holds the pairs of transaction and Safe of `SafeRelevantTransaction`;
-- `message_confirmations` the Safe and the owner of each `SafeMessageConfirmation`; `user_operations` the calls of the
-- account abstraction service; `processed` the internal transactions whose decoded row is processed.
pub record Database : Type 0 where
  pub contracts : List SafeContract
  pub last_statuses : List Status
  pub statuses : List Status
  pub multisig_txs : List MultisigTransaction
  pub confirmations : List MultisigConfirmation
  pub module_txs : List ModuleTransaction
  pub relevant : List (ℕ × ℕ)
  pub delegates : List SafeContractDelegate
  pub message_confirmations : List (ℕ × ℕ)
  pub user_operations : List (ℕ × ℕ)
  pub processed : List ℕ

-- The database, and `safe_last_status_cache`: one object at each address.
pub record World : Type 0 where
  pub db : Database
  pub cache : List Status

-- `TxProcessorException` has the first three below it; `rpc_error` is any other exception.
pub data Error : Type 0 where
  owner_cannot_be_removed module_cannot_be_disabled cannot_find_previous_trace rpc_error : Error
