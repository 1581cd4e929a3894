-- ===== src/Reorg/Database.antt =====
-- The tables that `ReorgService` reads and writes, with the fields that it uses
-- (safe_transaction_service/history/models.py).
use safe_transaction_service.Common.{ℕ, Bool, Option, List}

-- `EthereumBlock`
pub record Block : Type 0 where
  pub number : ℕ
  pub block_hash : ℕ
  pub confirmed : Bool

-- `EthereumTx`: its hash and the number of its block.
pub record EthereumTx : Type 0 where
  pub tx_hash : ℕ
  pub block_id : Option ℕ

-- `MultisigTransaction`
pub record MultisigTx : Type 0 where
  pub safe_tx_hash : ℕ
  pub ethereum_tx : Option ℕ
  pub failed : Option Bool
  pub signatures : Option ℕ

-- The `tx_block_number` of each proxy factory and of each master copy, which can be NULL, and the
-- `block_number` of the rows of `IndexingStatus` for ERC20 and ERC721 events.
pub record Tables : Type 0 where
  pub blocks : List Block
  pub ethereum_txs : List EthereumTx
  pub multisig_txs : List MultisigTx
  pub proxy_factories : List (Option ℕ)
  pub master_copies : List (Option ℕ)
  pub erc20_721_status : List ℕ

-- The constructor's parameters.
pub record ReorgService : Type 0 where
  pub eth_reorg_blocks : ℕ
  pub eth_reorg_blocks_batch : ℕ
  pub eth_reorg_rewind_blocks : ℕ
