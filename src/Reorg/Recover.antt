-- ===== src/Reorg/Recover.antt =====
-- `ReorgService.reset_all_to_block` and `recover_from_reorg`
-- (safe_transaction_service/history/services/reorg_service.py). The indexers that are reset are
-- singletons of the process and no part of the database.
use safe_transaction_service.Common.{
  ℕ, ◌+◌, ◌-◌, Bool, true, false, not, Option, none, some, List, [], ◌∷◌, ltb, leb, ◌==◌, max,
  if◌then◌else◌, select, length, map, contains,
}
use safe_transaction_service.Reorg.Database.{EthereumTx, MultisigTx, Tables, ReorgService}

-- `filter(tx_block_number__gt=block_number)`: NULL is not greater.
abbrev pub is_after : ℕ → Option ℕ → Bool
is_after n none = false
is_after n (some m) = ltb n m

-- `.update(tx_block_number=block_number)` of the rows that a test selects.
unfoldable pub update_where : {A : Type 0} → (A → Bool) → A → List A → List A
update_where p a [] = []
update_where p a (x ∷ xs) = (if p x then a else x) ∷ update_where p a xs

abbrev pub count_where : {A : Type 0} → (A → Bool) → List A → ℕ
count_where p xs = length (select p xs)

abbrev pub to_int : Bool → ℕ
to_int true = 1
to_int false = 0

-- `bool(queryset.update(...))`
abbrev pub any_updated : ℕ → Bool
any_updated n = not (n == 0)

-- The number of updated rows and the tables. The status counts as one row, whatever its filter found.
unfoldable pub reset_all_to_block : ℕ → Tables → ℕ × Tables
unfolding update_where
reset_all_to_block n t = (
  count_where (is_after n) t.proxy_factories
      + count_where (is_after n) t.master_copies
      + to_int (any_updated (count_where (leb n) t.erc20_721_status)),
  record t {
    proxy_factories = update_where (is_after n) (some n) t.proxy_factories;
    master_copies = update_where (is_after n) (some n) t.master_copies;
    erc20_721_status = update_where (leb n) n t.erc20_721_status;
  },
)

-- A transaction whose block is deleted.
abbrev pub in_blocks_from : ℕ → EthereumTx → Bool
in_blocks_from n tx = elim tx.block_id [ none ↦ false | some m ↦ leb n m ]

abbrev pub hashes_of : List EthereumTx → List ℕ
hashes_of = map (λ tx. tx.tx_hash)

-- `on_delete=SET_NULL` of `MultisigTransaction.ethereum_tx`.
abbrev pub detach : List ℕ → MultisigTx → MultisigTx
detach hashes m = elim m.ethereum_tx [
  | none ↦ m
  | some hash ↦ if contains hash hashes then record m { ethereum_tx = none } else m
]

-- Deleting the blocks deletes their transactions (`on_delete=CASCADE`).
unfoldable pub delete_blocks_from : ℕ → Tables → Tables
delete_blocks_from n t = record t {
  blocks = select (λ b. not (leb n b.number)) t.blocks;
  ethereum_txs = select (λ tx. not (in_blocks_from n tx)) t.ethereum_txs;
  multisig_txs = map (detach (hashes_of (select (in_blocks_from n) t.ethereum_txs))) t.multisig_txs;
}

-- `filter(ethereum_tx=None).exclude(failed=None).update(signatures=None, failed=None)`
abbrev pub clear_execution : MultisigTx → MultisigTx
clear_execution m = elim m.ethereum_tx [
  | some hash ↦ m
  | none ↦ elim m.failed [ none ↦ m | some b ↦ record m { signatures = none; failed = none } ]
]

unfoldable pub recover_from_reorg : ReorgService → ℕ → Tables → ℕ × Tables
unfolding reset_all_to_block delete_blocks_from
recover_from_reorg service reorg_block_number t =
    let safe_block = max (reorg_block_number - service.eth_reorg_rewind_blocks) 0 in
    let (updated, t') = reset_all_to_block safe_block t in
    let t'' = delete_blocks_from reorg_block_number t' in
    (updated, record t'' { multisig_txs = map clear_execution t''.multisig_txs })
