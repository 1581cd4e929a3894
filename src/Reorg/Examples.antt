-- ===== src/Reorg/Examples.antt =====
-- The reorganisation service on concrete tables, and the theorems at them.
use safe_transaction_service.Common.{
  ℕ, ◌-◌, ◌≡◌, refl, true, false, none, some, List, [], ◌∷◌, ◌==◌, if◌then◌else◌, concat,
  append-nil,
}
use safe_transaction_service.Reorg.{
  Block, Tables, ReorgService, Chain, first_not_confirmed, check_page, check_reorgs,
  recover_from_reorg,
}
use safe_transaction_service.Reorg.Detect.{Checked, check_reorgs-Checked}
use safe_transaction_service.Reorg.Reset.{IsRecovered, recover_from_reorg-IsRecovered}
use safe_transaction_service.Reorg.Confirm.{ConfirmedSince, check_reorgs-ConfirmedSince}

abbrev service : ReorgService
service = record { eth_reorg_blocks = 2; eth_reorg_blocks_batch = 10; eth_reorg_rewind_blocks = 10 }

-- Block 12 has another hash on the chain than in the table, and block 11 cannot be retrieved.
abbrev chain : Chain
chain n = if n == 11 then none else if n == 12 then some 99 else some n

abbrev table : List Block
table =
    record { number = 12; block_hash = 12; confirmed = false }
    ∷ record { number = 9; block_hash = 9; confirmed = true }
    ∷ record { number = 10; block_hash = 10; confirmed = false }
    ∷ record { number = 11; block_hash = 11; confirmed = false }
    ∷ []

-- All in one page.
abbrev one_page : ℕ → List Block → List (List Block)
one_page n bs = bs ∷ []

one_page_whole : (n : ℕ) (bs : List Block) → concat (one_page n bs) ≡ bs
one_page_whole n bs = append-nil bs

check_reorgs-table : check_reorgs service chain 13 one_page table ≡ (
  some 12,
  record { number = 12; block_hash = 12; confirmed = false }
      ∷ record { number = 9; block_hash = 9; confirmed = true }
      ∷ record { number = 10; block_hash = 10; confirmed = true }
      ∷ record { number = 11; block_hash = 11; confirmed = false }
      ∷ [],
)
unfolding check_reorgs check_page
check_reorgs-table = refl

check_reorgs-Checked_example :
    Checked chain table (first_not_confirmed table) (check_reorgs service chain 13 one_page table).0
check_reorgs-Checked_example = check_reorgs-Checked service chain 13 one_page one_page_whole table

check_reorgs-ConfirmedSince_example :
    ConfirmedSince service chain 13 table
      (first_not_confirmed table)
      (check_reorgs service chain 13 one_page table).1
check_reorgs-ConfirmedSince_example =
    check_reorgs-ConfirmedSince service chain 13 one_page one_page_whole table

abbrev tables : Tables
tables = record {
  blocks = table;
  ethereum_txs =
      record { tx_hash = 1; block_id = some 12 } ∷ record { tx_hash = 2; block_id = some 9 } ∷ [];
  multisig_txs =
      record { safe_tx_hash = 5; ethereum_tx = some 1; failed = some false; signatures = some 3 }
      ∷ [];
  proxy_factories = some 20 ∷ none ∷ some 1 ∷ [];
  master_copies = some 15 ∷ [];
  erc20_721_status = 30 ∷ [];
}

recover_from_reorg-tables : recover_from_reorg service 12 tables ≡ (
  3,
  record {
    blocks =
        record { number = 9; block_hash = 9; confirmed = true }
        ∷ record { number = 10; block_hash = 10; confirmed = false }
        ∷ record { number = 11; block_hash = 11; confirmed = false }
        ∷ [];
    ethereum_txs = record { tx_hash = 2; block_id = some 9 } ∷ [];
    multisig_txs =
        record { safe_tx_hash = 5; ethereum_tx = none; failed = none; signatures = none } ∷ [];
    proxy_factories = some 2 ∷ none ∷ some 1 ∷ [];
    master_copies = some 2 ∷ [];
    erc20_721_status = 2 ∷ [];
  },
)
unfolding recover_from_reorg
recover_from_reorg-tables = refl

recover_from_reorg-IsRecovered_example :
    IsRecovered (12 - 10) 12 tables (recover_from_reorg service 12 tables).1
recover_from_reorg-IsRecovered_example = recover_from_reorg-IsRecovered service 12 tables
