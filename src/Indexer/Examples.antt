-- ===== src/Indexer/Examples.antt =====
-- Runs of the indexer on concrete rows, and the theorems at them.
use safe_transaction_service.Common.{
  ℕ, ◌+◌, ◌<◌, ◌≡◌, refl, true, some, List, [], ◌∷◌, arith, ℤ, pos, All, ◌+ℤ◌, ◌-ℤ◌, min_ℤ, max_ℤ,
}
use safe_transaction_service.Common.Result.{ok}
use safe_transaction_service.Indexer.{
  Monitored, Config, Indexer, Fetch, get_from_block_number, get_block_numbers_for_search,
  auto_adjust_block_limit, update_monitored_addresses, process_addresses, start,
  get_almost_updated_addresses, get_not_updated_addresses,
}
use safe_transaction_service.Indexer.Bounds.{Searched, get_block_numbers_for_search_window}
use safe_transaction_service.Indexer.Tuning.{IsTuned, auto_adjust_block_limit-IsTuned}
use safe_transaction_service.Indexer.Monitor.{RowsUpdated, update_monitored_addresses_lem}
use safe_transaction_service.Indexer.Progress.{IsQuiet}
use safe_transaction_service.Indexer.Complete.{start_syncs}
use safe_transaction_service.Indexer.Failure.{RowsAfter, process_addresses-RowsAfter}

abbrev config : Config
config = record {
  confirmations = 2;
  block_process_limit_max = 40;
  blocks_to_reindex_again = 3;
  updated_blocks_behind = 20;
  block_auto_process_limit = true;
}

-- Every range is answered in one second with four elements.
abbrev answering : Fetch
answering from to rows = record { processed = some 4; seconds = 1; rows = rows }

answering-IsQuiet : IsQuiet answering
answering-IsQuiet = record {
  answers = λ from to rows. 4;
  processed = λ from to rows. refl;
  rows = λ from to rows. refl;
}

abbrev rows : List Monitored
rows =
    record { address = 7; block_number = 90 }
    ∷ record { address = 8; block_number = 10 }
    ∷ record { address = 9; block_number = 99 }
    ∷ []

abbrev indexer : ℕ → Indexer
indexer limit = record { block_process_limit = limit; db = rows }

-- Blocks 87 to 98 for the first address, three of them again; then 10 to 39, 40 to 79 and 77 to 98
-- for the second.
start-indexer : start config 100 answering 101 (indexer 30) ≡ (
  ok (16, pos 89),
  record {
    block_process_limit = 40;
    db =
        record { address = 7; block_number = 99 }
        ∷ record { address = 8; block_number = 99 }
        ∷ record { address = 9; block_number = 99 }
        ∷ [];
  },
)
unfolding start process_addresses get_block_numbers_for_search get_almost_updated_addresses
    get_not_updated_addresses ◌+ℤ◌ ◌-ℤ◌ min_ℤ max_ℤ
start-indexer = refl

get_block_numbers_for_search_window_example :
    Searched config 30 100
      (get_from_block_number (8 ∷ []) rows)
      (get_block_numbers_for_search config 30 100 (8 ∷ []) 100 rows)
get_block_numbers_for_search_window_example =
    get_block_numbers_for_search_window config 30 100 100 (8 ∷ []) rows (omega arith)

auto_adjust_block_limit-IsTuned_example :
    IsTuned config (auto_adjust_block_limit config 10 (pos 39) 1 30)
auto_adjust_block_limit-IsTuned_example =
    auto_adjust_block_limit-IsTuned config 10 (pos 39) 1 30 (omega arith)

update_monitored_addresses_lem_example :
    let (count, db') = update_monitored_addresses (7 ∷ 8 ∷ []) 10 40 rows in
    RowsUpdated (7 ∷ 8 ∷ []) 10 40 count rows db'
update_monitored_addresses_lem_example = update_monitored_addresses_lem (7 ∷ 8 ∷ []) 10 40 rows

start_syncs_example :
    (r : ℕ × ℤ) × (s' : Indexer) × (start config 100 answering 101 (indexer 30) ≡ (ok r, s'))
    × (All (λ m. 100 < m.block_number + config.confirmations) s'.db)
start_syncs_example =
    start_syncs config 100 101 answering (indexer 30) answering-IsQuiet (omega arith) (omega arith)

process_addresses-RowsAfter_example :
    RowsAfter config 100 answering
      (8 ∷ [])
      100
      (indexer 30)
      (process_addresses config 100 answering (8 ∷ []) 100 (indexer 30)).1.db
process_addresses-RowsAfter_example =
    process_addresses-RowsAfter config 100 answering (8 ∷ []) 100 (indexer 30)
