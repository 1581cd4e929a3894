-- ===== src/Indexer/Window.antt =====
-- The range of blocks that one pass scans: `get_block_numbers_for_search` and `get_to_block_number`.
use safe_transaction_service.Common.{
  ℕ, ◌+◌, Bool, Option, none, some, List, ltb, if◌then◌else◌, ◌==◌, ℤ, pos, pos_part, sub_ℕ, ◌+ℤ◌,
  ◌-ℤ◌, ltb_ℤ, min_ℤ, max_ℤ,
}
use safe_transaction_service.Indexer.Database.{Monitored, Addresses, get_from_block_number}

-- The constructor's parameters that do not change while the indexer runs.
pub record Config : Type 0 where
  pub confirmations : ℕ
  pub block_process_limit_max : ℕ
  pub blocks_to_reindex_again : ℕ
  pub updated_blocks_behind : ℕ
  pub block_auto_process_limit : Bool

-- `current_block_number or self.ethereum_client.current_block_number`
abbrev pub current_or : ℕ → ℕ → ℕ
current_or current head = if current == 0 then head else current

-- With `limit` for `block_process_limit`. At a limit of 0 the result is `from_block_number - 1`.
unfoldable pub get_to_block_number : Config → ℕ → ℕ → ℕ → ℤ
get_to_block_number c limit from current =
    min_ℤ (sub_ℕ (from + limit) 1) (sub_ℕ current c.confirmations)

-- The first block, moved back when the pass is almost synced and has room left.
unfoldable pub reindex_from : Config → ℕ → ℕ → ℕ → ℤ → ℕ
reindex_from c limit from current to =
    if ltb_ℤ (sub_ℕ current c.confirmations) (pos (from + limit))
    then (let room = pos limit -ℤ (to -ℤ pos from +ℤ pos 1) in
        let blocks_to_reindex = min_ℤ room (pos c.blocks_to_reindex_again) in
        pos_part (max_ℤ (pos from -ℤ blocks_to_reindex) (pos 0)))
    else from

-- The range from a first block that was found.
unfoldable pub search_range : Config → ℕ → ℕ → Option ℕ → Option (ℕ × ℤ)
unfolding get_to_block_number reindex_from
search_range c limit current none = none
search_range c limit current (some from) =
    if ltb current (from + c.confirmations)
    then none
    else let to = get_to_block_number c limit from current in
      some (reindex_from c limit from current to, to)

unfoldable pub get_block_numbers_for_search :
    Config → ℕ → ℕ → Addresses → ℕ → List Monitored → Option (ℕ × ℤ)
unfolding search_range get_from_block_number
get_block_numbers_for_search c limit head addresses current db =
    search_range c limit (current_or current head) (get_from_block_number addresses db)
