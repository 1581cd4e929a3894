-- ===== src/Indexer/Limit.antt =====
-- `auto_adjust_block_limit`: how the number of blocks scanned at a time follows the time that the
-- scan took.
use safe_transaction_service.Common.{
  ℕ, ◌+◌, ◌-◌, ◌*◌, ◌/◌, ◌&&◌, max, ltb, ◌==◌, if◌then◌else◌, not, ℤ, pos, ◌+ℤ◌, ◌-ℤ◌, eqb_ℤ,
}
use safe_transaction_service.Indexer.Window.{Config}

-- The step by the seconds spent; a difference below 1 is replaced by 1.
unfoldable pub adjust_by : ℕ → ℕ → ℕ
adjust_by delta limit =
    if ltb 30 delta
    then max (limit / 2) 1
    else if ltb 10 delta
    then max (limit - 20) 1
    else if ltb delta 2
    then limit * 2
    else if ltb delta 5
    then limit + 20
    else limit

unfoldable pub cap_limit : ℕ → ℕ → ℕ
cap_limit limit_max limit = if not (limit_max == 0) && ltb limit_max limit then limit_max else limit

-- The limit after a scan of the blocks `from` to `to` that took `delta` seconds.
unfoldable pub auto_adjust_block_limit : Config → ℕ → ℤ → ℕ → ℕ → ℕ
unfolding adjust_by cap_limit
auto_adjust_block_limit c from to delta limit =
    if c.block_auto_process_limit && eqb_ℤ (pos 1 +ℤ to -ℤ pos from) (pos limit)
    then cap_limit c.block_process_limit_max (adjust_by delta limit)
    else limit
