-- ===== src/Indexer/Tuning.antt =====
-- The block limit under `auto_adjust_block_limit`.
use safe_transaction_service.Common.{ℕ, ◌≤◌, ◌≡◌, ◌⊎◌, arith, ℤ}
use safe_transaction_service.Indexer.Window.{Config}
use safe_transaction_service.Indexer.Limit.{adjust_by, cap_limit, auto_adjust_block_limit}

adjust_by-pos : (delta limit : ℕ) → 1 ≤ limit → 1 ≤ adjust_by delta limit
unfolding adjust_by
adjust_by-pos delta limit h = ground arith

cap_limit-pos : (limit_max limit : ℕ) → 1 ≤ limit → 1 ≤ cap_limit limit_max limit
unfolding cap_limit
cap_limit-pos limit_max limit h = ground arith

-- However long a scan takes, a limit of at least 1 stays at least 1.
pub auto_adjust_block_limit-pos :
    (c : Config) (from : ℕ) (to : ℤ) (delta limit : ℕ)
    → 1 ≤ limit
    → 1 ≤ auto_adjust_block_limit c from to delta limit
unfolding auto_adjust_block_limit
auto_adjust_block_limit-pos c from to delta limit h = ground (
  arith,
  adjust_by-pos delta limit h,
  cap_limit-pos c.block_process_limit_max (adjust_by delta limit),
)

-- A limit of at least 1 that keeps to the maximum, where 0 means no maximum.
abbrev pub IsTuned : Config → ℕ → Type 0
IsTuned c limit =
    (1 ≤ limit) × ((c.block_process_limit_max ≡ 0) ⊎ (limit ≤ c.block_process_limit_max))

cap_limit-le : (limit_max limit : ℕ) → (limit_max ≡ 0) ⊎ (cap_limit limit_max limit ≤ limit_max)
unfolding cap_limit
cap_limit-le limit_max limit = ground arith

-- `auto_adjust_block_limit` keeps a limit that is at least 1 and within the maximum so, whatever
-- range was scanned and however long that took.
pub auto_adjust_block_limit-IsTuned :
    (c : Config) (from : ℕ) (to : ℤ) (delta limit : ℕ)
    → IsTuned c limit
    → IsTuned c (auto_adjust_block_limit c from to delta limit)
unfolding auto_adjust_block_limit
auto_adjust_block_limit-IsTuned c from to delta limit h = ground (
  arith,
  adjust_by-pos delta limit h.0,
  cap_limit-pos c.block_process_limit_max (adjust_by delta limit),
  cap_limit-le c.block_process_limit_max (adjust_by delta limit),
)
