-- ===== src/Catchup/Gate.antt =====
-- `ensure_day_settled` of safe_transaction_service/analytics/catchup/gate.py.
use safe_transaction_service.Common.{
  ℕ, ◌+◌, ◌*◌, min, Bool, false, Option, none, some, ltb, if◌then◌else◌,
}
use safe_transaction_service.Catchup.States.{Code, day_not_ready, processing_pending}

-- The times of `IndexerStatus`.
pub record IndexerStatus : Type 0 where
  pub erc20_block_timestamp : ℕ
  pub master_copies_block_timestamp : ℕ
  pub oldest_unprocessed_ts : Option ℕ

abbrev pub position_ts : IndexerStatus → ℕ
position_ts s = min s.erc20_block_timestamp s.master_copies_block_timestamp

abbrev pub day_end : ℕ → ℕ
day_end day = (day + 1) * 86400

abbrev pub is_before : ℕ → Option ℕ → Bool
is_before t none = false
is_before t (some u) = ltb u t

-- The code of `DayNotReady`, or nothing if the day is settled.
unfoldable pub ensure_day_settled : ℕ → ℕ → IndexerStatus → Option Code
ensure_day_settled settle_minutes day s =
    if ltb (position_ts s) (day_end day + settle_minutes * 60)
    then some day_not_ready
    else if is_before (day_end day) s.oldest_unprocessed_ts
    then some processing_pending
    else none
