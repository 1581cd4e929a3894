-- ===== src/Bootstrap/Check.antt =====
-- `check_indexer` of safe_transaction_service/analytics/bootstrap/gate.py.
use safe_transaction_service.Common.{ℕ, ◌-◌, ◌/◌, Bool, true, false, Option, none, some}
use safe_transaction_service.Catchup.{IndexerStatus, Code, ensure_day_settled}

-- The code of `check_indexer`: one of `DayNotReady`, or `status_unavailable`.
pub data GateCode : Type 0 where
  not_ready : Code → GateCode
  status_unavailable : GateCode

-- What `get_indexer_status` gives.
pub data StatusReply : Type 0 where
  position : IndexerStatus → StatusReply
  raised_not_ready : Code → StatusReply
  raised_other : StatusReply

pub data GateState : Type 0 where
  caught_up : GateState
  not_caught_up : GateCode → GateState

abbrev pub settled_or : Option Code → GateState
settled_or none = caught_up
settled_or (some code) = not_caught_up (not_ready code)

-- `now // 86400` is the day, `yesterday` the one before.
unfoldable pub check_indexer : ℕ → ℕ → StatusReply → GateState
unfolding ensure_day_settled
check_indexer settle_minutes now (position s) =
    settled_or (ensure_day_settled settle_minutes (now / 86400 - 1) s)
check_indexer settle_minutes now (raised_not_ready code) = not_caught_up (not_ready code)
check_indexer settle_minutes now raised_other = not_caught_up status_unavailable

abbrev pub is_caught_up : GateState → Bool
is_caught_up caught_up = true
is_caught_up (not_caught_up code) = false
