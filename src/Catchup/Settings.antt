-- ===== src/Catchup/Settings.antt =====
-- The settings of the catch-up: `get_catchup_settings` of safe_transaction_service/analytics/conf.py.
use safe_transaction_service.Common.{
  ℕ, ◌+◌, ◌-◌, ◌*◌, ◌^◌, Option, none, some, ℤ, pos, negsuc, ltb, leb, if◌then◌else◌,
}
use safe_transaction_service.Common.Result.{Result, ok, raised}

pub record CatchupSettings : Type 0 where
  pub settle_minutes : ℕ
  pub window_days : ℕ
  pub max_days_per_run : ℕ
  pub max_attempts : ℕ
  pub backfill_stale_hours : ℕ
  pub processing_stuck_hours : ℕ
  pub snapshot_stale_hours : ℕ

-- The variables of the environment, as far as they are integers.
pub record Environment : Type 0 where
  pub settle_minutes : Option ℤ
  pub window_days : Option ℤ
  pub max_days_per_run : Option ℤ
  pub max_attempts : Option ℤ
  pub backfill_stale_hours : Option ℤ
  pub processing_stuck_hours : Option ℤ
  pub snapshot_stale_hours : Option ℤ

-- The variable that `ImproperlyConfigured` names.
pub data Variable : Type 0 where
  settle_minutes_var window_days_var max_days_per_run_var max_attempts_var : Variable
  backfill_stale_hours_var processing_stuck_hours_var snapshot_stale_hours_var : Variable

-- `_read_int`, then `_require` of a least value.
abbrev pub require_int :
    Variable
    → ℕ
    → Option ℤ
    → (ℕ → Result Variable CatchupSettings)
    → Result Variable CatchupSettings
require_int var least none rest = raised var
require_int var least (some (pos n)) rest = if leb least n then rest n else raised var
require_int var least (some (negsuc n)) rest = raised var

-- The sum of the pauses between the attempts is below the hours of the window.
abbrev pub require_pauses :
    ℕ → ℕ → Result Variable CatchupSettings → Result Variable CatchupSettings
require_pauses window_days max_attempts rest =
    if ltb (2 ^ (max_attempts - 1)) (window_days * 24 + 1) then rest else raised max_attempts_var

-- The readings of `get_catchup_settings`, the last one first; each has the values before it.
module _ (env : Environment) (settle : ℕ) where
  abbrev pub read_snapshot : ℕ → ℕ → ℕ → ℕ → ℕ → Result Variable CatchupSettings
  read_snapshot window per_run attempts backfill stuck =
      require_int snapshot_stale_hours_var 1 env.snapshot_stale_hours (λ snapshot. ok (record {
        settle_minutes = settle;
        window_days = window;
        max_days_per_run = per_run;
        max_attempts = attempts;
        backfill_stale_hours = backfill;
        processing_stuck_hours = stuck;
        snapshot_stale_hours = snapshot;
      }))

  abbrev pub read_stuck : ℕ → ℕ → ℕ → ℕ → Result Variable CatchupSettings
  read_stuck window per_run attempts backfill =
      require_int processing_stuck_hours_var 1 env.processing_stuck_hours
        (read_snapshot window per_run attempts backfill)

  abbrev pub read_backfill : ℕ → ℕ → ℕ → Result Variable CatchupSettings
  read_backfill window per_run attempts =
      require_int backfill_stale_hours_var 1 env.backfill_stale_hours
        (read_stuck window per_run attempts)

  abbrev pub check_attempts : ℕ → ℕ → ℕ → Result Variable CatchupSettings
  check_attempts window per_run attempts =
      require_pauses window attempts (read_backfill window per_run attempts)

  abbrev pub read_attempts : ℕ → ℕ → Result Variable CatchupSettings
  read_attempts window per_run =
      require_int max_attempts_var 1 env.max_attempts (check_attempts window per_run)

  abbrev pub read_per_run : ℕ → Result Variable CatchupSettings
  read_per_run window =
      require_int max_days_per_run_var 1 env.max_days_per_run (read_attempts window)

  abbrev pub read_window : Result Variable CatchupSettings
  read_window = require_int window_days_var 2 env.window_days read_per_run

unfoldable pub get_catchup_settings : Environment → Result Variable CatchupSettings
get_catchup_settings env = require_int settle_minutes_var 0 env.settle_minutes (read_window env)
