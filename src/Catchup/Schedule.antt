-- ===== src/Catchup/Schedule.antt =====
-- The attempts of a day and the window of the sweeper (`get_catchup_settings` of
-- safe_transaction_service/analytics/conf.py, `record_attempt` of analytics/catchup/state.py).
use safe_transaction_service.Common.{
  ℕ, zero, suc, ◌+◌, ◌-◌, ◌*◌, ◌^◌, ◌≤◌, ◌<◌, ◌≡◌, refl, ap, ◌∙◌, subst, Option, none, some, ℤ, pos,
  negsuc, arith, leb, ltb, leb→le, ltb→lt, Bool-cases, inl, inr,
}
use safe_transaction_service.Common.Result.{Result, ok, raised}
use Prim.Native.Nat.pow
use safe_transaction_service.Catchup.{
  CatchupSettings, Environment, Variable, settle_minutes_var, window_days_var, max_days_per_run_var,
  max_attempts_var, backfill_stale_hours_var, processing_stuck_hours_var, snapshot_stale_hours_var,
  read_window, read_per_run, read_attempts, check_attempts, read_backfill, read_stuck,
  read_snapshot, require_int, require_pauses, get_catchup_settings, DayState, attempt, fresh_state,
}

require_int-ok :
    (var : Variable) (least : ℕ) (o : Option ℤ) (rest : ℕ → Result Variable CatchupSettings)
    (cfg : CatchupSettings)
    → require_int var least o rest ≡ ok cfg
    → (n : ℕ) × (least ≤ n) × (rest n ≡ ok cfg)
require_int-ok var least none rest cfg h = cc
require_int-ok var least (some (pos n)) rest cfg h = elim (Bool-cases (leb least n)) [
  | inl e ↦ (n, leb→le least n e, rw e at h)
  | inr e ↦ let no : raised var ≡ ok cfg = rw e at h in cc
]
require_int-ok var least (some (negsuc n)) rest cfg h = cc

require_pauses-ok :
    (window attempts : ℕ) (rest : Result Variable CatchupSettings) (cfg : CatchupSettings)
    → require_pauses window attempts rest ≡ ok cfg
    → (2 ^ (attempts - 1) < window * 24 + 1) × (rest ≡ ok cfg)
require_pauses-ok window attempts rest cfg h =
    elim (Bool-cases (ltb (2 ^ (attempts - 1)) (window * 24 + 1))) [
      | inl e ↦ (ltb→lt _ _ e, rw e at h)
      | inr e ↦ let no : raised max_attempts_var ≡ ok cfg = rw e at h in cc
    ]

-- When a row says that its next attempt is due; at once without a time.
abbrev due_at : ℕ → Option ℕ → ℕ
due_at now none = now
due_at now (some t) = t

-- The state of a day after some attempts, each made as soon as its row says that it is due, and the time of the
-- last.
abbrev pub prompt : ℕ → ℕ → ℕ → DayState × ℕ
prompt day first zero = (attempt first (fresh_state day), first)
prompt day first (suc k) =
    let (s, now) = prompt day first k in
    let next = due_at now s.next_attempt_at in (attempt next s, next)

prompt_attempts : (day first k : ℕ) → (prompt day first k).0.attempts ≡ suc k
unfolding attempt
prompt_attempts day first zero = refl
prompt_attempts day first (suc k) = ap suc (prompt_attempts day first k)

attempt_due :
    (now next : ℕ) (s : DayState)
    → due_at now (attempt next s).next_attempt_at ≡ next + 2 ^ s.attempts * 3600
unfolding attempt
attempt_due now next s = refl

-- When the row after some attempts says that the next one is due.
prompt_due :
    (day first k now : ℕ)
    → due_at now (prompt day first k).0.next_attempt_at ≡ (prompt day first k).1 + 2 ^ k * 3600
prompt_due day first zero now = attempt_due now first (fresh_state day)
prompt_due day first (suc k) now =
    let (s, last) = prompt day first k in
    attempt_due now (due_at last s.next_attempt_at) s
    ∙ ap (λ n. due_at last s.next_attempt_at + 2 ^ n * 3600) (prompt_attempts day first k)

prompt_time : (day first k : ℕ) → (prompt day first k).1 + 3600 ≡ first + 2 ^ k * 3600
prompt_time day first zero = omega arith
prompt_time day first (suc k) =
    let due = prompt_due day first k (prompt day first k).1 in
    omega (arith, due, prompt_time day first k, pow.suc 2 k)

-- The constraints that the settings pass.
abbrev IsChecked : CatchupSettings → Type 0
IsChecked cfg =
    (2 ≤ cfg.window_days)
    × (1 ≤ cfg.max_days_per_run)
    × (1 ≤ cfg.max_attempts)
    × (2 ^ (cfg.max_attempts - 1) < cfg.window_days * 24 + 1)

checked_or : Result Variable CatchupSettings → CatchupSettings → CatchupSettings
checked_or (ok c) d = c
checked_or (raised v) d = d

get_catchup_settings-IsChecked :
    (env : Environment) (cfg : CatchupSettings) → get_catchup_settings env ≡ ok cfg → IsChecked cfg
unfolding get_catchup_settings checked_or
get_catchup_settings-IsChecked env cfg h =
    let (s, p0, h0) =
      require_int-ok settle_minutes_var 0 env.settle_minutes (read_window env) cfg h in
    let (w, p1, h1) =
      require_int-ok window_days_var 2 env.window_days (read_per_run env s) cfg h0 in
    let (r, p2, h2) =
      require_int-ok max_days_per_run_var 1 env.max_days_per_run (read_attempts env s w) cfg h1 in
    let (a, p3, h3) =
      require_int-ok max_attempts_var 1 env.max_attempts (check_attempts env s w r) cfg h2 in
    let (p4, h4) = require_pauses-ok w a (read_backfill env s w r a) cfg h3 in
    let (b, p5, h5) =
      require_int-ok backfill_stale_hours_var 1 env.backfill_stale_hours (read_stuck env s w r a)
        cfg h4 in
    let (t, p6, h6) =
      require_int-ok processing_stuck_hours_var 1 env.processing_stuck_hours
        (read_snapshot env s w r a b) cfg h5 in
    let (n, p7, h7) =
      require_int-ok snapshot_stale_hours_var 1 env.snapshot_stale_hours (λ n. ok _) cfg h6 in
    subst IsChecked (ap (λ r. checked_or r cfg) h7) (p1, p2, p3, p4)

-- With settings that were read without an error, a day whose first attempt and all that follow are
-- made as soon as its row says that they are due uses up its attempts within the days of the window after
-- the first.
pub get_catchup_settings_lem :
    (env : Environment) (cfg : CatchupSettings) (day first : ℕ)
    → get_catchup_settings env ≡ ok cfg
    → ((prompt day first (cfg.max_attempts - 1)).0.attempts ≡ cfg.max_attempts)
      × ((prompt day first (cfg.max_attempts - 1)).1 < first + cfg.window_days * 86400)
get_catchup_settings_lem env cfg day first h =
    let (w, r, a, p) = get_catchup_settings-IsChecked env cfg h in
    (
      omega (arith, prompt_attempts day first (cfg.max_attempts - 1)),
      omega (arith, prompt_time day first (cfg.max_attempts - 1)),
    )
