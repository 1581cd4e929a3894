-- ===== src/Catchup/Backoff.antt =====
-- How far apart the attempts of a day lie (`record_attempt` of
-- safe_transaction_service/analytics/catchup/state.py).
use safe_transaction_service.Common.{
  ℕ, ◌+◌, ◌*◌, ◌^◌, ◌≤◌, ◌≡◌, refl, sym, ◌∙◌, subst, true, Option, none, some, arith,
}
use Prim.Native.Nat.pow
use safe_transaction_service.Catchup.{DayState, attempt, is_reached}

-- The states of a day whose first attempt was at a time: each further attempt was due, and whatever
-- happens in between keeps the counter and the time of the next attempt.
pub data History (first : ℕ) : DayState → Type 0 where
  first_attempt : (s : DayState) → s.attempts ≡ 0 → History first (attempt first s)
  next_attempt :
      (s : DayState) (now : ℕ)
      → History first s
      → is_reached now s.next_attempt_at ≡ true
      → History first (attempt now s)
  other_update :
      (s t : DayState)
      → History first s
      → t.attempts ≡ s.attempts
      → t.next_attempt_at ≡ s.next_attempt_at
      → History first t

abbrev IsSpaced : ℕ → DayState → Type 0
IsSpaced first s =
    (t : ℕ) × (s.next_attempt_at ≡ some t) × (first + 2 ^ s.attempts * 3600 ≤ t + 3600)

attempt-IsSpaced :
    (first now : ℕ) (s : DayState)
    → first + 2 ^ s.attempts * 3600 ≤ now + 3600
    → IsSpaced first (attempt now s)
unfolding attempt
attempt-IsSpaced first now s h =
    (now + 2 ^ s.attempts * 3600, refl, omega (arith, pow.suc 2 s.attempts))

reached : (now t : ℕ) (o : Option ℕ) → o ≡ some t → is_reached now o ≡ true → t ≤ now
reached now t none e h = cc
reached now t (some u) e h = ground arith

History-IsSpaced : (first : ℕ) (s : DayState) → History first s → IsSpaced first s
History-IsSpaced first _ (first_attempt s e) =
    attempt-IsSpaced first first s
      (let one : 2 ^ s.attempts ≡ 1 = subst (λ n. 2 ^ n ≡ 1) (sym e) refl in omega arith)
History-IsSpaced first _ (next_attempt s now h r) =
    let (t, e, p) = History-IsSpaced first s h in
    let q = reached now t s.next_attempt_at e r in attempt-IsSpaced first now s (omega arith)
History-IsSpaced first t (other_update s _ h e k) =
    let (u, f, p) = History-IsSpaced first s h in
    (u, k ∙ f, subst (λ n. first + 2 ^ n * 3600 ≤ u + 3600) (sym e) p)

-- An attempt that is due after `n` attempts lies at least `2 ** n - 1` hours after the first one:
-- the fifth at least 15 hours.
pub History-spaced :
    (first now : ℕ) (s : DayState)
    → History first s
    → is_reached now s.next_attempt_at ≡ true
    → first + 2 ^ s.attempts * 3600 ≤ now + 3600
History-spaced first now s h r =
    let (t, e, p) = History-IsSpaced first s h in
    let q = reached now t s.next_attempt_at e r in omega arith
