-- ===== src/Catchup/Steady.antt =====
-- When the watchdog of the unprocessed calls speaks (`_check_processing_stuck` of
-- safe_transaction_service/analytics/catchup/sweeper.py).
use safe_transaction_service.Common.{ℕ, ◌+◌, ◌*◌, ◌≤◌, ◌≡◌, ◌⊎◌, Option, none, some, List, [], ◌∷◌}
use safe_transaction_service.Catchup.{Processing, Observation, check_processing_stuck}

-- Of the observations, the newest first: down to one at a time, with so many unprocessed calls, all have the
-- value, and none has fewer unprocessed calls than that one.
abbrev pub IsSteady : ℕ → ℕ → ℕ → List Observation → Type 0
IsSteady since value count [] = ⊥
IsSteady since value count (o ∷ os) =
    (o.value ≡ value)
    × (count ≤ o.count)
    × (((o.now ≡ since) × (o.count ≡ count)) ⊎ IsSteady since value count os)

-- The row after the observations of earlier runs.
abbrev pub watched : ℕ → List Observation → Option Processing
watched hours [] = none
watched hours (o ∷ os) = (check_processing_stuck hours (some o) (watched hours os)).1

-- What the row says is true of the observations.
abbrev IsTrue : Option Processing → List Observation → Type 0
IsTrue none os = Unit
IsTrue (some s) os =
    (since : ℕ) × (count : ℕ) × (s.observed_since ≡ some since)
    × (s.observed_count ≡ some count)
    × IsSteady since s.observed_value count os

-- A watchdog that speaks is right about the row it looked at.
abbrev pub IsOld : ℕ → ℕ → List Observation → Type 0
IsOld hours now os =
    (since : ℕ) × (value : ℕ) × (count : ℕ) × (since + hours * 3600 ≤ now)
    × IsSteady since value count os
