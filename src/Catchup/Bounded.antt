-- ===== src/Catchup/Bounded.antt =====
-- The rows after `ensure_day_states` (safe_transaction_service/analytics/catchup/state.py).
use safe_transaction_service.Common.{
  ℕ, ◌≤◌, ◌≡◌, refl, ap, ◌∙◌, none, some, List, [], ◌∷◌, ◌++◌, map, All, arith, ◌==◌, Bool-cases,
  inl, inr, ◌⊎◌,
}
use safe_transaction_service.Catchup.{DayState, get_day_state, fresh_state}
use safe_transaction_service.Catchup.Count.{count}

-- A row is the one that its day finds, as the unique constraint of the table has it.
abbrev pub IsOwn : List DayState → DayState → Type 0
IsOwn rows s = get_day_state s.key rows ≡ some s

abbrev pub IsBounded : ℕ → DayState → Type 0
IsBounded most s = s.attempts ≤ most

get-append :
    (d : ℕ) (rows ys : List DayState) (s : DayState)
    → get_day_state d rows ≡ some s
    → get_day_state d (rows ++ ys) ≡ some s
unfolding get_day_state
get-append d [] ys s h = cc
get-append d (x ∷ xs) ys s h = ground (arith, get-append d xs ys s)

get-append_none :
    (d : ℕ) (rows ys : List DayState)
    → get_day_state d rows ≡ none
    → get_day_state d (rows ++ ys) ≡ get_day_state d ys
unfolding get_day_state
get-append_none d [] ys h = refl
get-append_none d (x ∷ xs) ys h = ground (arith, get-append_none d xs ys)

-- The new rows, of days without one.
module _ (rows : List DayState) where
  pub All-IsOwn_old :
      (ys olds : List DayState) → All (IsOwn rows) olds → All (IsOwn (rows ++ ys)) olds
  All-IsOwn_old ys [] hs = tt
  All-IsOwn_old ys (s ∷ ss) (h, hs) = (get-append s.key rows ys s h, All-IsOwn_old ys ss hs)

get_fresh :
    (d : ℕ) (xs : List ℕ)
    → (get_day_state d (map fresh_state xs) ≡ some (fresh_state d)) ⊎ (count d xs ≡ 0)
unfolding get_day_state
get_fresh d [] = inr refl
get_fresh d (x ∷ xs) = elim (Bool-cases (x == d)) [
  | inl e ↦ let same : x ≡ d = ground arith in inl (rw e (ap (λ n. some (fresh_state n)) same))
  | inr e ↦ rw e (get_fresh d xs)
]

IsOwn-fresh :
    (rows : List DayState) (all : List ℕ) (d : ℕ)
    → get_day_state d rows ≡ none
    → 1 ≤ count d all
    → IsOwn (rows ++ map fresh_state all) (fresh_state d)
IsOwn-fresh rows all d h k = elim (get_fresh d all) [
  | inl e ↦ get-append_none d rows (map fresh_state all) h ∙ e
  | inr e ↦ elim (absurd (count d all) k e) [ ]
]
  where
    absurd : (n : ℕ) → 1 ≤ n → n ≡ 0 → ⊥
    absurd n p q = omega arith

pub All-IsOwn_fresh :
    (rows : List DayState) (all xs : List ℕ)
    → ((d : ℕ) → 1 ≤ count d xs → (get_day_state d rows ≡ none) × (1 ≤ count d all))
    → All (IsOwn (rows ++ map fresh_state all)) (map fresh_state xs)
All-IsOwn_fresh rows all [] f = tt
All-IsOwn_fresh rows all (x ∷ xs) f =
    let (h, k) = f x (ground arith) in
    (IsOwn-fresh rows all x h k, All-IsOwn_fresh rows all xs (λ d p. f d (ground arith)))

pub All-IsBounded_fresh : (most : ℕ) (xs : List ℕ) → All (IsBounded most) (map fresh_state xs)
All-IsBounded_fresh most [] = tt
All-IsBounded_fresh most (x ∷ xs) = (omega arith, All-IsBounded_fresh most xs)
