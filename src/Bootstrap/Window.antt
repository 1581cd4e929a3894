-- ===== src/Bootstrap/Window.antt =====
-- The window of the daily stage (safe_transaction_service/analytics/bootstrap/daily.py).
use safe_transaction_service.Common.{
  ℕ, zero, suc, ◌+◌, ◌-◌, ◌≤◌, ◌≡◌, refl, ◌∙◌, inl, inr, Bool, true, false, not, ◌&&◌, List, [],
  ◌∷◌, ◌==◌, leb, ltb, if◌then◌else◌, length, contains, select, arith, Bool-cases,
}
use safe_transaction_service.Catchup.{select_failed_days, last_day}
use safe_transaction_service.Bootstrap.{
  DailyWorld, days_from, count_between, window_start, window_end, daily_is_done, missing_days,
}

-- No two rows of `DailyMetric` have the same date.
abbrev pub IsUnique : List ℕ → Type 0
IsUnique [] = Unit
IsUnique (d ∷ ds) = (contains d ds ≡ false) × IsUnique ds

abbrev pub is_nil : List ℕ → Bool
is_nil [] = true
is_nil (d ∷ ds) = false

abbrev bit : Bool → ℕ
bit true = 1
bit false = 0

-- The members from `s` on that are below `s + n`.
abbrev count_from : ℕ → ℕ → List ℕ → ℕ
count_from s n [] = 0
count_from s n (d ∷ ds) =
    let rest = count_from s n ds in if leb s d && ltb d (s + n) then suc rest else rest

count_from_none : (s : ℕ) (ds : List ℕ) → count_from s 0 ds ≡ 0
count_from_none s [] = refl
count_from_none s (d ∷ ds) = ground (arith, count_from_none s ds)

abbrev count_is : ℕ → List ℕ → ℕ
count_is s [] = 0
count_is s (d ∷ ds) = let rest = count_is s ds in if s == d then suc rest else rest

count_from_first :
    (s n : ℕ) (ds : List ℕ) → count_from s (suc n) ds ≡ count_is s ds + count_from (suc s) n ds
count_from_first s n [] = omega arith
count_from_first s n (d ∷ ds) = ground (arith, count_from_first s n ds)

count_is_absent : (s : ℕ) (ds : List ℕ) → contains s ds ≡ false → count_is s ds ≡ 0
count_is_absent s [] h = refl
count_is_absent s (d ∷ ds) h = ground (arith, count_is_absent s ds)

count_is_unique : (s : ℕ) (ds : List ℕ) → IsUnique ds → count_is s ds ≡ bit (contains s ds)
count_is_unique s [] h = refl
count_is_unique s (d ∷ ds) (h, hs) = elim (Bool-cases (s == d)) [
  | inl e ↦
      let same : d ≡ s = ground arith in
      let absent : contains s ds ≡ false = rw same at h in
      rw e (omega (arith, count_is_absent s ds absent))
  | inr e ↦ rw e (count_is_unique s ds hs)
]

-- The days that are not completed, and those that are, make up the window.
missing_and_done :
    (n s : ℕ) (ds : List ℕ)
    → IsUnique ds
    → length (select (λ x. not (contains x ds)) (days_from s n)) + count_from s n ds ≡ n
missing_and_done zero s ds h = omega (arith, count_from_none s ds)
missing_and_done (suc n) s ds h =
    let rest = missing_and_done n (suc s) ds h in
    let first = count_from_first s n ds in
    elim (Bool-cases (contains s ds)) [
      | inl e ↦
          let one : count_is s ds ≡ 1 = rw e at (count_is_unique s ds h) in
          rw e (omega (arith, rest, first, one))
      | inr e ↦
          let zero_times : count_is s ds ≡ 0 = rw e at (count_is_unique s ds h) in
          rw e (omega (arith, rest, first, zero_times))
    ]

-- Over days of the range alone, what is completed in the range is what is completed.
missing_in_range :
    (n s a b : ℕ) (ds : List ℕ)
    → a ≤ s
    → s + n ≤ suc b
    → select (λ x. not (contains x (select (λ c. leb a c && leb c b) ds))) (days_from s n)
      ≡ select (λ x. not (contains x ds)) (days_from s n)
missing_in_range zero s a b ds low high = refl
missing_in_range (suc n) s a b ds low high =
    let rest = missing_in_range n (suc s) a b ds (omega arith) (omega arith) in
    rw (contains-between ds, rest) refl
  where
    contains-between :
        (xs : List ℕ) → contains s (select (λ c. leb a c && leb c b) xs) ≡ contains s xs
    contains-between [] = refl
    contains-between (x ∷ xs) = ground (arith, contains-between xs)

last_of_days : (n s : ℕ) → last_day s (days_from (suc s) n) ≡ s + n
last_of_days zero s = omega arith
last_of_days (suc n) s = last_of_days n (suc s) ∙ omega arith

between_from :
    (n s b : ℕ) (ds : List ℕ) → s + n ≡ b → count_between s b ds ≡ count_from s (suc n) ds
between_from n s b [] h = refl
between_from n s b (d ∷ ds) h = ground (arith, between_from n s b ds h)

nil_of_length : (n k : ℕ) (xs : List ℕ) → length xs + k ≡ n → leb n k ≡ is_nil xs
nil_of_length n k [] h = ground arith
nil_of_length n k (x ∷ xs) h = ground arith

select_failed_range :
    (n s b : ℕ) (ds : List ℕ)
    → s + n ≡ b
    → select_failed_days ds (days_from s (suc n))
      ≡ select (λ x. not (contains x ds)) (days_from s (suc n))
unfolding select_failed_days
select_failed_range n s b ds h =
    missing_in_range (suc n) s s (last_day s (days_from (suc s) n)) ds (omega arith)
      (omega (arith, last_of_days n s))

window_done :
    (n s b : ℕ) (ds : List ℕ)
    → IsUnique ds
    → suc b - s ≡ n
    → leb n (count_between s b ds) ≡ is_nil (select_failed_days ds (days_from s n))
unfolding select_failed_days
window_done zero s b ds h e = ground arith
window_done (suc n) s b ds h e =
    let range : s + n ≡ b = omega arith in
    rw (between_from n s b ds range, select_failed_range n s b ds range)
      (nil_of_length (suc n) (count_from s (suc n) ds)
        (select (λ x. not (contains x ds)) (days_from s (suc n))) (missing_and_done (suc n) s ds h))

-- With one row for each date, the stage reports that it is done, by counting the completed days of its window,
-- exactly if a dispatch would find no missing day.
pub daily_is_done_lem :
    (depth : ℕ) (w : DailyWorld)
    → IsUnique w.completed
    → daily_is_done depth w ≡ is_nil (missing_days depth w)
unfolding daily_is_done missing_days
daily_is_done_lem depth w unique =
    window_done (suc (window_end depth w) - window_start depth w) (window_start depth w)
      (window_end depth w) w.completed unique refl
