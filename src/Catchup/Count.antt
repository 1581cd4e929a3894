-- ===== src/Catchup/Count.antt =====
-- How often a day stands in the lists that `_catch_up_days` builds
-- (safe_transaction_service/analytics/catchup/sweeper.py).
use safe_transaction_service.Common.{
  ℕ, zero, suc, ◌+◌, ◌-◌, ◌/◌, ◌≤◌, ◌<◌, ◌≡◌, refl, sym, ◌∙◌, subst, Bool, true, false, not, ◌&&◌,
  Option, none, some, List, [], ◌∷◌, arith, leb, ◌==◌, if◌then◌else◌, select, take, contains,
  Bool-cases, inl, inr,
}
use safe_transaction_service.Catchup.{
  insert_day, sort_days, window, window_since, select_failed_days, candidates, CatchupSettings,
  Metrics, last_day,
}

abbrev pub count : ℕ → List ℕ → ℕ
count d [] = 0
count d (x ∷ xs) = let rest = count d xs in if x == d then suc rest else rest

pub count-select : (d : ℕ) (p : ℕ → Bool) (xs : List ℕ) → count d (select p xs) ≤ count d xs
count-select d p [] = omega arith
count-select d p (x ∷ xs) = ground (arith, count-select d p xs)

pub count-select_none :
    (d : ℕ) (p : ℕ → Bool) (xs : List ℕ) → p d ≡ false → count d (select p xs) ≡ 0
count-select_none d p [] h = refl
count-select_none d p (x ∷ xs) h = elim (Bool-cases (p x)) [
  | inr e ↦ rw e (count-select_none d p xs h)
  | inl e ↦
      let rest = count-select_none d p xs h in
      let other : (x == d) ≡ false = differ x e in rw (e, other) rest
]
  where
    differ : (x : ℕ) → p x ≡ true → (x == d) ≡ false
    differ x e = elim (Bool-cases (x == d)) [
      | inr k ↦ k
      | inl k ↦
          let same : x ≡ d = ground arith in
          let no : false ≡ true = sym h ∙ subst (λ n. p n ≡ true) same e in cc
    ]

count-insert : (d x : ℕ) (xs : List ℕ) → count d (insert_day x xs) ≡ count d (x ∷ xs)
count-insert d x [] = refl
count-insert d x (y ∷ ys) = elim (Bool-cases (leb x y)) [
  | inl e ↦ rw e refl
  | inr e ↦ let rest = count-insert d x ys in rw e (ground arith)
]

pub count-sort : (d : ℕ) (xs : List ℕ) → count d (sort_days xs) ≡ count d xs
count-sort d [] = refl
count-sort d (x ∷ xs) =
    count-insert d x (sort_days xs) ∙ (let rest = count-sort d xs in ground arith)

pub count-take : (d n : ℕ) (xs : List ℕ) → count d (take n xs) ≤ count d xs
count-take d zero xs = omega arith
count-take d (suc n) [] = omega arith
count-take d (suc n) (x ∷ xs) = ground (arith, count-take d n xs)

-- All days of the window are at most yesterday, and the first is before the others.
count-window_early : (d today n : ℕ) → n ≤ today → d + n < today → count d (window today n) ≡ 0
count-window_early d today zero h k = refl
count-window_early d today (suc n) h k =
    ground (arith, count-window_early d today n (omega arith) (omega arith))

count-window : (d today n : ℕ) → n ≤ today → count d (window today n) ≤ 1
count-window d today zero h = omega arith
count-window d today (suc n) h = elim (Bool-cases ((today - suc n) == d)) [
  | inl e ↦
      let rest = count-window_early d today n (omega arith) (ground arith) in
      rw (e, rest) (omega arith)
  | inr e ↦ rw e (count-window d today n (omega arith))
]

count-window_since :
    (d today : ℕ) (days : List ℕ) (o : Option ℕ)
    → count d (window_since today days o) ≤ count d days
count-window_since d today days none = omega arith
count-window_since d today days (some first) = count-select d (leb first) days

count-failed :
    (d : ℕ) (completed days : List ℕ) → count d (select_failed_days completed days) ≤ count d days
unfolding select_failed_days
count-failed d completed [] = omega arith
count-failed d completed (x ∷ xs) =
    let done = select (λ c. leb x c && leb c (last_day x xs)) completed in
    count-select d (λ y. not (contains y done)) (x ∷ xs)

pub count-candidates :
    (cfg : CatchupSettings) (now : ℕ) (m : Metrics) (d : ℕ)
    → cfg.window_days ≤ now / 86400
    → count d (candidates cfg now m) ≤ 1
unfolding candidates
count-candidates cfg now m d h =
    let a =
      count-failed d m.completed
        (window_since (now / 86400) (window (now / 86400) cfg.window_days) m.first_day) in
    let b = count-window_since d (now / 86400) (window (now / 86400) cfg.window_days) m.first_day in
    let c = count-window d (now / 86400) cfg.window_days h in omega arith
