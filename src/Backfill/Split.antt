-- ===== src/Backfill/Split.antt =====
-- The chunks that `build_backfill_run` makes (safe_transaction_service/analytics/tasks_shards.py).
use safe_transaction_service.Common.{
  ℕ, zero, suc, ◌+◌, ◌≤◌, ◌≡◌, refl, sym, ◌∙◌, ap, inl, inr, Bool, some, List, [], ◌∷◌, ◌++◌, ℤ,
  pos, negsuc, leb, leb→le, length, take, drop, arith, Bool-cases, All,
}
use safe_transaction_service.Backfill.{new_run, Chunk, Run, split_days, size_or, build_backfill_run}

module _ {ℓ} {A : Type ℓ} where
  take-drop : (n : ℕ) (xs : List A) → take n xs ++ drop n xs ≡ xs
  take-drop zero xs = refl
  take-drop (suc n) [] = refl
  take-drop (suc n) (x ∷ xs) = ap (λ (ys : List A). x ∷ ys) (take-drop n xs)

  drop-nil : (n : ℕ) → drop {A = A} n [] ≡ []
  drop-nil zero = refl
  drop-nil (suc n) = refl

  drop-drop : (m n : ℕ) (xs : List A) → drop n (drop m xs) ≡ drop (m + n) xs
  drop-drop zero n xs = ap (λ (k : ℕ). drop k xs) (omega arith)
  drop-drop (suc m) n [] = drop-nil n ∙ sym (drop-nil (suc m + n))
  drop-drop (suc m) n (x ∷ xs) =
      let same : suc (m + n) ≡ suc m + n = omega arith in
      drop-drop m n xs ∙ ap (λ (k : ℕ). drop k (x ∷ xs)) same

  drop-length : (n : ℕ) (xs : List A) → length xs ≤ n → drop n xs ≡ []
  drop-length zero [] h = refl
  drop-length zero (x ∷ xs) h = elim (absurd h) [ ]
    where
      absurd : suc (length xs) ≤ 0 → ⊥
      absurd k = omega arith
  drop-length (suc n) [] h = refl
  drop-length (suc n) (x ∷ xs) h = drop-length n xs (omega arith)

  length-take_le : (n : ℕ) (xs : List A) → length (take n xs) ≤ n
  length-take_le zero xs = omega arith
  length-take_le (suc n) [] = omega arith
  length-take_le (suc n) (x ∷ xs) = omega (arith, length-take_le n xs)

abbrev pub chunk_days_of : List Chunk → List ℕ
chunk_days_of [] = []
chunk_days_of (c ∷ cs) = c.days ++ chunk_days_of cs

pub split_days_concat :
    (fuel size : ℕ) (days : List ℕ) (index offset : ℕ)
    → 1 ≤ size
    → length days ≤ fuel + offset
    → chunk_days_of (split_days fuel size days index offset) ≡ drop offset days
unfolding split_days
split_days_concat zero size days index offset some_days enough =
    sym (drop-length offset days (omega arith))
split_days_concat (suc fuel) size days index offset some_days enough =
    elim (Bool-cases (leb (length days) offset)) [
      | inl e ↦ rw e (sym (drop-length offset days (leb→le (length days) offset e)))
      | inr e ↦ rw e (
          ap (λ (ys : List ℕ). take size (drop offset days) ++ ys)
            (split_days_concat fuel size days (suc index) (offset + size) some_days (omega arith)
              ∙ sym (drop-drop offset size days))
          ∙ take-drop size (drop offset days))
    ]

split_days_short :
    (fuel size : ℕ) (days : List ℕ) (index offset : ℕ)
    → All (λ c. length c.days ≤ size) (split_days fuel size days index offset)
unfolding split_days
split_days_short zero size days index offset = tt
split_days_short (suc fuel) size days index offset = elim (Bool-cases (leb (length days) offset)) [
  | inl e ↦ rw e tt
  | inr e ↦ rw e (
    length-take_le size (drop offset days),
    split_days_short fuel size days (suc index) (offset + size),
  )
]

pub size_or_pos : (n : ℤ) (all : ℕ) → 1 ≤ all → 1 ≤ size_or n all
size_or_pos (pos zero) all h = h
size_or_pos (pos (suc n)) all h = omega arith
size_or_pos (negsuc n) all h = h

-- For a list of days that is not empty there is a run. Its chunks hold the given days, in their order and
-- without a loss, each chunk at most `chunk_days` of them; a `chunk_days` that is not positive stands for
-- all days.
pub build_backfill_run_lem :
    (now id d : ℕ) (ds : List ℕ) (chunk_days : ℤ) (skip : Bool)
    → (run : Run) × (build_backfill_run now id (d ∷ ds) chunk_days skip ≡ some run)
      × (chunk_days_of run.chunks ≡ d ∷ ds)
      × (All (λ c. length c.days ≤ size_or chunk_days (length (d ∷ ds))) run.chunks)
      × (run.chunk_count ≡ length run.chunks)
unfolding build_backfill_run
build_backfill_run_lem now id d ds chunk_days skip =
    let size = size_or chunk_days (length (d ∷ ds)) in
    (
      new_run now id (d ∷ ds) chunk_days skip,
      refl,
      split_days_concat (length (d ∷ ds)) size (d ∷ ds) 0 0
          (size_or_pos chunk_days (length (d ∷ ds)) (omega arith)) (omega arith),
      split_days_short (length (d ∷ ds)) size (d ∷ ds) 0 0,
      refl,
    )
