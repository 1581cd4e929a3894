-- ===== src/Native/Rows.antt =====
-- The rows of the rollup: what a page covers and what seeding adds (the queries of
-- safe_transaction_service/analytics/tasks.py).
use safe_transaction_service.Common.{
  ℕ, zero, suc, ◌<◌, ◌≤◌, ◌≡◌, ◌⊎◌, inl, inr, refl, subst, Bool, true, false, not, ◌||◌, List, [],
  ◌∷◌, ◌++◌, map, ◌==◌, select, take, contains, All, arith, Bool-cases,
}
use safe_transaction_service.Native.{RollupRow, has_row, seeded_row, missing, last_address}

-- Addresses in the strict order of the primary key.
abbrev pub IsAscending : List ℕ → Type 0
IsAscending [] = zero ≡ zero
IsAscending (x ∷ xs) = All (λ b. x < b) xs × IsAscending xs

All-contains : (a x : ℕ) (xs : List ℕ) → All (λ b. a < b) xs → contains x xs ≡ true → a < x
All-contains a x [] h k = cc
All-contains a x (y ∷ ys) (h, hs) k = ground (arith, All-contains a x ys hs)

All-select :
    (a : ℕ) (p : ℕ → Bool) (xs : List ℕ) → All (λ b. a < b) xs → All (λ b. a < b) (select p xs)
All-select a p [] h = h
All-select a p (x ∷ xs) (h, hs) = elim (Bool-cases (p x)) [
  | inl e ↦ rw e (h, All-select a p xs hs)
  | inr e ↦ rw e (All-select a p xs hs)
]

pub select-IsAscending : (p : ℕ → Bool) (xs : List ℕ) → IsAscending xs → IsAscending (select p xs)
select-IsAscending p [] h = h
select-IsAscending p (x ∷ xs) (h, hs) = elim (Bool-cases (p x)) [
  | inl e ↦ rw e (All-select x p xs h, select-IsAscending p xs hs)
  | inr e ↦ rw e (select-IsAscending p xs hs)
]

later :
    (x y : ℕ) (ys : List ℕ) → (x == y) ≡ false → contains x (y ∷ ys) ≡ true → contains x ys ≡ true
later x y ys e h = subst (λ (b : Bool). (b || contains x ys) ≡ true) e h

pub contains-select :
    (p : ℕ → Bool) (x : ℕ) (xs : List ℕ)
    → contains x xs ≡ true
    → p x ≡ true
    → contains x (select p xs) ≡ true
contains-select p x [] h k = h
contains-select p x (y ∷ ys) h k = elim (Bool-cases (x == y)) [
  | inl same ↦
      let e : x ≡ y = ground (arith, same) in
      let passes : p y ≡ true = subst (λ (z : ℕ). p z ≡ true) e k in rw (passes, same) refl
  | inr differs ↦
      let found = contains-select p x ys (later x y ys differs h) k in
      elim (Bool-cases (p y)) [
        | inl passes ↦ rw (passes, differs) found
        | inr fails ↦ rw fails found
      ]
]

-- An address of an ascending list is in the page that starts it, or after the page's last address.
pub page_or_after :
    (a x n : ℕ) (xs : List ℕ)
    → IsAscending (a ∷ xs)
    → contains x (a ∷ xs) ≡ true
    → (contains x (a ∷ take n xs) ≡ true) ⊎ (last_address a (take n xs) < x)
page_or_after a x zero xs (h, hs) k = elim (Bool-cases (x == a)) [
  | inl same ↦ inl (rw same refl)
  | inr differs ↦ inr (All-contains a x xs h (later x a xs differs k))
]
page_or_after a x (suc n) [] (h, hs) k = inl k
page_or_after a x (suc n) (b ∷ bs) (h, hs) k = elim (Bool-cases (x == a)) [
  | inl same ↦ inl (rw same refl)
  | inr differs ↦ elim (page_or_after b x n bs hs (later x a (b ∷ bs) differs k)) [
    | inl within ↦ inl (rw differs within)
    | inr past ↦ inr past
  ]
]

pub has_row-append :
    (a : ℕ) (rs qs : List RollupRow) → has_row a (rs ++ qs) ≡ (has_row a rs || has_row a qs)
has_row-append a [] qs = refl
has_row-append a (r ∷ rs) qs = ground (arith, has_row-append a rs qs)

has_row-seeded :
    (block a : ℕ) (xs : List ℕ)
    → contains a xs ≡ true
    → has_row a (map (seeded_row block) xs) ≡ true
has_row-seeded block a [] h = h
has_row-seeded block a (x ∷ xs) h = ground (arith, has_row-seeded block a xs)

pub seeds_all :
    (block a : ℕ) (page : List ℕ) (rs : List RollupRow)
    → contains a page ≡ true
    → has_row a (rs ++ map (seeded_row block) (missing page rs)) ≡ true
seeds_all block a page rs h = elim (Bool-cases (has_row a rs)) [
  | inl there ↦ rw (has_row-append a rs (map (seeded_row block) (missing page rs)), there) refl
  | inr absent ↦
      rw (has_row-append a rs (map (seeded_row block) (missing page rs)), absent)
        (has_row-seeded block a (missing page rs)
          (contains-select (λ b. not (has_row b rs)) a page h (rw absent refl)))
]

-- The page that a query returns: it is empty at the end of the walk alone, and holds the next addresses.
pub empty_page : (n x : ℕ) (xs : List ℕ) → 1 ≤ n → take n xs ≡ [] → contains x xs ≡ false
empty_page zero x xs h e = ground arith
empty_page (suc n) x [] h e = refl
empty_page (suc n) x (y ∷ ys) h e = cc

abbrev last_in : List ℕ → ℕ
last_in [] = 0
last_in (a ∷ xs) = last_address a xs

pub page_reaches :
    (n x a : ℕ) (more xs : List ℕ)
    → IsAscending xs
    → take n xs ≡ a ∷ more
    → contains x xs ≡ true
    → (contains x (a ∷ more) ≡ true) ⊎ (last_address a more < x)
page_reaches zero x a more xs h e k = cc
page_reaches (suc n) x a more [] h e k = cc
page_reaches (suc n) x a more (b ∷ bs) h e k =
    subst (λ (ys : List ℕ). (contains x ys ≡ true) ⊎ (last_in ys < x)) e
      (page_or_after b x n bs h k)
