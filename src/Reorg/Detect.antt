-- ===== src/Reorg/Detect.antt =====
-- What `check_reorgs` finds.
use safe_transaction_service.Common.{
  ℕ, ◌≤◌, ◌<◌, ◌≡◌, refl, ◌⊎◌, inl, inr, Bool, true, false, not, Option, none, some, List, [], ◌∷◌,
  ◌++◌, arith, leb, leb→le, ◌==◌, All, Any, concat, Bool-cases, if◌then◌else◌,
}
use safe_transaction_service.Reorg.Database.{Block, ReorgService}
use safe_transaction_service.Reorg.Check.{
  Chain, order_by_number, since_block, first_not_confirmed, check_page, check_pages, check_since,
  check_reorgs, confirm_matching,
}
use safe_transaction_service.Reorg.Order.{IsOrdered, All-of-order, Any-of-order, order-IsOrdered}

-- The chain knows a block of this number, and its hash is another.
abbrev pub differs : Chain → Block → Bool
differs chain b = elim (chain b.number) [ none ↦ false | some hash ↦ not (hash == b.block_hash) ]

first_differing : Chain → List Block → Option ℕ
first_differing chain [] = none
first_differing chain (b ∷ bs) =
    let rest = first_differing chain bs in if differs chain b then some b.number else rest

-- The stored blocks from a number on, against the number that was found: none of them differs, or
-- the number is that of one that differs, and none that differs has a smaller number.
abbrev pub Verdict : Chain → ℕ → List Block → Option ℕ → Type 0
Verdict chain first table none = All (λ b. (b.number < first) ⊎ (differs chain b ≡ false)) table
Verdict chain first table (some n) =
    (first ≤ n)
    × (All (λ b. (b.number < first) ⊎ (n ≤ b.number) ⊎ (differs chain b ≡ false)) table)
    × (Any (λ b. (b.number ≡ n) × (differs chain b ≡ true)) table)

module _ (service : ReorgService) (chain : Chain) (current : ℕ) where
  check_page_found :
      (bs table : List Block)
      → (check_page service chain current bs table).0 ≡ first_differing chain bs
  unfolding check_page first_differing
  check_page_found [] table = refl
  check_page_found (b ∷ bs) table = ground (
    arith,
    check_page_found bs table,
    check_page_found bs (confirm_matching service chain current b table),
  )

  check_page-append :
      (xs ys table : List Block)
      → check_page service chain current (xs ++ ys) table ≡ (
          let (found, table') = check_page service chain current xs table in
          elim found [
            | some number ↦ (some number, table')
            | none ↦ check_page service chain current ys table'
          ])
  unfolding check_page
  check_page-append [] ys table = refl
  check_page-append (b ∷ bs) ys table = ground (
    arith,
    check_page-append bs ys table,
    check_page-append bs ys (confirm_matching service chain current b table),
  )

  -- The pages make no difference.
  pub check_pages-concat :
      (pages : List (List Block)) (table : List Block)
      → check_pages service chain current pages table
        ≡ check_page service chain current (concat pages) table
  unfolding check_pages
  check_pages-concat [] table = unfold check_page in refl
  check_pages-concat (page ∷ pages) table =
      rw (check_page-append page (concat pages) table)
        (ground (arith, check_pages-concat pages (check_page service chain current page table).1))

-- In an ordered list the first block that differs has the least number of those that differ.
abbrev ListVerdict : Chain → List Block → Option ℕ → Type 0
ListVerdict chain bs none = All (λ b. differs chain b ≡ false) bs
ListVerdict chain bs (some n) =
    All (λ b. (n ≤ b.number) ⊎ (differs chain b ≡ false)) bs
    × Any (λ b. (b.number ≡ n) × (differs chain b ≡ true)) bs

All-later :
    (chain : Chain) (n : ℕ) (bs : List Block)
    → All (λ x. n ≤ x.number) bs
    → All (λ x. (n ≤ x.number) ⊎ (differs chain x ≡ false)) bs
All-later chain n [] h = tt
All-later chain n (b ∷ bs) h = (inl h.0, All-later chain n bs h.1)

ListVerdict-cons :
    (chain : Chain) (b : Block) (bs : List Block) (o : Option ℕ)
    → differs chain b ≡ false
    → ListVerdict chain bs o
    → ListVerdict chain (b ∷ bs) o
ListVerdict-cons chain b bs none same v = (same, v)
ListVerdict-cons chain b bs (some n) same v = ((inr same, v.0), inr v.1)

first_differing_lem :
    (chain : Chain) (bs : List Block)
    → IsOrdered bs
    → ListVerdict chain bs (first_differing chain bs)
unfolding first_differing
first_differing_lem chain [] h = tt
first_differing_lem chain (b ∷ bs) h = elim (Bool-cases (differs chain b)) [
  | inl t ↦ rw t ((inl (omega arith), All-later chain b.number bs h.0), inl (refl, t))
  | inr t ↦
      rw t (
        ListVerdict-cons chain b bs (first_differing chain bs) t (first_differing_lem chain bs h.1))
]

module _ (first : ℕ) where
  -- From the blocks since a number to all stored blocks.
  All-since :
      (P : Block → Type 0) (table : List Block)
      → All P (since_block first table)
      → All (λ b. (b.number < first) ⊎ P b) table
  All-since P [] h = tt
  All-since P (b ∷ bs) h = elim (Bool-cases (leb first b.number)) [
    | inl t ↦
        let h' : All P (b ∷ since_block first bs) = (rw t at h) in (inr h'.0, All-since P bs h'.1)
    | inr t ↦ (inl (ground arith), All-since P bs (rw t at h))
  ]

  pub Any-since :
      (P : Block → Type 0) (table : List Block)
      → Any P (since_block first table)
      → Any (λ b. (first ≤ b.number) × P b) table
  Any-since P [] h = h
  Any-since P (b ∷ bs) h = elim (Bool-cases (leb first b.number)) [
    | inl t ↦ elim (let k : P b ⊎ Any P (since_block first bs) = (rw t at h) in k) [
      | inl p ↦ inl (leb→le first b.number t, p)
      | inr rest ↦ inr (Any-since P bs rest)
    ]
    | inr t ↦ inr (Any-since P bs (rw t at h))
  ]

least_found :
    (chain : Chain) (first n : ℕ) (table : List Block)
    → Any (λ b. (first ≤ b.number) × ((b.number ≡ n) × (differs chain b ≡ true))) table
    → (first ≤ n) × (Any (λ b. (b.number ≡ n) × (differs chain b ≡ true)) table)
least_found chain first n [] h = absurd h
least_found chain first n (b ∷ bs) (inl p) = (rw (← p.1.0) p.0, inl p.1)
least_found chain first n (b ∷ bs) (inr rest) =
    let (le, found) = least_found chain first n bs rest in (le, inr found)

Verdict-of-list :
    (chain : Chain) (first : ℕ) (table : List Block) (o : Option ℕ)
    → ListVerdict chain (order_by_number (since_block first table)) o
    → Verdict chain first table o
Verdict-of-list chain first table none v =
    All-since first _ table (All-of-order _ (since_block first table) v)
Verdict-of-list chain first table (some n) v =
    let found = least_found chain first n table (
      Any-since first (λ b. (b.number ≡ n) × (differs chain b ≡ true)) table
        (Any-of-order (λ b. (b.number ≡ n) × (differs chain b ≡ true)) (since_block first table)
          v.1)) in
    (
      found.0,
      All-since first (λ b. (n ≤ b.number) ⊎ (differs chain b ≡ false)) table
          (All-of-order (λ b. (n ≤ b.number) ⊎ (differs chain b ≡ false)) (since_block first table)
            v.0),
      found.1,
    )

-- What `check_reorgs` finds over a table, by the least number of a block that is not confirmed.
abbrev pub Checked : Chain → List Block → Option ℕ → Option ℕ → Type 0
Checked chain table none found = found ≡ none
Checked chain table (some first) found = Verdict chain first table found

module _ (service : ReorgService) (chain : Chain) (current : ℕ)
    (paginate : ℕ → List Block → List (List Block))
    (whole : (n : ℕ) (bs : List Block) → concat (paginate n bs) ≡ bs) where
  check_since-Checked :
      (o : Option ℕ) (table : List Block)
      → Checked chain table o (check_since service chain current paginate o table).0
  unfolding check_since
  check_since-Checked none table = refl
  check_since-Checked (some first) table =
      let bs = order_by_number (since_block first table) in
      rw
        (
          check_pages-concat service chain current (paginate service.eth_reorg_blocks_batch bs)
              table,
          whole service.eth_reorg_blocks_batch bs,
          check_page_found service chain current bs table,
        )
        (Verdict-of-list chain first table (first_differing chain bs)
          (first_differing_lem chain bs (order-IsOrdered (since_block first table))))

  -- With a paginator whose pages make up the whole list, `check_reorgs` looks at the stored blocks from
  -- the first one that is not confirmed. It returns `None` exactly if there is no such block or none of
  -- them has another hash on the chain; otherwise it returns the least number of a block that has.
  pub check_reorgs-Checked :
      (table : List Block)
      → Checked chain table
          (first_not_confirmed table)
          (check_reorgs service chain current paginate table).0
  unfolding check_reorgs
  check_reorgs-Checked table = check_since-Checked (first_not_confirmed table) table
