-- ===== src/Reorg/Confirm.antt =====
-- Which blocks `check_reorgs` marks as confirmed.
use safe_transaction_service.Common.{
  ℕ, ◌+◌, ◌≤◌, ◌≡◌, refl, ◌⊎◌, inl, inr, true, false, Option, none, some, List, [], ◌∷◌, arith, leb,
  leb→le, ◌==◌, ==_iff, Any, concat, Bool-cases, Option-cases, if◌then◌else◌, ap,
}
use safe_transaction_service.Reorg.Database.{Block, ReorgService}
use safe_transaction_service.Reorg.Check.{
  Chain, order_by_number, since_block, set_confirmed, confirm_matching, check_page, check_since,
  check_reorgs, first_not_confirmed,
}
use safe_transaction_service.Reorg.Order.{Any-of-order}
use safe_transaction_service.Reorg.Detect.{check_pages-concat, Any-since}

-- The table before and after, row by row: a row is as it was, or is confirmed now, and then its
-- number has the property.
abbrev pub RowsConfirmed : (ℕ → Type 0) → List Block → List Block → Type 0
RowsConfirmed P [] [] = Unit
RowsConfirmed P [] (b' ∷ bs') = ⊥
RowsConfirmed P (b ∷ bs) [] = ⊥
RowsConfirmed P (b ∷ bs) (b' ∷ bs') =
    ((b' ≡ b) ⊎ ((b' ≡ record b { confirmed = true }) × P b.number)) × RowsConfirmed P bs bs'

RowsConfirmed-refl : (P : ℕ → Type 0) (bs : List Block) → RowsConfirmed P bs bs
RowsConfirmed-refl P [] = tt
RowsConfirmed-refl P (b ∷ bs) = (inl refl, RowsConfirmed-refl P bs)

row_confirmed :
    (P : ℕ → Type 0) (n : ℕ) (b b' : Block)
    → P n
    → (b' ≡ b) ⊎ ((b' ≡ record b { confirmed = true }) × P b.number)
    → ((if b'.number == n then record b' { confirmed = true } else b') ≡ b)
      ⊎ (((if b'.number == n then record b' { confirmed = true } else b')
            ≡ record b { confirmed = true })
          × P b.number)
row_confirmed P n b b' p h = elim (Bool-cases (b'.number == n)) [
  | inl t ↦ let same : n ≡ b.number = ground arith in rw t (inr (ground arith, rw (← same) p))
  | inr t ↦ rw t h
]

set_confirmed-RowsConfirmed :
    (P : ℕ → Type 0) (n : ℕ) (bs bs' : List Block)
    → P n
    → RowsConfirmed P bs bs'
    → RowsConfirmed P bs (set_confirmed n bs')
unfolding set_confirmed
set_confirmed-RowsConfirmed P n [] [] p h = tt
set_confirmed-RowsConfirmed P n [] (b' ∷ bs') p h = absurd h
set_confirmed-RowsConfirmed P n (b ∷ bs) [] p h = absurd h
set_confirmed-RowsConfirmed P n (b ∷ bs) (b' ∷ bs') p h =
    (row_confirmed P n b b' p h.0, set_confirmed-RowsConfirmed P n bs bs' p h.1)

-- A number that may be confirmed: it is deep enough under the chain's head, and a stored block with it,
-- not below the first block that was looked at, has the hash that the chain has there.
abbrev pub Confirmable : ReorgService → Chain → ℕ → ℕ → List Block → ℕ → Type 0
Confirmable service chain current first table n =
    (n + service.eth_reorg_blocks ≤ current)
    × (Any (λ b. (first ≤ b.number) × (b.number ≡ n) × (chain n ≡ some b.block_hash)) table)

module _ (service : ReorgService) (chain : Chain) (current : ℕ) (P : ℕ → Type 0)
    (table : List Block) where
  -- What the page loop may rely on for a block of its list.
  abbrev Allowed : List Block → Type 0
  Allowed bs =
      (b : Block)
      → Any (λ x. x ≡ b) bs
      → b.number + service.eth_reorg_blocks ≤ current
      → chain b.number ≡ some b.block_hash
      → P b.number

  confirm_matching-RowsConfirmed :
      (b : Block) (table' : List Block) (hash : ℕ)
      → chain b.number ≡ some hash
      → (hash == b.block_hash) ≡ true
      → Allowed (b ∷ [])
      → RowsConfirmed P table table'
      → RowsConfirmed P table (confirm_matching service chain current b table')
  unfolding confirm_matching
  confirm_matching-RowsConfirmed b table' hash e same allowed h =
      elim (Bool-cases (leb (b.number + service.eth_reorg_blocks) current)) [
        | inl t ↦
            let hashes = (==_iff hash b.block_hash).0 same in
            rw t (
              set_confirmed-RowsConfirmed P b.number table table'
                (allowed b (inl refl) (leb→le (b.number + service.eth_reorg_blocks) current t)
                  (rw (← hashes) e))
                h)
        | inr t ↦ rw t h
      ]

  page_missing :
      (b : Block) (bs table' : List Block)
      → chain b.number ≡ none
      → check_page service chain current (b ∷ bs) table'
        ≡ check_page service chain current bs table'
  unfolding check_page
  page_missing b bs table' e = ground arith

  page_matching :
      (b : Block) (bs table' : List Block) (hash : ℕ)
      → chain b.number ≡ some hash
      → (hash == b.block_hash) ≡ true
      → check_page service chain current (b ∷ bs) table'
        ≡ check_page service chain current bs (confirm_matching service chain current b table')
  unfolding check_page
  page_matching b bs table' hash e same = ground arith

  page_differing :
      (b : Block) (bs table' : List Block) (hash : ℕ)
      → chain b.number ≡ some hash
      → (hash == b.block_hash) ≡ false
      → check_page service chain current (b ∷ bs) table' ≡ (some b.number, table')
  unfolding check_page
  page_differing b bs table' hash e same = ground arith

  check_page-RowsConfirmed :
      (bs table' : List Block)
      → Allowed bs
      → RowsConfirmed P table table'
      → RowsConfirmed P table (check_page service chain current bs table').1
  check_page-RowsConfirmed [] table' allowed h = unfold check_page in h
  check_page-RowsConfirmed (b ∷ bs) table' allowed h = elim (Option-cases (chain b.number)) [
    | inl e ↦
        rw (page_missing b bs table' e)
          (check_page-RowsConfirmed bs table' (λ x m. allowed x (inr m)) h)
    | inr (hash, e) ↦ elim (Bool-cases (hash == b.block_hash)) [
      | inl t ↦ rw (page_matching b bs table' hash e t) (
          check_page-RowsConfirmed bs (confirm_matching service chain current b table')
            (λ x m. allowed x (inr m))
            (confirm_matching-RowsConfirmed b table' hash e t
              (λ x m. allowed x (elim m [ inl q ↦ inl q | inr nowhere ↦ absurd nowhere ])) h))
      | inr t ↦ rw (page_differing b bs table' hash e t) h
    ]
  ]

-- The rows that are checked from a first number on, and the property for them.
abbrev pub ConfirmedSince : ReorgService → Chain → ℕ → List Block → Option ℕ → List Block → Type 0
ConfirmedSince service chain current table none table' = table' ≡ table
ConfirmedSince service chain current table (some first) table' =
    RowsConfirmed (Confirmable service chain current first table) table table'

member-Confirmable :
    (service : ReorgService) (chain : Chain) (current first : ℕ) (b : Block) (table : List Block)
    → Any (λ x. (first ≤ x.number) × (x ≡ b)) table
    → chain b.number ≡ some b.block_hash
    → Any
        (λ x. (first ≤ x.number) × (x.number ≡ b.number) × (chain b.number ≡ some x.block_hash))
        table
member-Confirmable service chain current first b [] h e = absurd h
member-Confirmable service chain current first b (x ∷ xs) (inl p) e =
    inl (p.0, ap (λ (y : Block). y.number) p.1, rw p.1 e)
member-Confirmable service chain current first b (x ∷ xs) (inr rest) e =
    inr (member-Confirmable service chain current first b xs rest e)

module _ (service : ReorgService) (chain : Chain) (current : ℕ)
    (paginate : ℕ → List Block → List (List Block))
    (whole : (n : ℕ) (bs : List Block) → concat (paginate n bs) ≡ bs) where
  check_since-ConfirmedSince :
      (o : Option ℕ) (table : List Block)
      → ConfirmedSince service chain current table o
          (check_since service chain current paginate o table).1
  unfolding check_since
  check_since-ConfirmedSince none table = refl
  check_since-ConfirmedSince (some first) table =
      let bs = order_by_number (since_block first table) in
      rw
        (
          check_pages-concat service chain current (paginate service.eth_reorg_blocks_batch bs)
              table,
          whole service.eth_reorg_blocks_batch bs,
        )
        (check_page-RowsConfirmed service chain current
          (Confirmable service chain current first table) table bs table
          (λ b m deep e. (
            deep,
            member-Confirmable service chain current first b table
                (Any-since first (λ x. x ≡ b) table
                  (Any-of-order (λ x. x ≡ b) (since_block first table) m))
                e,
          ))
          (RowsConfirmed-refl (Confirmable service chain current first table) table))

  -- With a paginator whose pages make up the whole list, `check_reorgs` changes a stored block only by
  -- marking it as confirmed, and only if it lies `eth_reorg_blocks` or more under the chain's head and
  -- a stored block of its number, not below the first one that is not confirmed, has the hash that the
  -- chain has there.
  pub check_reorgs-ConfirmedSince :
      (table : List Block)
      → ConfirmedSince service chain current table
          (first_not_confirmed table)
          (check_reorgs service chain current paginate table).1
  unfolding check_reorgs
  check_reorgs-ConfirmedSince table = check_since-ConfirmedSince (first_not_confirmed table) table
