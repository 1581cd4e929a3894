-- ===== src/Reorg/Check.antt =====
-- `ReorgService.check_reorgs` (safe_transaction_service/history/services/reorg_service.py). The chain
-- gives the hash of a block by its number, or nothing; the paginator is Django's.
use safe_transaction_service.Common.{
  ℕ, ◌+◌, true, false, not, Option, none, some, List, [], ◌∷◌, leb, ◌==◌, if◌then◌else◌, select,
}
use safe_transaction_service.Reorg.Database.{Block, ReorgService}

-- `order_by("number")`
unfoldable pub insert_by_number : Block → List Block → List Block
insert_by_number b [] = b ∷ []
insert_by_number b (x ∷ xs) =
    if leb b.number x.number then b ∷ x ∷ xs else x ∷ insert_by_number b xs

unfoldable pub order_by_number : List Block → List Block
unfolding insert_by_number
order_by_number [] = []
order_by_number (b ∷ bs) = insert_by_number b (order_by_number bs)

-- `EthereumBlock.objects.not_confirmed().order_by("number").first()`, by its number.
abbrev pub head_number : List Block → Option ℕ
head_number [] = none
head_number (b ∷ bs) = some b.number

unfoldable pub first_not_confirmed : List Block → Option ℕ
unfolding order_by_number
first_not_confirmed blocks = head_number (order_by_number (select (λ b. not b.confirmed) blocks))

-- `EthereumBlock.objects.since_block(number)`
abbrev pub since_block : ℕ → List Block → List Block
since_block number = select (λ b. leb number b.number)

unfoldable pub set_confirmed : ℕ → List Block → List Block
set_confirmed number [] = []
set_confirmed number (b ∷ bs) =
    (if b.number == number then record b { confirmed = true } else b) ∷ set_confirmed number bs

abbrev pub Chain : Type 0
Chain = ℕ → Option ℕ

module _ (service : ReorgService) (chain : Chain) (current : ℕ) where
  -- A block that matches the chain is confirmed if it is old enough: `number <= current_block_number
  -- - eth_reorg_blocks`, where the difference may be negative.
  unfoldable pub confirm_matching : Block → List Block → List Block
  unfolding set_confirmed
  confirm_matching b table =
      if leb (b.number + service.eth_reorg_blocks) current
      then set_confirmed b.number table
      else table

  -- The blocks of one page, over the table of blocks: the number of a block that differs ends it.
  unfoldable pub check_page : List Block → List Block → Option ℕ × List Block
  unfolding confirm_matching
  check_page [] table = (none, table)
  check_page (b ∷ bs) table = elim (chain b.number) [
    | none ↦ check_page bs table
    | some hash ↦ elim (hash == b.block_hash) [
      | true ↦ check_page bs (confirm_matching b table)
      | false ↦ (some b.number, table)
    ]
  ]

  unfoldable pub check_pages : List (List Block) → List Block → Option ℕ × List Block
  check_pages [] table = (none, table)
  check_pages (page ∷ pages) table =
      let (found, table') = check_page page table in
      elim found [ some number ↦ (some number, table') | none ↦ check_pages pages table' ]

  unfoldable pub check_since :
      (ℕ → List Block → List (List Block)) → Option ℕ → List Block → Option ℕ × List Block
  unfolding check_pages order_by_number
  check_since paginate none table = (none, table)
  check_since paginate (some first) table =
      check_pages
        (paginate service.eth_reorg_blocks_batch (order_by_number (since_block first table))) table

  -- The number of the oldest block that differs from the chain, and the table of blocks.
  unfoldable pub check_reorgs :
      (ℕ → List Block → List (List Block)) → List Block → Option ℕ × List Block
  unfolding check_since first_not_confirmed
  check_reorgs paginate table = check_since paginate (first_not_confirmed table) table
