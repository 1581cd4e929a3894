-- ===== src/Indexer/Bounds.antt =====
-- The range of blocks that one pass scans: how it lies against the confirmations, the limit and the
-- first block that is not scanned yet.
use safe_transaction_service.Common.{
  ℕ, ◌+◌, ◌-◌, ◌≤◌, ◌<◌, ◌≡◌, Option, none, some, List, arith, ℤ, pos, min, ltb, leb, if◌then◌else◌,
  refl, ◌⊎◌, inl, inr, Bool-cases, ltb→lt, leb→le, sub_ℕ, ltb_ℤ, +ℤ_pos, -ℤ_pos_le, sub_ℕ-eq_pos,
  min_ℤ_pos, max_ℤ_floor,
}
use safe_transaction_service.Indexer.Database.{Monitored, Addresses, get_from_block_number}
use safe_transaction_service.Indexer.Window.{
  Config, current_or, get_to_block_number, reindex_from, search_range, get_block_numbers_for_search,
}

-- The last block and the first block as natural numbers.
abbrev pub last_of : Config → ℕ → ℕ → ℕ → ℕ
last_of c limit from current = min (from + limit - 1) (current - c.confirmations)

abbrev pub first_of : Config → ℕ → ℕ → ℕ → ℕ → ℕ
first_of c limit from current n =
    if ltb_ℤ (sub_ℕ current c.confirmations) (pos (from + limit))
    then from - min (limit - (n - from + 1)) c.blocks_to_reindex_again
    else from

module _ (c : Config) (limit from current : ℕ) where
  pub get_to_block_number_lem :
      1 ≤ limit
      → from + c.confirmations ≤ current
      → get_to_block_number c limit from current ≡ pos (last_of c limit from current)
  unfolding get_to_block_number
  get_to_block_number_lem room h =
      rw
        (
          sub_ℕ-eq_pos (from + limit) 1 (omega arith),
          sub_ℕ-eq_pos current c.confirmations (omega arith),
        )
        (min_ℤ_pos _ _)

  pub reindex_from_lem :
      (n : ℕ)
      → from ≤ n
      → n < from + limit
      → reindex_from c limit from current (pos n) ≡ first_of c limit from current n
  unfolding reindex_from
  reindex_from_lem n g h = rw (
    -ℤ_pos_le n from g,
    +ℤ_pos (n - from) 1,
    -ℤ_pos_le limit (n - from + 1) (omega arith),
    min_ℤ_pos (limit - (n - from + 1)) c.blocks_to_reindex_again,
    max_ℤ_floor from (min (limit - (n - from + 1)) c.blocks_to_reindex_again),
  )

-- What is known of a range: it starts at or below the first block `from` that is not scanned yet,
-- ends at or above it, keeps clear of the last confirmations, and has `limit` blocks at most.
pub record IsWindow (c : Config) (limit current from first last : ℕ) : Type 0 where
  pub reaches_back : first ≤ from
  pub holds_from : from ≤ last
  pub confirmed : last + c.confirmations ≤ current
  pub bounded : last + 1 ≤ first + limit

module _ (c : Config) (limit from current : ℕ) where
  pub last_of_bounds :
      1 ≤ limit
      → from + c.confirmations ≤ current
      → (from ≤ last_of c limit from current)
        × (last_of c limit from current < from + limit)
        × (last_of c limit from current + c.confirmations ≤ current)
  last_of_bounds room h = omega arith

  first_of-IsWindow :
      (n : ℕ)
      → from ≤ n
      → n < from + limit
      → n + c.confirmations ≤ current
      → IsWindow c limit current from (first_of c limit from current n) n
  first_of-IsWindow n g h k = ground arith

module _ (c : Config) (limit from current : ℕ) where
  abbrev pub first : ℕ
  first = first_of c limit from current (last_of c limit from current)

  pub search_range-eq_some :
      1 ≤ limit
      → from + c.confirmations ≤ current
      → search_range c limit current (some from) ≡ some (first, pos (last_of c limit from current))
  unfolding search_range
  search_range-eq_some room h =
      let b = last_of_bounds c limit from current room h in
      elim (Bool-cases (ltb current (from + c.confirmations))) [
        | inl t ↦ absurd (omega (arith, ltb→lt current (from + c.confirmations) t))
        | inr t ↦
            rw (t, get_to_block_number_lem c limit from current room h)
              (rw (reindex_from_lem c limit from current (last_of c limit from current) b.0 b.1))
      ]

  pub search_range-IsWindow :
      1 ≤ limit
      → from + c.confirmations ≤ current
      → IsWindow c limit current from first (last_of c limit from current)
  search_range-IsWindow room h =
      let b = last_of_bounds c limit from current room h in
      first_of-IsWindow c limit from current (last_of c limit from current) b.0 b.1 b.2

  pub search_range-eq_none :
      current < from + c.confirmations → search_range c limit current (some from) ≡ none
  unfolding search_range
  search_range-eq_none h = ground arith

-- What a call of `get_block_numbers_for_search` returns over rows whose least block number is known.
abbrev pub Searched : Config → ℕ → ℕ → Option ℕ → Option (ℕ × ℤ) → Type 0
Searched c limit current none r = r ≡ none
Searched c limit current (some from) r =
    ((current < from + c.confirmations) × (r ≡ none))
    ⊎ ((first : ℕ) × (last : ℕ) × (r ≡ some (first, pos last))
        × (IsWindow c limit current from first last))

search_range_lem :
    (c : Config) (limit current : ℕ) (o : Option ℕ)
    → 1 ≤ limit
    → Searched c limit current o (search_range c limit current o)
search_range_lem c limit current none room = unfold search_range in refl
search_range_lem c limit current (some from) room =
    elim (Bool-cases (leb (from + c.confirmations) current)) [
      | inl t ↦
          let h = leb→le (from + c.confirmations) current t in
          inr (
            first c limit from current,
            last_of c limit from current,
            search_range-eq_some c limit from current room h,
            search_range-IsWindow c limit from current room h,
          )
      | inr t ↦
          let h : current < from + c.confirmations = ground arith in
          inl (h, search_range-eq_none c limit from current h)
    ]

-- With a limit of at least 1, `get_block_numbers_for_search` returns no range exactly when there is
-- no row for the addresses or the least block number of their rows is within the confirmations of the
-- current block. Otherwise the range starts at or below that least number and ends at or above it, so
-- that no block is skipped; its end is behind the confirmations, and it has at most
-- `block_process_limit` blocks.
pub get_block_numbers_for_search_window :
    (c : Config) (limit head current : ℕ) (addresses : Addresses) (db : List Monitored)
    → 1 ≤ limit
    → Searched c limit
        (current_or current head)
        (get_from_block_number addresses db)
        (get_block_numbers_for_search c limit head addresses current db)
unfolding get_block_numbers_for_search
get_block_numbers_for_search_window c limit head current addresses db room =
    search_range_lem c limit (current_or current head) (get_from_block_number addresses db) room
