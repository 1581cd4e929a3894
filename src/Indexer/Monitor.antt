-- ===== src/Indexer/Monitor.antt =====
-- The update of the monitored addresses: which rows move, and the least block number afterwards.
use safe_transaction_service.Common.{
  ℕ, suc, ◌≤◌, ◌<◌, ◌≡◌, refl, ◌⊎◌, inl, inr, true, false, Option, none, some, List, [], ◌∷◌, arith,
  max, if◌then◌else◌, contains, select, length, Bool-cases,
}
use safe_transaction_service.Indexer.Database.{
  Monitored, Addresses, filter_in, min_field, is_updatable, update_rows, update_monitored_addresses,
}

-- A row that the update moves, and one that it leaves alone: the address is not scanned, the row was
-- rolled back below the first block, or it is past the last block already.
abbrev pub RowUpdated : Addresses → ℕ → ℕ → Monitored → Monitored → Type 0
RowUpdated addresses from new_to m m' =
    ((contains m.address addresses ≡ true)
      × (from ≤ m.block_number)
      × (m.block_number < new_to)
      × (m' ≡ record m { block_number = new_to }))
    ⊎ (((contains m.address addresses ≡ false)
          ⊎ (m.block_number < from)
          ⊎ (new_to ≤ m.block_number))
        × (m' ≡ m))

-- The rows before and after, row by row, with the number of moved rows.
abbrev pub RowsUpdated : Addresses → ℕ → ℕ → ℕ → List Monitored → List Monitored → Type 0
RowsUpdated addresses from new_to count [] [] = count ≡ 0
RowsUpdated addresses from new_to count [] (m' ∷ ms') = ⊥
RowsUpdated addresses from new_to count (m ∷ ms) [] = ⊥
RowsUpdated addresses from new_to count (m ∷ ms) (m' ∷ ms') =
    (rest : ℕ) × (RowUpdated addresses from new_to m m')
    × ((is_updatable addresses from new_to m ≡ true) × (count ≡ suc rest)
        ⊎ (is_updatable addresses from new_to m ≡ false) × (count ≡ rest))
    × (RowsUpdated addresses from new_to rest ms ms')

row-RowUpdated :
    (addresses : Addresses) (from new_to : ℕ) (m : Monitored)
    → RowUpdated addresses from new_to m
        (if is_updatable addresses from new_to m then record m { block_number = new_to } else m)
row-RowUpdated addresses from new_to m = ground arith

-- `update_monitored_addresses` moves exactly the rows of the given addresses whose block number is
-- from `from_block_number` to `to_block_number`, to the block after that. Every other row stays: one
-- that was rolled back below `from_block_number` meanwhile, one that is further already, and one of
-- another address. It returns the number of the rows that it moved.
pub update_monitored_addresses_lem :
    (addresses : Addresses) (from new_to : ℕ) (db : List Monitored)
    → let (count, db') = update_monitored_addresses addresses from new_to db in
      RowsUpdated addresses from new_to count db db'
unfolding update_monitored_addresses
update_monitored_addresses_lem addresses from new_to [] = refl
update_monitored_addresses_lem addresses from new_to (m ∷ ms) = (
  length (select (is_updatable addresses from new_to) ms),
  row-RowUpdated addresses from new_to m,
  elim (Bool-cases (is_updatable addresses from new_to m)) [
    | inl t ↦ inl (t, rw t)
    | inr t ↦ inr (t, rw t)
  ],
  update_monitored_addresses_lem addresses from new_to ms,
)

abbrev pub AtLeast : ℕ → Option ℕ → Type 0
AtLeast from none = Unit
AtLeast from (some n) = from ≤ n

abbrev pub raised_to : ℕ → Option ℕ → Option ℕ
raised_to n none = none
raised_to n (some m) = some (max m n)

-- Where no row of the addresses is below the range, the update raises their least block number.
pub min_field-update_rows :
    (addresses : Addresses) (from new_to : ℕ) (db : List Monitored)
    → AtLeast from (min_field (filter_in addresses db))
    → min_field (filter_in addresses (update_rows addresses from new_to db))
      ≡ raised_to new_to (min_field (filter_in addresses db))
unfolding update_rows
min_field-update_rows addresses from new_to [] h = refl
min_field-update_rows addresses from new_to (m ∷ ms) h =
    ground (arith, min_field-update_rows addresses from new_to ms)
