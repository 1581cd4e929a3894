-- ===== src/Indexer/Database.antt =====
-- The queries of `EthereumIndexer` on `database_queryset`, and its update of the monitored addresses
-- (safe_transaction_service/history/indexers/ethereum_indexer.py).
use safe_transaction_service.Common.{
  ℕ, ◌+◌, ◌-◌, Bool, ◌&&◌, Option, none, some, List, [], ◌∷◌, map, min, max, ltb, leb,
  if◌then◌else◌, contains, select, length,
}

-- A row of the queryset: an address and its `database_field`. A row whose field is NULL passes no
-- filter and counts in no minimum, so such rows are left out.
pub record Monitored : Type 0 where
  pub address : ℕ
  pub block_number : ℕ

abbrev pub Addresses : Type 0
Addresses = List ℕ

-- `filter(address__in=addresses)`
abbrev pub filter_in : Addresses → List Monitored → List Monitored
filter_in addresses = select (λ m. contains m.address addresses)

-- `aggregate(Min(field))`, `none` on no row.
abbrev pub min_field : List Monitored → Option ℕ
min_field [] = none
min_field (m ∷ ms) = elim (min_field ms) [
  | none ↦ some m.block_number
  | some n ↦ some (min m.block_number n)
]

-- An empty or missing set of addresses means every row.
unfoldable pub get_from_block_number : Addresses → List Monitored → Option ℕ
get_from_block_number [] db = min_field db
get_from_block_number (a ∷ addresses) db = min_field (filter_in (a ∷ addresses) db)

-- `queryset.get_from_block_number() or 0`
abbrev pub or_zero : Option ℕ → ℕ
or_zero none = 0
or_zero (some n) = n

abbrev pub addresses_of : List Monitored → Addresses
addresses_of = map (λ m. m.address)

-- The lower bound is a maximum with a natural number, and a negative upper bound admits no row, so
-- that the differences may stop at zero.
unfoldable pub get_almost_updated_addresses : ℕ → ℕ → ℕ → List Monitored → Addresses
unfolding get_from_block_number
get_almost_updated_addresses behind confirmations current db =
    let from = max (or_zero (get_from_block_number [] db)) (current - behind) in
    let to = current - confirmations in
    addresses_of (select (λ m. ltb m.block_number to && leb from m.block_number) db)

-- `field <= current - confirmations`, also when the difference is negative.
unfoldable pub get_not_updated_addresses : ℕ → ℕ → List Monitored → Addresses
get_not_updated_addresses confirmations current db =
    addresses_of (select (λ m. leb (m.block_number + confirmations) current) db)

-- Whether the update touches a row: `new_to` is `to_block_number + 1`.
abbrev pub is_updatable : Addresses → ℕ → ℕ → Monitored → Bool
is_updatable addresses from new_to m =
    contains m.address addresses && leb from m.block_number && ltb m.block_number new_to

-- The rows after the update. `new_to` is `to_block_number + 1`, never negative.
unfoldable pub update_rows : Addresses → ℕ → ℕ → List Monitored → List Monitored
update_rows addresses from new_to [] = []
update_rows addresses from new_to (m ∷ ms) =
    (if is_updatable addresses from new_to m then record m { block_number = new_to } else m)
    ∷ update_rows addresses from new_to ms

-- The number of updated rows, and the rows.
unfoldable pub update_monitored_addresses : Addresses → ℕ → ℕ → List Monitored → ℕ × List Monitored
unfolding update_rows
update_monitored_addresses addresses from new_to db =
    (length (select (is_updatable addresses from new_to) db), update_rows addresses from new_to db)
