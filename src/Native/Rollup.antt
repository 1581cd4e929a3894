-- ===== src/Native/Rollup.antt =====
-- The rows of the rollup and the pages of Safes: `safe_addresses_after`, `seed_missing_native_balances` and
-- `write_native_balance_watermark` of safe_transaction_service/analytics/tasks.py. An address is a number; the
-- balance of a row is left out.
use safe_transaction_service.Common.{
  ℕ, Bool, true, false, not, ◌||◌, Option, none, some, List, [], ◌∷◌, ◌++◌, map, ◌==◌, ltb, select,
  take,
}

pub record RollupRow : Type 0 where
  pub safe_address : ℕ
  pub updated_to_block : ℕ

-- The addresses of `SafeContract` in the order of the primary key, the rows of the rollup, and its watermark.
pub record RollupDb : Type 0 where
  pub safes : List ℕ
  pub rows : List RollupRow
  pub watermark : Option ℕ

abbrev pub comes_after : Option ℕ → ℕ → Bool
comes_after none a = true
comes_after (some c) a = ltb c a

unfoldable pub safe_addresses_after : Option ℕ → ℕ → RollupDb → List ℕ
safe_addresses_after after limit db = take limit (select (comes_after after) db.safes)

abbrev pub has_row : ℕ → List RollupRow → Bool
has_row a [] = false
has_row a (r ∷ rs) = r.safe_address == a || has_row a rs

abbrev pub seeded_row : ℕ → ℕ → RollupRow
seeded_row block a = record { safe_address = a; updated_to_block = block }

abbrev pub missing : List ℕ → List RollupRow → List ℕ
missing addresses rows = select (λ a. not (has_row a rows)) addresses

unfoldable pub seed_missing : List ℕ → ℕ → RollupDb → RollupDb
seed_missing addresses block db = record db {
  rows = db.rows ++ map (seeded_row block) (missing addresses db.rows);
}

unfoldable pub seed_first : ℕ → List ℕ → ℕ → RollupDb → RollupDb
seed_first k addresses block db = record db {
  rows = db.rows ++ map (seeded_row block) (take k (missing addresses db.rows));
}

abbrev pub block_or : Option ℕ → ℕ → Option ℕ
block_or none head = some head
block_or (some b) head = some b

unfoldable pub write_watermark : ℕ → RollupDb → RollupDb
write_watermark head db = record db { watermark = block_or db.watermark head }

-- Whether `write_native_balance_watermark` writes.
abbrev pub writes_watermark : RollupDb → Bool
writes_watermark db = is_unset db.watermark
  where
    is_unset : Option ℕ → Bool
    is_unset none = true
    is_unset (some b) = false
