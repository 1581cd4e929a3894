-- ===== src/Cache/Processed.antt =====
-- `ElementAlreadyProcessedChecker`
-- (safe_transaction_service/history/indexers/element_already_processed_checker.py). The bytes of a
-- number are those of the package hexbytes, a parameter here.
use safe_transaction_service.Common.{
  Bytes, ℕ, Bool, true, false, Option, none, some, [], ◌∷◌, ◌++◌, if◌then◌else◌,
}
use safe_transaction_service.Cache.Dict.{FixedSizeDict, contains_key, set_item}

-- The dict holds `None` at every key.
abbrev pub Checker : Type 0
Checker = FixedSizeDict (Unit {0})

abbrev pub checker : Checker
checker = record { maxlen = 40_000; entries = [] }

abbrev pub clear : Checker → Checker
clear c = record c { entries = [] }

-- `HexBytes(index)`
module _ (int_bytes : ℕ → Bytes) where
  -- A missing or empty block hash is read as the number 0.
  abbrev pub block_bytes : Option Bytes → Bytes
  block_bytes none = int_bytes 0
  block_bytes (some []) = int_bytes 0
  block_bytes (some (b ∷ bs)) = b ∷ bs

  unfoldable pub get_key : Bytes → Option Bytes → ℕ → Bytes
  get_key tx_hash block_hash index = tx_hash ++ block_bytes block_hash ++ int_bytes index

  unfoldable pub is_processed : Bytes → Option Bytes → ℕ → Checker → Bool
  unfolding get_key contains_key
  is_processed tx_hash block_hash index c =
      contains_key (get_key tx_hash block_hash index) c.entries

  -- Whether the element was marked now, and the cache.
  unfoldable pub mark_as_processed : Bytes → Option Bytes → ℕ → Checker → Bool × Checker
  unfolding get_key contains_key set_item
  mark_as_processed tx_hash block_hash index c =
      let key = get_key tx_hash block_hash index in
      if contains_key key c.entries then (false, c) else (true, set_item key tt c)
