-- ===== src/Indexer/Failure.antt =====
-- A pass of `process_addresses` over a database that others write to and a network that may fail,
-- and a pass with a limit of 0.
use safe_transaction_service.Common.{
  ℕ, ◌≡◌, refl, ◌⊎◌, inl, inr, Option, none, some, List, [], ◌∷◌, arith, ℤ, pos, pos_part, ◌+ℤ◌,
  Option-cases,
}
use safe_transaction_service.Indexer.Database.{Monitored, Addresses, update_monitored_addresses}
use safe_transaction_service.Indexer.Window.{Config, current_or, get_block_numbers_for_search}
use safe_transaction_service.Indexer.Process.{
  Indexer, Fetch, finish_pass, scan_range, process_addresses,
}
use safe_transaction_service.Indexer.Monitor.{RowsUpdated, update_monitored_addresses_lem}

-- What one pass did to the rows: nothing, as there was no range to scan; or it queried a range, and
-- then either processing failed and the rows are what the database held, or the elements were
-- processed and the rows of the range, and no other, moved on from what the database held.
abbrev pub RowsAfter : Config → ℕ → Fetch → Addresses → ℕ → Indexer → List Monitored → Type 0
RowsAfter c head fetch addresses current s db =
    (db ≡ s.db)
    ⊎ ((first : ℕ) × (to : ℤ) × (get_block_numbers_for_search c s.block_process_limit head addresses
            (current_or current head) s.db
          ≡ some (first, to))
        × (((fetch first to s.db).processed ≡ none) × (db ≡ (fetch first to s.db).rows)
            ⊎ ((elements : ℕ) × (count : ℕ) × ((fetch first to s.db).processed ≡ some elements)
                × (RowsUpdated addresses first (pos_part (to +ℤ pos 1)) count
                    (fetch first to s.db).rows db))))

finish_pass-rows :
    (c : Config) (addresses : Addresses) (first : ℕ) (to : ℤ) (now elements limit : ℕ)
    (rows : List Monitored)
    → (finish_pass c addresses first to now elements limit rows).1.db
      ≡ (update_monitored_addresses addresses first (pos_part (to +ℤ pos 1)) rows).1
unfolding finish_pass
finish_pass-rows c addresses first to now elements limit rows = ground arith

scan_range-RowsAfter :
    (c : Config) (head : ℕ) (fetch : Fetch) (addresses : Addresses) (current : ℕ) (s : Indexer)
    (r : Option (ℕ × ℤ))
    → get_block_numbers_for_search c s.block_process_limit head addresses
        (current_or current head)
        s.db
      ≡ r
    → RowsAfter c head fetch addresses current s
        (scan_range c addresses (current_or current head) fetch r s).1.db
unfolding scan_range
scan_range-RowsAfter c head fetch addresses current s none e = inl refl
scan_range-RowsAfter c head fetch addresses current s (some (first, to)) e =
    elim (Option-cases (fetch first to s.db).processed) [
      | inl failed ↦ inr (first, to, e, rw failed (inl (refl, refl)))
      | inr (n, fine) ↦
          let rows = (fetch first to s.db).rows in
          let updated = update_monitored_addresses addresses first (pos_part (to +ℤ pos 1)) rows in
          inr (
            first,
            to,
            e,
            inr (
              n,
              updated.0,
              fine,
              rw fine (
                  rw finish_pass-rows
                    (update_monitored_addresses_lem addresses first (pos_part (to +ℤ pos 1)) rows)),
            ),
          )
    ]

-- Whatever the network answers and whatever others write to the rows meanwhile, one pass marks
-- blocks as scanned only after their elements were processed, only for the given addresses, and only
-- in rows that then still lie in the range that was scanned.
pub process_addresses-RowsAfter :
    (c : Config) (head : ℕ) (fetch : Fetch) (addresses : Addresses) (current : ℕ) (s : Indexer)
    → RowsAfter c head fetch addresses current s
        (process_addresses c head fetch addresses current s).1.db
unfolding process_addresses
process_addresses-RowsAfter c head fetch [] current s = inl refl
process_addresses-RowsAfter c head fetch (a ∷ addresses) current s =
    scan_range-RowsAfter c head fetch (a ∷ addresses) current s _ refl
