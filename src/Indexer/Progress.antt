-- ===== src/Indexer/Progress.antt =====
-- One pass of `process_addresses` over a network that answers and rows that nobody else moves.
use safe_transaction_service.Common.{
  ℕ, ◌+◌, ◌≤◌, ◌<◌, ◌≡◌, inl, inr, false, Option, some, List, [], ◌∷◌, arith, subst, ℤ, pos, sub_ℕ,
  eqb_ℤ, select, length, Option-cases, +ℤ_pos, ◌==◌,
}
use safe_transaction_service.Common.Result.{Result, ok}
use safe_transaction_service.Indexer.Database.{
  Monitored, Addresses, filter_in, min_field, is_updatable, update_rows, get_from_block_number,
}
use safe_transaction_service.Indexer.Window.{Config, current_or, search_range}
use safe_transaction_service.Indexer.Limit.{auto_adjust_block_limit}
use safe_transaction_service.Indexer.Process.{
  Error, Indexer, Fetch, Pass, finish_pass, scan_range, process_addresses,
}
use safe_transaction_service.Indexer.Bounds.{
  IsWindow, Searched, get_block_numbers_for_search_window,
}
use safe_transaction_service.Indexer.Tuning.{auto_adjust_block_limit-pos}

-- The queries of a range succeed, and leave the rows as they were.
pub record IsQuiet (fetch : Fetch) : Type 0 where
  pub answers : ℕ → ℤ → List Monitored → ℕ
  pub processed :
      (from : ℕ) (to : ℤ) (rows : List Monitored)
      → (fetch from to rows).processed ≡ some (answers from to rows)
  pub rows : (from : ℕ) (to : ℤ) (rows : List Monitored) → (fetch from to rows).rows ≡ rows

-- Some row of the addresses is updated if their least block number is in the range.
updates_min :
    (addresses : Addresses) (first new_to : ℕ) {from : ℕ} (db : List Monitored)
    → min_field (filter_in addresses db) ≡ some from
    → first ≤ from
    → from < new_to
    → (length (select (is_updatable addresses first new_to) db) == 0) ≡ false
updates_min addresses first new_to [] h a b = cc
updates_min addresses first new_to {from = from} (m ∷ ms) h a b =
    elim (Option-cases (min_field (filter_in addresses ms))) [
      | inl e ↦ ground arith
      | inr (n, e) ↦
          ground (arith, λ (p : n ≡ from). updates_min addresses first new_to {from = n} ms e)
    ]

eqb-updated :
    (c : Config) (now last : ℕ)
    → last + c.confirmations ≤ now
    → eqb_ℤ (pos last) (sub_ℕ now c.confirmations) ≡ (last + c.confirmations == now)
eqb-updated c now last h = ground arith

pub current_or_self : (head : ℕ) → current_or head head ≡ head
current_or_self head = ground arith

-- What a pass that went well returns and leaves behind.
abbrev pub Passed : Config → Addresses → ℕ → ℕ → ℕ → Indexer → Result Error Pass × Indexer → Type 0
Passed c addresses now first last s r =
    (elements : ℕ) × (limit : ℕ) × (1 ≤ limit)
    × (r ≡ (
      ok (record {
        processed = elements;
        from_block_number = some first;
        to_block_number = pos last;
        updated = last + c.confirmations == now;
      }),
      record { block_process_limit = limit; db = update_rows addresses first (last + 1) s.db },
    ))

module _ (c : Config) (fetch : Fetch) (quiet : IsQuiet fetch) where
  finish_pass-Passed :
      (addresses : Addresses) (now first last from elements limit : ℕ) (s : Indexer)
      → 1 ≤ limit
      → last + c.confirmations ≤ now
      → min_field (filter_in addresses s.db) ≡ some from
      → first ≤ from
      → from ≤ last
      → Passed c addresses now first last s
          (finish_pass c addresses first (pos last) now elements limit s.db)
  unfolding finish_pass
  finish_pass-Passed addresses now first last from elements limit s room h e a b = (
    elements,
    limit,
    room,
    rw (
      +ℤ_pos last 1,
      updates_min addresses first (last + 1) s.db e a (omega arith),
      eqb-updated c now last h,
    ),
  )

  scan_range-Passed :
      (addresses : Addresses) (now first last from : ℕ) (s : Indexer)
      → 1 ≤ s.block_process_limit
      → min_field (filter_in addresses s.db) ≡ some from
      → IsWindow c s.block_process_limit now from first last
      → Passed c addresses now first last s
          (scan_range c addresses now fetch (some (first, pos last)) s)
  unfolding scan_range
  scan_range-Passed addresses now first last from s room e w =
      rw (quiet.processed first (pos last) s.db, quiet.rows first (pos last) s.db)
        (finish_pass-Passed addresses now first last from (quiet.answers first (pos last) s.db)
          (auto_adjust_block_limit c first (pos last) (fetch first (pos last) s.db).seconds
            s.block_process_limit)
          s
          (auto_adjust_block_limit-pos c first (pos last) (fetch first (pos last) s.db).seconds
            s.block_process_limit room)
          w.confirmed e w.reaches_back w.holds_from)

  scan_search-Passed :
      (head : ℕ) (addresses : Addresses) (from : ℕ) (s : Indexer) (r : Option (ℕ × ℤ))
      → 1 ≤ s.block_process_limit
      → min_field (filter_in addresses s.db) ≡ some from
      → from + c.confirmations ≤ head
      → Searched c s.block_process_limit head (some from) r
      → (first : ℕ) × (last : ℕ) × (IsWindow c s.block_process_limit head from first last)
        × (Passed c addresses head first last s (scan_range c addresses head fetch r s))
  scan_search-Passed head addresses from s r room e h (inl (late, _)) = absurd (omega arith)
  scan_search-Passed head addresses from s r room e h (inr (first, last, found, w)) =
      (first, last, w, rw found (scan_range-Passed addresses head first last from s room e w))

  -- A pass over a first block behind the confirmations goes well.
  pub process_addresses-Passed :
      (head a : ℕ) (addresses : Addresses) (from : ℕ) (s : Indexer)
      → 1 ≤ s.block_process_limit
      → min_field (filter_in (a ∷ addresses) s.db) ≡ some from
      → from + c.confirmations ≤ head
      → (first : ℕ) × (last : ℕ) × (IsWindow c s.block_process_limit head from first last)
        × (Passed c
            (a ∷ addresses)
            head
            first
            last
            s
            (process_addresses c head fetch (a ∷ addresses) head s))
  unfolding process_addresses get_from_block_number
  process_addresses-Passed head a addresses from s room e h =
      let searched =
        get_block_numbers_for_search_window c s.block_process_limit head head (a ∷ addresses) s.db
          room in
      let same = current_or_self head in
      rw (same, same)
        (scan_search-Passed head (a ∷ addresses) from s _ room e h (
          subst
            (λ o. Searched c s.block_process_limit head o (
              search_range c s.block_process_limit head
                (get_from_block_number (a ∷ addresses) s.db)))
            e (rw same at searched)))
