-- ===== src/Indexer/Sync.antt =====
-- A whole run of `start` over a network that answers: it ends without an error, and no monitored
-- address is left with a confirmed block to scan.
use safe_transaction_service.Common.{
  ℕ, zero, suc, ◌+◌, ◌≤◌, ◌<◌, ◌≡◌, ◌⊎◌, inl, inr, true, false, Option, some, List, [], ◌∷◌, arith,
  subst, sym, ap, ◌∙◌, ℤ, pos, contains, All, Bool-cases, ◌==◌,
}
use safe_transaction_service.Common.Result.{ok}
use safe_transaction_service.Indexer.Database.{
  Monitored, Addresses, filter_in, min_field, update_rows,
}
use safe_transaction_service.Indexer.Window.{Config}
use safe_transaction_service.Indexer.Process.{Indexer, Fetch}
use safe_transaction_service.Indexer.Start.{
  Totals, first_start, least_start, almost_loop, not_updated_loop, start,
}
use safe_transaction_service.Indexer.Monitor.{min_field-update_rows, AtLeast}
use safe_transaction_service.Indexer.Progress.{IsQuiet, process_addresses-Passed}

-- After a pass the least block number of the addresses is the block after the last one scanned.
min_after :
    (addresses : Addresses) (first last from : ℕ) (db : List Monitored)
    → min_field (filter_in addresses db) ≡ some from
    → first ≤ from
    → from ≤ last
    → min_field (filter_in addresses (update_rows addresses first (last + 1) db)) ≡ some (last + 1)
min_after addresses first last from db e a b =
    min_field-update_rows addresses first (last + 1) db (subst (AtLeast first) (sym e) a)
    ∙ (rw e (ap some (omega arith)))

-- The rows outside the addresses, and what holds of them.
abbrev pub Rest : (Monitored → Type 0) → Addresses → List Monitored → Type 0
Rest P addresses = All (λ m. (contains m.address addresses ≡ true) ⊎ P m)

Rest-update_rows :
    (P : Monitored → Type 0) (addresses : Addresses) (first new_to : ℕ) (db : List Monitored)
    → Rest P addresses db
    → Rest P addresses (update_rows addresses first new_to db)
unfolding update_rows
Rest-update_rows P addresses first new_to [] h = tt
Rest-update_rows P addresses first new_to (m ∷ ms) h =
    (ground (arith, h.0), Rest-update_rows P addresses first new_to ms h.1)

not_last :
    (c : Config) (head last : ℕ)
    → last + c.confirmations ≤ head
    → (last + c.confirmations == head) ≡ false
    → last + 1 + c.confirmations ≤ head
not_last c head last h more = ground arith

is_past :
    (c : Config) (head last : ℕ)
    → (last + c.confirmations == head) ≡ true
    → head < last + 1 + c.confirmations
is_past c head last stop = ground arith

less_fuel :
    (c : Config) (head fuel from last : ℕ)
    → from ≤ last
    → head < suc fuel + from + c.confirmations
    → head < fuel + (last + 1) + c.confirmations
less_fuel c head fuel from last h f = omega arith

module _ (c : Config) (head : ℕ) (fetch : Fetch) (quiet : IsQuiet fetch) where
  -- What is left of a pass whose result is known, by whether it was the last one.
  pub almost_loop-ok :
      (fuel a : ℕ) (addresses : Addresses) (t : Totals) (from : ℕ) (s : Indexer)
      → 1 ≤ s.block_process_limit
      → min_field (filter_in (a ∷ addresses) s.db) ≡ some from
      → from + c.confirmations ≤ head
      → head < fuel + from + c.confirmations
      → (t' : Totals) × (s' : Indexer) × (1 ≤ s'.block_process_limit)
        × (almost_loop c head fetch fuel (a ∷ addresses) head t s ≡ (ok t', s'))
  unfolding almost_loop
  almost_loop-ok zero a addresses t from s room e h f = absurd (omega arith)
  almost_loop-ok (suc fuel) a addresses t from s room e h f =
      let (first, last, w, passed) =
        process_addresses-Passed c fetch quiet head a addresses from s room e h in
      let (n, limit, room', run) = passed in
      let t' : Totals = record {
        processed = t.processed + n;
        start_block = first_start t.start_block (some first);
        last_block = some (pos last);
      } in
      let s' : Indexer = record {
        block_process_limit = limit;
        db = update_rows (a ∷ addresses) first (last + 1) s.db;
      } in
      elim (Bool-cases (last + c.confirmations == head)) [
        | inl stop ↦ (t', s', room', rw (run, stop))
        | inr more ↦
            rw (run, more)
              (almost_loop-ok fuel a addresses t' (last + 1) s' room'
                (min_after (a ∷ addresses) first last from s.db e w.reaches_back w.holds_from)
                (not_last c head last w.confirmed more)
                (less_fuel c head fuel from last w.holds_from f))
      ]

  -- The rows of the addresses end behind the confirmations, and the other rows keep what held.
  abbrev pub Synced : (Monitored → Type 0) → Addresses → Indexer → Type 0
  Synced P addresses s =
      (m : ℕ) × (min_field (filter_in addresses s.db) ≡ some m)
      × (head < m + c.confirmations)
      × (Rest P addresses s.db)

  pub not_updated_loop-ok :
      (P : Monitored → Type 0) (fuel a : ℕ) (addresses : Addresses) (total : ℕ) (first : Option ℕ)
      (from : ℕ) (s : Indexer)
      → 1 ≤ s.block_process_limit
      → min_field (filter_in (a ∷ addresses) s.db) ≡ some from
      → from + c.confirmations ≤ head
      → head < fuel + from + c.confirmations
      → Rest P (a ∷ addresses) s.db
      → (r : ℕ × Option ℕ × ℤ) × (s' : Indexer) × (Synced P (a ∷ addresses) s')
        × (not_updated_loop c head fetch fuel (a ∷ addresses) head total first s ≡ (ok r, s'))
  unfolding not_updated_loop
  not_updated_loop-ok P zero a addresses total start from s room e h f k = absurd (omega arith)
  not_updated_loop-ok P (suc fuel) a addresses total start from s room e h f k =
      let (first, last, w, passed) =
        process_addresses-Passed c fetch quiet head a addresses from s room e h in
      let (n, limit, room', run) = passed in
      let s' : Indexer = record {
        block_process_limit = limit;
        db = update_rows (a ∷ addresses) first (last + 1) s.db;
      } in
      let e' = min_after (a ∷ addresses) first last from s.db e w.reaches_back w.holds_from in
      let k' = Rest-update_rows P (a ∷ addresses) first (last + 1) s.db k in
      elim (Bool-cases (last + c.confirmations == head)) [
        | inl stop ↦ (
          (total + n, least_start start first, pos last),
          s',
          (last + 1, e', is_past c head last stop, k'),
          rw (run, stop),
        )
        | inr more ↦
            rw (run, more)
              (not_updated_loop-ok P fuel a addresses (total + n) (least_start start first)
                (last + 1) s' room' e' (not_last c head last w.confirmed more)
                (less_fuel c head fuel from last w.holds_from f) k')
      ]
