-- ===== src/Indexer/Start.antt =====
-- `start`: first the addresses that are almost updated, then those that are not, each in passes until
-- no block is left. The loops of the model run on fuel.
use safe_transaction_service.Common.{
  ℕ, zero, suc, ◌+◌, true, false, Option, none, some, [], ◌∷◌, ltb, if◌then◌else◌, ℤ, pos, ltb_ℤ,
  ◌+ℤ◌, ◌-ℤ◌,
}
use safe_transaction_service.Common.Result.{Action, ◌>>=◌, pure, raise, gets}
use safe_transaction_service.Indexer.Database.{
  Addresses, get_almost_updated_addresses, get_not_updated_addresses,
}
use safe_transaction_service.Indexer.Window.{Config}
use safe_transaction_service.Indexer.Process.{
  Error, type_error, out_of_fuel, Indexer, Fetch, process_addresses,
}

-- The local variables of `start`.
pub record Totals : Type 0 where
  pub processed : ℕ
  pub start_block : Option ℕ
  pub last_block : Option ℤ

-- `if start_block is None: start_block = from_block_number`
abbrev pub first_start : Option ℕ → Option ℕ → Option ℕ
first_start none from = from
first_start (some n) from = some n

-- `if start_block is None or from_block_number < start_block: start_block = from_block_number`
abbrev pub least_start : Option ℕ → ℕ → Option ℕ
least_start none from = some from
least_start (some n) from = some (if ltb from n then from else n)

-- `if last_block is None or to_block_number > last_block: last_block = to_block_number`
abbrev pub greatest_last : Option ℤ → ℤ → Option ℤ
greatest_last none to = some to
greatest_last (some n) to = some (if ltb_ℤ n to then to else n)

abbrev pub number_of_blocks : Option ℕ → Option ℤ → ℤ
number_of_blocks (some first) (some last) = last -ℤ pos first +ℤ pos 1
number_of_blocks (some first) none = pos 0
number_of_blocks none last = pos 0

module _ (c : Config) (head : ℕ) (fetch : Fetch) where
  -- The first loop: the totals, and `to_block_number` of its last pass as `last_block`.
  unfoldable pub almost_loop : ℕ → Addresses → ℕ → Totals → Action Indexer Error Totals
  almost_loop zero addresses current t = raise out_of_fuel
  almost_loop (suc fuel) addresses current t =
      process_addresses c head fetch addresses current >>= λ p.
      let t' : Totals = record {
        processed = t.processed + p.processed;
        start_block = first_start t.start_block p.from_block_number;
        last_block = some p.to_block_number;
      } in
      elim p.updated [ true ↦ pure t' | false ↦ almost_loop fuel addresses current t' ]

  -- The second loop compares `from_block_number` and adds 1 to it: `None` is a `TypeError`.
  unfoldable pub not_updated_loop :
      ℕ → Addresses → ℕ → ℕ → Option ℕ → Action Indexer Error (ℕ × Option ℕ × ℤ)
  not_updated_loop zero addresses current total start = raise out_of_fuel
  not_updated_loop (suc fuel) addresses current total start =
      process_addresses c head fetch addresses current >>= λ p. elim p.from_block_number [
        | none ↦ raise type_error
        | some from ↦ elim p.updated [
          | true ↦ pure (total + p.processed, least_start start from, p.to_block_number)
          | false ↦
              not_updated_loop fuel addresses current (total + p.processed) (least_start start from)
        ]
      ]

  unfoldable pub process_almost_updated : ℕ → Addresses → ℕ → Action Indexer Error Totals
  unfolding almost_loop
  process_almost_updated fuel [] current =
      pure (record { processed = 0; start_block = none; last_block = none })
  process_almost_updated fuel (a ∷ addresses) current =
      almost_loop fuel (a ∷ addresses) current
        (record { processed = 0; start_block = none; last_block = none })

  unfoldable pub process_not_updated : ℕ → Addresses → ℕ → Totals → Action Indexer Error Totals
  unfolding not_updated_loop
  process_not_updated fuel [] current t = pure t
  process_not_updated fuel (a ∷ addresses) current t =
      not_updated_loop fuel (a ∷ addresses) current t.processed t.start_block >>= λ r.
      pure
        (record { processed = r.0; start_block = r.1; last_block = greatest_last t.last_block r.2 })

  -- The number of processed elements and of processed blocks.
  unfoldable pub start : ℕ → Action Indexer Error (ℕ × ℤ)
  unfolding process_almost_updated process_not_updated
  start fuel =
      gets (λ s. get_almost_updated_addresses c.updated_blocks_behind c.confirmations head s.db)
      >>= λ almost. process_almost_updated fuel almost head >>= λ t.
          gets (λ s. get_not_updated_addresses c.confirmations head s.db) >>= λ late.
          process_not_updated fuel late head t >>= λ t.
          pure (t.processed, number_of_blocks t.start_block t.last_block)
