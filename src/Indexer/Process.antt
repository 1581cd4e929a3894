-- ===== src/Indexer/Process.antt =====
-- `process_addresses`: one pass of the indexer over a set of addresses.
use safe_transaction_service.Common.{
  ℕ, Bool, true, Option, none, some, List, [], ◌∷◌, ◌==◌, if◌then◌else◌, ℤ, pos, pos_part, sub_ℕ,
  ◌+ℤ◌, eqb_ℤ,
}
use safe_transaction_service.Common.Result.{Result, ok, raised, Action}
use safe_transaction_service.Indexer.Database.{Monitored, Addresses, update_monitored_addresses}
use safe_transaction_service.Indexer.Window.{Config, current_or, get_block_numbers_for_search}
use safe_transaction_service.Indexer.Limit.{auto_adjust_block_limit}

-- What can stop a pass: an empty set of addresses, a failed query or processing step (the exceptions
-- that `process_addresses` names), rows that moved meanwhile, arithmetic on a missing block number,
-- and, of the model alone, fuel that ran out.
pub data Error : Type 0 where
  assertion_error fetch_error value_error type_error out_of_fuel : Error

-- The indexer's own limit and the rows of the monitored addresses.
pub record Indexer : Type 0 where
  pub block_process_limit : ℕ
  pub db : List Monitored

-- What `find_relevant_elements` and `process_elements` did with a range: the number of processed
-- elements, or `none` if one of them raised; the seconds that the query took; and the rows as the
-- database holds them afterwards, since other workers write to it too.
pub record Response : Type 0 where
  pub processed : Option ℕ
  pub seconds : ℕ
  pub rows : List Monitored

-- The outside: a range of blocks is queried over the rows as they stand.
abbrev pub Fetch : Type 0
Fetch = ℕ → ℤ → List Monitored → Response

-- The number of processed elements, the first block, the last block, and whether no block is left.
pub record Pass : Type 0 where
  pub processed : ℕ
  pub from_block_number : Option ℕ
  pub to_block_number : ℤ
  pub updated : Bool

-- After the elements are processed: the rows are moved forward, and none moved is an error.
unfoldable pub finish_pass :
    Config → Addresses → ℕ → ℤ → ℕ → ℕ → ℕ → List Monitored → Result Error Pass × Indexer
unfolding update_monitored_addresses
finish_pass c addresses from to current elements limit rows =
    let (count, db) = update_monitored_addresses addresses from (pos_part (to +ℤ pos 1)) rows in
    let next : Indexer = record { block_process_limit = limit; db = db } in
    if count == 0 then (raised value_error, next) else (
      ok (record {
        processed = elements;
        from_block_number = some from;
        to_block_number = to;
        updated = eqb_ℤ to (sub_ℕ current c.confirmations);
      }),
      next,
    )

-- A failed pass sets the limit back to 1. It leaves the limit that the timing would have chosen
-- unused, since the `with` block of the query does not go on past an exception.
unfoldable pub scan_outcome :
    Config → Addresses → ℕ → ℤ → ℕ → ℕ → Response → Option ℕ → Result Error Pass × Indexer
unfolding finish_pass auto_adjust_block_limit
scan_outcome c addresses from to current limit r none =
    (raised fetch_error, record { block_process_limit = 1; db = r.rows })
scan_outcome c addresses from to current limit r (some elements) =
    finish_pass c addresses from to current elements
      (auto_adjust_block_limit c from to r.seconds limit) r.rows

unfoldable pub scan_range :
    Config → Addresses → ℕ → Fetch → Option (ℕ × ℤ) → Action Indexer Error Pass
unfolding scan_outcome
scan_range c addresses current fetch none s = (
  ok (record {
    processed = 0;
    from_block_number = none;
    to_block_number = pos current;
    updated = true;
  }),
  s,
)
scan_range c addresses current fetch (some (from, to)) s =
    let r = fetch from to s.db in
    scan_outcome c addresses from to current s.block_process_limit r r.processed

unfoldable pub process_addresses : Config → ℕ → Fetch → Addresses → ℕ → Action Indexer Error Pass
unfolding scan_range get_block_numbers_for_search
process_addresses c head fetch [] current s = (raised assertion_error, s)
process_addresses c head fetch (a ∷ addresses) current s =
    let now = current_or current head in
    scan_range c (a ∷ addresses) now fetch
      (get_block_numbers_for_search c s.block_process_limit head (a ∷ addresses) now s.db) s
