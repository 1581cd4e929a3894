-- ===== src/Transfers/Examples.antt =====
-- Tests and witnesses of the ids of transfers (safe_transaction_service/history/).
use safe_transaction_service.Common.{
  zero, suc, ◌↔◌, arith, ℕ, ◌≡◌, refl, true, none, some, Bytes, [], ◌∷◌, ◌++◌,
}
use safe_transaction_service.Transfers.{
  int, get_queryset, raises, token_transfer, str, trace_address_to_str, TransferRow,
  get_transfer_id, is_valid_unique_transfer_id, get_transfer, ethereum_transfer, not_valid, raises,
}
use safe_transaction_service.Transfers.Found.{
  get_transfer-get_transfer_id, get_transfer_raises, IsTooLong,
}

abbrev eight : Bytes
eight = 97 ∷ 49 ∷ 48 ∷ 102 ∷ 50 ∷ 51 ∷ 99 ∷ 57 ∷ []

abbrev sample_hash : Bytes
sample_hash = eight ++ eight ++ eight ++ eight ++ eight ++ eight ++ eight ++ eight

abbrev token_row : TransferRow
token_row = record {
  transaction_hash = 48 ∷ 120 ∷ sample_hash;
  token_address = some (48 ∷ 120 ∷ 49 ∷ []);
  value = some 5;
  token_id = none;
  trace_address = [];
  log_index = 130;
}

abbrev ether_row : TransferRow
ether_row = record {
  transaction_hash = 48 ∷ 120 ∷ sample_hash;
  token_address = none;
  value = some 5;
  token_id = none;
  trace_address = 48 ∷ 44 ∷ 49 ∷ 50 ∷ [];
  log_index = 0;
}

str_runs : str 2047 ≡ 50 ∷ 48 ∷ 52 ∷ 55 ∷ []
unfolding str
str_runs = refl

trace_runs : trace_address_to_str (0 ∷ 12 ∷ []) ≡ ether_row.trace_address
unfolding trace_address_to_str str
trace_runs = refl

-- The trace address may be empty, the log index may not, nor a group between commas.
accepts_empty_trace : is_valid_unique_transfer_id (105 ∷ sample_hash) ≡ true
unfolding is_valid_unique_transfer_id
accepts_empty_trace = refl

rejects_empty_log_index : get_transfer (101 ∷ sample_hash) ≡ not_valid
unfolding get_transfer is_valid_unique_transfer_id
rejects_empty_log_index = refl

rejects_empty_group : get_transfer (105 ∷ sample_hash ++ 49 ∷ 44 ∷ []) ≡ not_valid
unfolding get_transfer is_valid_unique_transfer_id
rejects_empty_group = refl

get_transfer-get_transfer_id_example :
    get_transfer (get_transfer_id ether_row) ≡ ethereum_transfer sample_hash ether_row.trace_address
unfolding trace_address_to_str str
get_transfer-get_transfer_id_example =
    get_transfer-get_transfer_id sample_hash (0 ∷ 12 ∷ []) ether_row
      (record { long = refl; hex = refl }) refl (λ e. refl) (λ e. omega arith)

token_row_found : get_transfer (get_transfer_id token_row) ≡ token_transfer sample_hash 130
unfolding str
token_row_found =
    get_transfer-get_transfer_id sample_hash [] token_row (record { long = refl; hex = refl }) refl
      (λ e. cc) (λ e. omega arith)

abbrev ones : ℕ → Bytes
ones zero = []
ones (suc n) = 49 ∷ ones n

abbrev too_long : Bytes
too_long = sample_hash ++ ones 4301

too_long_raises : get_transfer (101 ∷ too_long) ≡ raises
unfolding get_transfer is_valid_unique_transfer_id get_queryset int
too_long_raises = refl

get_transfer_raises_example : (get_transfer (101 ∷ too_long) ≡ raises) ↔ IsTooLong 101 too_long
get_transfer_raises_example = get_transfer_raises 101 too_long
