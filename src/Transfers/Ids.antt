-- ===== src/Transfers/Ids.antt =====
-- The id of a transfer, its check, and the view that takes it apart: `get_transfer_id` of
-- safe_transaction_service/history/serializers.py, `is_valid_unique_transfer_id` of helpers.py and the view of one
-- transfer of views.py, up to the query of the database.
use safe_transaction_service.Common.{
  ℕ, zero, suc, Bool, true, false, not, ◌&&◌, ◌||◌, Option, none, some, Bytes, [], ◌∷◌, ◌++◌, ◌==◌,
  take, drop, if◌then◌else◌,
}
use safe_transaction_service.Transfers.Text.{comma, is_digit, is_hex, str, int}

-- The row of a transfer, as far as the id depends on it; `transaction_hash` starts with `0x`.
pub record TransferRow : Type 0 where
  pub transaction_hash : Bytes
  pub token_address : Option Bytes
  pub value : Option ℕ
  pub token_id : Option ℕ
  pub trace_address : Bytes
  pub log_index : ℕ

pub data TransferType : Type 0 where
  ether_transfer erc20_transfer erc721_transfer unknown : TransferType

abbrev pub token_type : Option ℕ → Option ℕ → TransferType
token_type (some v) id = erc20_transfer
token_type none (some id) = erc721_transfer
token_type none none = unknown

abbrev pub type_of : Option Bytes → Option ℕ → Option ℕ → TransferType
type_of none value id = ether_transfer
type_of (some token) value id = token_type value id

unfoldable pub get_type : TransferRow → TransferType
get_type row = type_of row.token_address row.value row.token_id

abbrev pub id_of : TransferType → TransferRow → Bytes
id_of ether_transfer row = 105 ∷ drop 2 row.transaction_hash ++ row.trace_address
id_of erc20_transfer row = 101 ∷ drop 2 row.transaction_hash ++ str row.log_index
id_of erc721_transfer row = 101 ∷ drop 2 row.transaction_hash ++ str row.log_index
id_of unknown row = 101 ∷ drop 2 row.transaction_hash ++ str row.log_index

unfoldable pub get_transfer_id : TransferRow → Bytes
get_transfer_id row = id_of (get_type row) row

-- `\d*`, then `(,\d+)*` to the end: within digits, and right after a comma.
abbrev pub is_trace : Bool → Bytes → Bool
is_trace after_comma [] = not after_comma
is_trace after_comma (c ∷ cs) =
    let digits = is_trace false cs in
    let group = is_trace true cs in
    if is_digit c then digits else if c == comma && not after_comma then group else false

-- `\d+` to the end.
abbrev pub is_digits : Bytes → Bool
is_digits [] = false
is_digits (c ∷ []) = is_digit c
is_digits (c ∷ d ∷ cs) = is_digit c && is_digits (d ∷ cs)

-- So many hexadecimal digits, then a text that the last argument accepts.
abbrev pub after_hash : ℕ → (Bytes → Bool) → Bytes → Bool
after_hash zero accepts cs = accepts cs
after_hash (suc n) accepts [] = false
after_hash (suc n) accepts (c ∷ cs) = is_hex c && after_hash n accepts cs

unfoldable pub is_valid_unique_transfer_id : Bytes → Bool
is_valid_unique_transfer_id [] = false
is_valid_unique_transfer_id (c ∷ cs) =
    (c == 101 && after_hash 64 is_digits cs) || (c == 105 && after_hash 64 (is_trace false) cs)

-- The query of the database, or the reply or exception before it.
pub data Lookup : Type 0 where
  ethereum_transfer : Bytes → Bytes → Lookup
  token_transfer : Bytes → ℕ → Lookup
  not_valid : Lookup
  raises : Lookup

abbrev pub token_lookup : Bytes → Option ℕ → Lookup
token_lookup hash none = raises
token_lookup hash (some log_index) = token_transfer hash log_index

unfoldable pub get_queryset : Bytes → Lookup
get_queryset [] = raises
get_queryset (c ∷ cs) =
    if c == 105
    then ethereum_transfer (take 64 cs) (drop 64 cs)
    else token_lookup (take 64 cs) (int (drop 64 cs))

abbrev pub is_blank : Bytes → Bool
is_blank [] = true
is_blank (c ∷ cs) = false

unfoldable pub get_transfer : Bytes → Lookup
get_transfer id =
    if not (is_blank id) && not (is_valid_unique_transfer_id id) then not_valid else get_queryset id
