-- ===== src/Transfers/Text.antt =====
-- The text of numbers: Python's `str` and `int` on natural numbers, `",".join` as `_trace_address_to_str` of
-- safe_transaction_service/history/models.py uses it, and the character classes of the patterns in
-- safe_transaction_service/history/helpers.py. A character is its code, and digits are the ASCII ones.
use safe_transaction_service.Common.{
  ℕ, zero, suc, ◌+◌, ◌-◌, ◌*◌, ◌/◌, Bool, ◌&&◌, ◌||◌, Option, none, some, Bytes, List, [], ◌∷◌,
  ◌++◌, leb, ltb, length, if◌then◌else◌,
}
use Prim.Native.Nat.{◌%◌}

abbrev pub comma : ℕ
comma = 44

abbrev pub is_digit : ℕ → Bool
is_digit c = leb 48 c && leb c 57

-- `[a-fA-F0-9]`
abbrev pub is_hex : ℕ → Bool
is_hex c = is_digit c || (leb 97 c && leb c 102) || (leb 65 c && leb c 70)

-- `str(n)`, with as many digits at most as the first number says. The numbers are those of columns and traces;
-- that `str` raises above `max_str_digits` digits is left out.
abbrev pub digits_of : ℕ → ℕ → Bytes
digits_of zero n = []
digits_of (suc fuel) n =
    let rest = digits_of fuel (n / 10) in (if ltb n 10 then [] else rest) ++ (48 + n % 10) ∷ []

unfoldable pub str : ℕ → Bytes
str n = digits_of (suc n) n

abbrev pub int_from : ℕ → Bytes → Option ℕ
int_from n [] = some n
int_from n (c ∷ cs) =
    let rest = int_from (10 * n + (c - 48)) cs in if is_digit c then rest else none

-- `sys.int_info.default_max_str_digits`
abbrev pub max_str_digits : ℕ
max_str_digits = 4300

-- `int` on a text, which raises when the text is empty, too long, or has another character.
unfoldable pub int : Bytes → Option ℕ
int [] = none
int (c ∷ cs) = if ltb max_str_digits (length (c ∷ cs)) then none else int_from 0 (c ∷ cs)

abbrev pub joined : ℕ → List ℕ → Bytes
joined a [] = str a
joined a (b ∷ bs) = str a ++ comma ∷ joined b bs

unfoldable pub trace_address_to_str : List ℕ → Bytes
trace_address_to_str [] = []
trace_address_to_str (a ∷ more) = joined a more
