-- ===== src/Transfers/Found.antt =====
-- The view of one transfer looks up what the id was made of (safe_transaction_service/history/views.py), and
-- an id from outside makes it raise only when `int` does not read it.
use safe_transaction_service.Common.{
  ==_iff, ◌↔◌, ◌≤◌, ◌<◌, ltb, Bool-cases, inl, inr, sym, ◌∙◌, ℕ, zero, suc, ◌+◌, ◌-◌, ◌*◌, ◌≡◌, ◌≢◌,
  ap, refl, Bool, true, false, not, ◌&&◌, ◌||◌, Option, none, some, Bytes, List, [], ◌∷◌, ◌++◌,
  ◌==◌, if◌then◌else◌, length, take, drop, arith,
}
use safe_transaction_service.Transfers.{
  max_str_digits, is_hex, str, int_from, int, trace_address_to_str, TransferRow, token_type,
  type_of, get_type, id_of, get_transfer_id, is_trace, is_digits, after_hash,
  is_valid_unique_transfer_id, Lookup, ethereum_transfer, token_transfer, not_valid, raises,
  token_lookup, get_queryset, get_transfer,
}
use safe_transaction_service.Transfers.Digits.{
  int-str, is_digits-str, is_trace-trace_address_to_str,
}

abbrev pub all_hex : Bytes → Bool
all_hex [] = true
all_hex (c ∷ cs) = is_hex c && all_hex cs

-- The text of a hash.
pub record IsHash (h : Bytes) : Type 0 where
  pub long : length h ≡ 64
  pub hex : all_hex h ≡ true

after_hash-append :
    (accepts : Bytes → Bool) (n : ℕ) (h rest : Bytes)
    → length h ≡ n
    → all_hex h ≡ true
    → after_hash n accepts (h ++ rest) ≡ accepts rest
after_hash-append accepts zero [] rest e k = refl
after_hash-append accepts zero (c ∷ cs) rest e k = ground arith
after_hash-append accepts (suc n) [] rest e k = ground arith
after_hash-append accepts (suc n) (c ∷ cs) rest e k =
    ground (arith, after_hash-append accepts n cs rest)

take-append : (n : ℕ) (h rest : Bytes) → length h ≡ n → take n (h ++ rest) ≡ h
take-append zero [] rest e = refl
take-append zero (c ∷ cs) rest e = ground arith
take-append (suc n) [] rest e = ground arith
take-append (suc n) (c ∷ cs) rest e =
    ap (λ (xs : Bytes). c ∷ xs) (take-append n cs rest (omega (arith, e)))

drop-append : (n : ℕ) (h rest : Bytes) → length h ≡ n → drop n (h ++ rest) ≡ rest
drop-append zero [] rest e = refl
drop-append zero (c ∷ cs) rest e = ground arith
drop-append (suc n) [] rest e = ground arith
drop-append (suc n) (c ∷ cs) rest e = drop-append n cs rest (omega (arith, e))

-- The view on an id with a hash in it.
found_ether :
    (h trace : Bytes)
    → IsHash h
    → is_trace false trace ≡ true
    → get_transfer (105 ∷ h ++ trace) ≡ ethereum_transfer h trace
unfolding get_transfer get_queryset is_valid_unique_transfer_id
found_ether h trace k ok =
    rw (after_hash-append (is_trace false) 64 h trace k.long k.hex, ok)
      (rw (take-append 64 h trace k.long, drop-append 64 h trace k.long) refl)

found_token :
    (h : Bytes) (log_index : ℕ)
    → IsHash h
    → length (str log_index) ≤ max_str_digits
    → get_transfer (101 ∷ h ++ str log_index) ≡ token_transfer h log_index
unfolding get_transfer get_queryset is_valid_unique_transfer_id
found_token h log_index k short =
    rw (after_hash-append is_digits 64 h (str log_index) k.long k.hex, is_digits-str log_index)
      (rw (take-append 64 h (str log_index) k.long, drop-append 64 h (str log_index) k.long)
        (rw (int-str log_index short) refl))

-- What the row is found by.
abbrev pub looked_up : Bytes → TransferRow → Option Bytes → Lookup
looked_up h row none = ethereum_transfer h row.trace_address
looked_up h row (some token) = token_transfer h row.log_index

get_transfer-id_of :
    (h : Bytes) (trace : List ℕ) (row : TransferRow)
    → IsHash h
    → row.transaction_hash ≡ 48 ∷ 120 ∷ h
    → (row.token_address ≡ none → row.trace_address ≡ trace_address_to_str trace)
    → (row.token_address ≢ none → length (str row.log_index) ≤ max_str_digits)
    → (token : Option Bytes) → row.token_address ≡ token
    → get_transfer (id_of (type_of token row.value row.token_id) row) ≡ looked_up h row token
get_transfer-id_of h trace row k hash traced short none e =
    let ok : is_trace false row.trace_address ≡ true =
      rw (traced e) (is_trace-trace_address_to_str trace) in
    rw hash (found_ether h row.trace_address k ok)
get_transfer-id_of h trace row k hash traced short (some token) e =
    of_token row.value row.token_id (short (λ n. no_token (sym e ∙ n)))
  where
    no_token : some token ≡ none → ⊥
    no_token n = cc

    of_token :
        (value id : Option ℕ)
        → length (str row.log_index) ≤ max_str_digits
        → get_transfer (id_of (token_type value id) row) ≡ token_transfer h row.log_index
    of_token (some v) id fits = rw hash (found_token h row.log_index k fits)
    of_token none (some id) fits = rw hash (found_token h row.log_index k fits)
    of_token none none fits = rw hash (found_token h row.log_index k fits)

-- For the row of a transfer whose hash is `0x` and 64 hexadecimal digits, and whose trace address, when it is no
-- transfer of a token, is the text of a list of numbers, while its log index, when it is one, has at most the 4300
-- digits that Python reads and writes: the id of the row is valid, and the view looks up the
-- hash with the trace address of a transfer of ether, or with the log index of a transfer of a token.
pub get_transfer-get_transfer_id :
    (h : Bytes) (trace : List ℕ) (row : TransferRow)
    → IsHash h
    → row.transaction_hash ≡ 48 ∷ 120 ∷ h
    → (row.token_address ≡ none → row.trace_address ≡ trace_address_to_str trace)
    → (row.token_address ≢ none → length (str row.log_index) ≤ max_str_digits)
    → get_transfer (get_transfer_id row) ≡ looked_up h row row.token_address
unfolding get_transfer_id get_type
get_transfer-get_transfer_id h trace row k hash traced short =
    get_transfer-id_of h trace row k hash traced short row.token_address refl

-- What the pattern of a token's id leaves after the hash is a number.
int_from-digits : (m : ℕ) (cs : Bytes) → is_digits cs ≡ true → int_from m cs ≢ none
int_from-digits m [] e = ground arith
int_from-digits m (c ∷ []) e = ground arith
int_from-digits m (c ∷ d ∷ cs) e = ground (arith, int_from-digits (10 * m + (c - 48)) (d ∷ cs))

int-digits : (cs : Bytes) → is_digits cs ≡ true → int cs ≡ none → max_str_digits < length cs
unfolding int
int-digits [] e h = cc
int-digits (c ∷ cs) e h = elim (Bool-cases (ltb max_str_digits (length (c ∷ cs)))) [
  | inl long ↦ ground (arith, long)
  | inr fits ↦ elim (int_from-digits 0 (c ∷ cs) e (rw fits at h)) [ ]
]

int_long : (cs : Bytes) → max_str_digits < length cs → int cs ≡ none
unfolding int
int_long [] h = refl
int_long (c ∷ cs) h =
    let long : ltb max_str_digits (length (c ∷ cs)) ≡ true = ground (arith, h) in rw long refl

after_hash-drop :
    (accepts : Bytes → Bool) (n : ℕ) (cs : Bytes)
    → after_hash n accepts cs ≡ true
    → accepts (drop n cs) ≡ true
after_hash-drop accepts zero cs h = h
after_hash-drop accepts (suc n) [] h = cc
after_hash-drop accepts (suc n) (c ∷ cs) h = ground (arith, after_hash-drop accepts n cs)

token_lookup_raises : (hash : Bytes) (n : Option ℕ) → token_lookup hash n ≡ raises → n ≡ none
token_lookup_raises hash none e = refl
token_lookup_raises hash (some n) e = cc

view_raises :
    (valid internal : Bool) (hash trace : Bytes) (n : Option ℕ)
    → (if not valid
        then not_valid
        else if internal
        then ethereum_transfer hash trace
        else token_lookup hash n)
      ≡ raises
    → (valid ≡ true) × (internal ≡ false) × (n ≡ none)
view_raises false internal hash trace n e = cc
view_raises true true hash trace n e = cc
view_raises true false hash trace n e = (refl, refl, token_lookup_raises hash n e)

token_pattern :
    (p a q b : Bool) → ((p && a) || (q && b)) ≡ true → q ≡ false → (p ≡ true) × (a ≡ true)
token_pattern true true q b h e = (refl, refl)
token_pattern false true q b h e = ground arith
token_pattern true false q b h e = ground arith
token_pattern false false q b h e = ground arith

-- A valid id of a transfer of a token, with more digits after the hash than `int` reads.
abbrev pub IsTooLong : ℕ → Bytes → Type 0
IsTooLong c cs =
    (is_valid_unique_transfer_id (c ∷ cs) ≡ true)
    × (c ≡ 101)
    × (max_str_digits < length (drop 64 cs))

raises-IsTooLong : (c : ℕ) (cs : Bytes) → get_transfer (c ∷ cs) ≡ raises → IsTooLong c cs
unfolding get_transfer get_queryset is_valid_unique_transfer_id
raises-IsTooLong c cs h =
    let (valid, token, unread) =
      view_raises (is_valid_unique_transfer_id (c ∷ cs)) (c == 105) (take 64 cs) (drop 64 cs)
        (int (drop 64 cs)) h in
    let (starts, digits) =
      token_pattern (c == 101) (after_hash 64 is_digits cs) (c == 105)
        (after_hash 64 (is_trace false) cs) valid token in
    (
      valid,
      (==_iff c 101).0 starts,
      int-digits (drop 64 cs) (after_hash-drop is_digits 64 cs digits) unread,
    )

IsTooLong-raises : (c : ℕ) (cs : Bytes) → IsTooLong c cs → get_transfer (c ∷ cs) ≡ raises
unfolding get_transfer get_queryset
IsTooLong-raises c cs (valid, starts, long) =
    let token : (c == 105) ≡ false = ground (arith, starts) in
    rw (valid, token, int_long (drop 64 cs) long) refl

-- For an id that is not empty, whatever its ASCII text: the view raises exactly when the id is a valid one of a
-- transfer of a token with more than 4300 digits after the hash; on any other it answers that the id is not
-- valid, or makes a query.
pub get_transfer_raises : (c : ℕ) (cs : Bytes) → (get_transfer (c ∷ cs) ≡ raises) ↔ IsTooLong c cs
get_transfer_raises c cs = (raises-IsTooLong c cs, IsTooLong-raises c cs)
