-- ===== src/Transfers/Digits.antt =====
-- `int` reads what `str` writes, and the patterns accept it (safe_transaction_service/history/helpers.py).
use safe_transaction_service.Common.{
  length, ◌≤◌, ℕ, zero, suc, ◌+◌, ◌-◌, ◌*◌, ◌/◌, ◌<◌, ◌≡◌, ◌∙◌, ap, refl, subst, inl, inr, Bool,
  true, false, ◌&&◌, none, some, Bytes, List, [], ◌∷◌, ◌++◌, ltb, if◌then◌else◌, arith, Bool-cases,
  append-nil,
}
use Prim.Native.Nat.{◌%◌}
use safe_transaction_service.Transfers.{
  max_str_digits, comma, is_digit, digits_of, str, int_from, int, joined, trace_address_to_str,
  is_trace, is_digits,
}

is_digit_last : (n : ℕ) → is_digit (48 + n % 10) ≡ true
is_digit_last n = ground arith

-- A text that ends in another digit.
int_from-append :
    (m n : ℕ) (cs : Bytes) (d : ℕ)
    → int_from m cs ≡ some n
    → is_digit d ≡ true
    → int_from m (cs ++ d ∷ []) ≡ some (10 * n + (d - 48))
int_from-append m n [] d h k =
    let same : m ≡ n = cc in rw k (ap (λ (x : ℕ). some (10 * x + (d - 48))) same)
int_from-append m n (c ∷ cs) d h k = elim (Bool-cases (is_digit c)) [
  | inl digit ↦
      let rest : int_from (10 * m + (c - 48)) cs ≡ some n =
        subst (λ (b : Bool). (if b then int_from (10 * m + (c - 48)) cs else none) ≡ some n) digit
          h in
      rw digit (int_from-append (10 * m + (c - 48)) n cs d rest k)
  | inr other ↦
      let never : none ≡ some n =
        subst (λ (b : Bool). (if b then int_from (10 * m + (c - 48)) cs else none) ≡ some n) other
          h in
      cc
]

-- `str` has fuel enough.
int_from-digits_of : (fuel n : ℕ) → n < fuel → int_from 0 (digits_of fuel n) ≡ some n
int_from-digits_of zero n h = ground arith
int_from-digits_of (suc fuel) n h = elim (Bool-cases (ltb n 10)) [
  | inl single ↦
      let value : 10 * 0 + (48 + n % 10 - 48) ≡ n = ground (arith, single) in
      rw (single, is_digit_last n) (ap (λ (x : ℕ). some x) value)
  | inr longer ↦
      let smaller : n / 10 < fuel = ground (arith, longer, h) in
      let value : 10 * (n / 10) + (48 + n % 10 - 48) ≡ n = omega arith in
      rw longer (
        int_from-append 0 (n / 10) (digits_of fuel (n / 10)) (48 + n % 10)
          (int_from-digits_of fuel (n / 10) smaller) (is_digit_last n)
        ∙ ap (λ (x : ℕ). some x) value)
]

-- All characters are digits.
abbrev pub all_digits : Bytes → Bool
all_digits [] = true
all_digits (c ∷ cs) = is_digit c && all_digits cs

all_digits-append :
    (cs : Bytes) (d : ℕ)
    → all_digits cs ≡ true
    → is_digit d ≡ true
    → all_digits (cs ++ d ∷ []) ≡ true
all_digits-append [] d h k = rw k refl
all_digits-append (c ∷ cs) d h k = ground (arith, all_digits-append cs d)

all_digits-digits_of : (fuel n : ℕ) → all_digits (digits_of fuel n) ≡ true
all_digits-digits_of zero n = refl
all_digits-digits_of (suc fuel) n = elim (Bool-cases (ltb n 10)) [
  | inl single ↦ rw (single, is_digit_last n) refl
  | inr longer ↦ rw longer (
      all_digits-append (digits_of fuel (n / 10)) (48 + n % 10) (all_digits-digits_of fuel (n / 10))
        (is_digit_last n))
]

-- A text that ends in a character is not empty.
abbrev is_filled : Bytes → Bool
is_filled [] = false
is_filled (c ∷ cs) = true

filled-append : (cs : Bytes) (d : ℕ) → is_filled (cs ++ d ∷ []) ≡ true
filled-append [] d = refl
filled-append (c ∷ cs) d = refl

is_filled-str : (n : ℕ) → is_filled (str n) ≡ true
unfolding str
is_filled-str n = filled-append (if ltb n 10 then [] else digits_of n (n / 10)) (48 + n % 10)

int_from-str : (n : ℕ) → int_from 0 (str n) ≡ some n
unfolding str
int_from-str n = int_from-digits_of (suc n) n (omega arith)

int_filled :
    (n : ℕ) (cs : Bytes)
    → is_filled cs ≡ true
    → length cs ≤ max_str_digits
    → int_from 0 cs ≡ some n
    → int cs ≡ some n
unfolding int
int_filled n [] e short h = cc
int_filled n (c ∷ cs) e short h =
    let fits : ltb max_str_digits (length (c ∷ cs)) ≡ false = ground (arith, short) in rw fits h

pub int-str : (n : ℕ) → length (str n) ≤ max_str_digits → int (str n) ≡ some n
int-str n short = int_filled n (str n) (is_filled-str n) short (int_from-str n)

pub all_digits-str : (n : ℕ) → all_digits (str n) ≡ true
unfolding str
all_digits-str n = all_digits-digits_of (suc n) n

digits-all : (cs : Bytes) → is_filled cs ≡ true → all_digits cs ≡ true → is_digits cs ≡ true
digits-all [] e h = e
digits-all (c ∷ []) e h = ground arith
digits-all (c ∷ d ∷ cs) e h = ground (arith, digits-all (d ∷ cs) refl)

pub is_digits-str : (n : ℕ) → is_digits (str n) ≡ true
is_digits-str n = digits-all (str n) (is_filled-str n) (all_digits-str n)

-- After digits, the rest of the trace address; right after a comma, when there is a digit at least.
is_trace-digits :
    (cs rest : Bytes) → all_digits cs ≡ true → is_trace false (cs ++ rest) ≡ is_trace false rest
is_trace-digits [] rest h = refl
is_trace-digits (c ∷ cs) rest h = ground (arith, is_trace-digits cs rest)

is_trace-group :
    (cs rest : Bytes)
    → is_filled cs ≡ true
    → all_digits cs ≡ true
    → is_trace true (cs ++ rest) ≡ is_trace false (cs ++ rest)
is_trace-group [] rest e h = cc
is_trace-group (c ∷ cs) rest e h = ground arith

joined_group : (b : ℕ) (bs : List ℕ) → is_trace true (joined b bs) ≡ is_trace false (joined b bs)
joined_group b [] =
    subst (λ (xs : Bytes). is_trace true xs ≡ is_trace false xs) (append-nil (str b))
      (is_trace-group (str b) [] (is_filled-str b) (all_digits-str b))
joined_group b (c ∷ cs) =
    is_trace-group (str b) (comma ∷ joined c cs) (is_filled-str b) (all_digits-str b)

is_trace-joined : (a : ℕ) (more : List ℕ) → is_trace false (joined a more) ≡ true
is_trace-joined a [] =
    subst (λ (xs : Bytes). is_trace false xs ≡ true) (append-nil (str a))
      (is_trace-digits (str a) [] (all_digits-str a))
is_trace-joined a (b ∷ bs) =
    is_trace-digits (str a) (comma ∷ joined b bs) (all_digits-str a)
    ∙ joined_group b bs
    ∙ is_trace-joined b bs

pub is_trace-trace_address_to_str :
    (trace : List ℕ) → is_trace false (trace_address_to_str trace) ≡ true
unfolding trace_address_to_str
is_trace-trace_address_to_str [] = refl
is_trace-trace_address_to_str (a ∷ more) = is_trace-joined a more
