-- ===== src/Cache/Examples.antt =====
-- The checker on concrete elements, and the theorems at them. Numbers stand for one byte here.
use safe_transaction_service.Common.{
  Bytes, ℕ, ◌≡◌, refl, inr, true, false, Option, some, [], ◌∷◌, arith,
}
use safe_transaction_service.Cache.{Checker, mark_as_processed, is_processed}
use safe_transaction_service.Cache.Keys.{get_key-injective}
use safe_transaction_service.Cache.Recency.{mark, mark_all, processed, mark_as_processed_stays}

abbrev one_byte : ℕ → Bytes
one_byte n = n ∷ []

one_byte-injective : (m n : ℕ) → one_byte m ≡ one_byte n → m ≡ n
one_byte-injective m n e = ground arith

-- Room for two keys.
abbrev small : Checker
small = record { maxlen = 2; entries = [] }

abbrev element : ℕ → Bytes × Option Bytes × ℕ
element n = (1 ∷ 2 ∷ [], some (3 ∷ []), n)

-- The third new key pushes the first one out.
element_evicted :
    (processed one_byte (element 0) (mark_all one_byte (element 0 ∷ element 1 ∷ []) small) ≡ true)
    × (processed one_byte
          (element 0)
          (mark_all one_byte (element 0 ∷ element 1 ∷ element 2 ∷ []) small)
        ≡ false)
unfolding is_processed mark_as_processed
element_evicted = (refl, refl)

get_key-injective_example :
    (one_byte 1 ≡ one_byte 1) × (one_byte 2 ≡ one_byte 2) × (◌≡◌ {A = ℕ} 3 3)
get_key-injective_example =
    get_key-injective one_byte (1 ∷ []) (1 ∷ []) (2 ∷ []) (2 ∷ []) 3 3 one_byte-injective refl refl
      refl

mark_as_processed_stays_example :
    processed one_byte
      (element 0)
      (mark_all one_byte (element 1 ∷ []) (mark one_byte (element 0) small))
    ≡ true
unfolding is_processed
mark_as_processed_stays_example =
    mark_as_processed_stays one_byte (element 0) (element 1 ∷ []) small refl (inr (omega arith))
