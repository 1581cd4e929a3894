-- ===== src/Cache/Dict.antt =====
-- `FixedSizeDict` (safe_transaction_service/utils/utils.py): a Python dict in insertion order, oldest
-- key first, whose keys are byte strings.
use safe_transaction_service.Common.{
  bytes_eq, Bytes, ℕ, Bool, false, ◌||◌, List, [], ◌∷◌, ltb, if◌then◌else◌, length,
}

pub record FixedSizeDict {ℓ} (V : Type ℓ) : Type ℓ where
  pub maxlen : ℕ
  pub entries : List (Bytes × V)

module _ {ℓ} {V : Type ℓ} where
  unfoldable pub contains_key : Bytes → List (Bytes × V) → Bool
  contains_key k [] = false
  contains_key k ((j, v) ∷ entries) = bytes_eq k j || contains_key k entries

  -- `dict.__setitem__`: a known key keeps its place.
  unfoldable pub assign : Bytes → V → List (Bytes × V) → List (Bytes × V)
  assign k v [] = (k, v) ∷ []
  assign k v ((j, w) ∷ entries) =
      if bytes_eq k j then (j, v) ∷ entries else (j, w) ∷ assign k v entries

  -- `self.pop(next(iter(self)))`
  unfoldable pub pop_oldest : List (Bytes × V) → List (Bytes × V)
  pop_oldest [] = []
  pop_oldest (e ∷ entries) = entries

  unfoldable pub set_item : Bytes → V → FixedSizeDict V → FixedSizeDict V
  unfolding assign pop_oldest
  set_item k v d =
      let entries = assign k v d.entries in
      if ltb 0 d.maxlen
      then if ltb d.maxlen (length entries)
        then record d { entries = pop_oldest entries }
        else record d { entries = entries }
      else record d { entries = entries }
