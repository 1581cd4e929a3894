-- ===== src/Cache/Recency.antt =====
-- The cache over many calls: its size, and how long a marked element stays.
use safe_transaction_service.Common.{
  bytes_eq_self, Bytes, ℕ, zero, suc, ◌+◌, ◌≤◌, ◌<◌, ◌≡◌, refl, ◌⊎◌, inl, inr, Bool, true, false,
  Option, List, [], ◌∷◌, ◌++◌, arith, ltb, if◌then◌else◌, length, Bool-cases, length-append, ◌&&◌,
  ◌∙◌,
}
use mathlib.Core.List.{append_assoc}
use safe_transaction_service.Cache.Dict.{contains_key, assign, pop_oldest, set_item}
use safe_transaction_service.Cache.Processed.{Checker, get_key, is_processed, mark_as_processed}

assign_new :
    (k : Bytes) (entries : List (Bytes × Unit {0}))
    → contains_key k entries ≡ false
    → assign k tt entries ≡ entries ++ (k, tt) ∷ []
unfolding contains_key assign
assign_new k [] h = refl
assign_new k ((j, v) ∷ entries) h = ground (arith, assign_new k entries)

contains_key_append :
    (k : Bytes) (v : Unit {0}) (before after : List (Bytes × Unit {0}))
    → contains_key k (before ++ (k, v) ∷ after) ≡ true
unfolding contains_key
contains_key_append k v [] after = rw (bytes_eq_self k)
contains_key_append k v ((j, w) ∷ before) after =
    ground (arith, contains_key_append k v before after)

-- The key is held, with at most `n` entries that are younger.
abbrev pub HeldWithin : ℕ → Bytes → Checker → Type 0
HeldWithin n k c =
    (before : List (Bytes × Unit {0})) × (after : List (Bytes × Unit {0})) × (c.entries
      ≡ before ++ (k, tt) ∷ after)
    × (length after ≤ n)

-- The end of `set_item`: the oldest entry goes when a positive `maxlen` is passed.
trim : ℕ → List (Bytes × Unit {0}) → List (Bytes × Unit {0})
trim maxlen entries =
    if ltb 0 maxlen && ltb maxlen (length entries) then pop_oldest entries else entries

trim_held :
    (maxlen : ℕ) (before after : List (Bytes × Unit {0})) (k : Bytes)
    → (maxlen ≡ 0) ⊎ (length after < maxlen)
    → (before' : List (Bytes × Unit {0})) × (trim maxlen (before ++ (k, tt) ∷ after)
        ≡ before' ++ (k, tt) ∷ after)
unfolding trim pop_oldest
trim_held maxlen [] after k room = ([], ground arith)
trim_held maxlen (e ∷ before) after k room = (
  if ltb 0 maxlen && ltb maxlen (length (e ∷ (before ++ (k, tt) ∷ after)))
      then before
      else e ∷ before,
  ground arith,
)

trim_last :
    (maxlen : ℕ) (entries : List (Bytes × Unit {0})) (k : Bytes)
    → (before : List (Bytes × Unit {0})) × (trim maxlen (entries ++ (k, tt) ∷ [])
        ≡ before ++ (k, tt) ∷ [])
trim_last zero entries k = trim_held zero entries [] k (inl refl)
trim_last (suc n) entries k = trim_held (suc n) entries [] k (inr (omega arith))

abbrev Element : Type 0
Element = Bytes × Option Bytes × ℕ

module _ (int_bytes : ℕ → Bytes) where
  abbrev pub mark : Element → Checker → Checker
  mark e c = (mark_as_processed int_bytes e.0 e.1 e.2 c).1

  abbrev pub mark_all : List Element → Checker → Checker
  mark_all [] c = c
  mark_all (e ∷ es) c = mark_all es (mark e c)

  abbrev pub key : Element → Bytes
  key e = get_key int_bytes e.0 e.1 e.2

  abbrev pub processed : Element → Checker → Bool
  processed e c = is_processed int_bytes e.0 e.1 e.2 c

  mark_old : (e : Element) (c : Checker) → processed e c ≡ true → mark e c ≡ c
  unfolding mark_as_processed is_processed
  mark_old e c h = ground arith

  mark_new :
      (e : Element) (c : Checker)
      → processed e c ≡ false
      → (mark e c).entries ≡ trim c.maxlen (c.entries ++ (key e, tt) ∷ [])
  unfolding mark_as_processed is_processed set_item trim
  mark_new e c h = ground (arith, assign_new (key e) c.entries h)

  maxlen-mark : (e : Element) (c : Checker) → (mark e c).maxlen ≡ c.maxlen
  unfolding mark_as_processed set_item
  maxlen-mark e c = ground arith

  -- A new mark puts its key at the young end.
  mark_new-HeldWithin :
      (e : Element) (c : Checker) → processed e c ≡ false → HeldWithin 0 (key e) (mark e c)
  mark_new-HeldWithin e c h =
      let (before, trimmed) = trim_last c.maxlen c.entries (key e) in
      (before, [], mark_new e c h ∙ trimmed, omega arith)

  mark-HeldWithin :
      (n : ℕ) (k : Bytes) (e : Element) (c : Checker)
      → HeldWithin n k c
      → (c.maxlen ≡ 0) ⊎ (n + 1 < c.maxlen)
      → HeldWithin (n + 1) k (mark e c)
  mark-HeldWithin n k e c (before, after, h, short) room = elim (Bool-cases (processed e c)) [
    | inl old ↦ (before, after, rw (mark_old e c old) h, omega arith)
    | inr new ↦
        let (before', trimmed) =
          trim_held c.maxlen before (after ++ (key e, tt) ∷ []) k (elim room [
            | inl unlimited ↦ inl unlimited
            | inr left ↦ inr (omega (arith, length-append {0} after ((key e, tt) ∷ [])))
          ]) in
        (
          before',
          after ++ (key e, tt) ∷ [],
          mark_new e c new
              ∙ (rw (h, append_assoc before ((k, tt) ∷ after) ((key e, tt) ∷ [])) trimmed),
          omega (arith, length-append {0} after ((key e, tt) ∷ [])),
        )
  ]

  HeldWithin-processed :
      (n : ℕ) (e : Element) (c : Checker) → HeldWithin n (key e) c → processed e c ≡ true
  unfolding is_processed
  HeldWithin-processed n e c (before, after, h, short) =
      rw h (contains_key_append (key e) tt before after)

  mark_all-HeldWithin :
      (es : List Element) (n : ℕ) (k : Bytes) (c : Checker)
      → HeldWithin n k c
      → (c.maxlen ≡ 0) ⊎ (n + length es < c.maxlen)
      → HeldWithin (n + length es) k (mark_all es c)
  mark_all-HeldWithin [] n k c held room = (held.0, held.1, held.2, omega (arith, held.3))
  mark_all-HeldWithin (e ∷ es) n k c held room =
      let same = maxlen-mark e c in
      let next =
        mark_all-HeldWithin es (n + 1) k (mark e c) (mark-HeldWithin n k e c held (omega arith))
          (omega arith) in
      (next.0, next.1, next.2, omega (arith, next.3))

  -- An element that is marked anew is processed at once, and stays so through fewer than `maxlen`
  -- further marks, whichever those are; with a `maxlen` of 0 it stays for good.
  pub mark_as_processed_stays :
      (e : Element) (es : List Element) (c : Checker)
      → processed e c ≡ false
      → (c.maxlen ≡ 0) ⊎ (length es < c.maxlen)
      → processed e (mark_all es (mark e c)) ≡ true
  mark_as_processed_stays e es c new room =
      let same = maxlen-mark e c in
      HeldWithin-processed (0 + length es) e (mark_all es (mark e c))
        (mark_all-HeldWithin es 0 (key e) (mark e c) (mark_new-HeldWithin e c new) (omega arith))
