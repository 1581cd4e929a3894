-- ===== src/Cache/Keys.antt =====
-- The keys of the cache, and one call of the checker.
use safe_transaction_service.Common.{
  Bytes, ℕ, ◌≡◌, refl, some, [], ◌∷◌, ◌++◌, arith, length, length-append,
}
use safe_transaction_service.Cache.Processed.{block_bytes, get_key}

append-injective :
    (xs ys : Bytes) {zs ws : Bytes}
    → length xs ≡ length ys
    → xs ++ zs ≡ ys ++ ws
    → (xs ≡ ys) × (zs ≡ ws)
append-injective [] [] h e = (refl, e)
append-injective [] (y ∷ ys) h e = absurd (omega arith)
append-injective (x ∷ xs) [] h e = absurd (omega arith)
append-injective (x ∷ xs) (y ∷ ys) {zs} {ws} h e =
    ground (arith, append-injective xs ys {zs = zs} {ws = ws} (omega arith))

module _ (int_bytes : ℕ → Bytes) where
  length-block_bytes :
      (b b' : Bytes)
      → length b ≡ length b'
      → length (block_bytes int_bytes (some b)) ≡ length (block_bytes int_bytes (some b'))
  length-block_bytes [] [] h = refl
  length-block_bytes [] (y ∷ ys) h = absurd (omega arith)
  length-block_bytes (x ∷ xs) [] h = absurd (omega arith)
  length-block_bytes (x ∷ xs) (y ∷ ys) h = h

  block_bytes-injective :
      (b b' : Bytes)
      → length b ≡ length b'
      → block_bytes int_bytes (some b) ≡ block_bytes int_bytes (some b')
      → b ≡ b'
  block_bytes-injective [] [] h e = refl
  block_bytes-injective [] (y ∷ ys) h e = absurd (omega arith)
  block_bytes-injective (x ∷ xs) [] h e = absurd (omega arith)
  block_bytes-injective (x ∷ xs) (y ∷ ys) h e = e

-- Where numbers have different bytes, two elements with hashes of one length and the same key are the
-- same element.
pub get_key-injective :
    (int_bytes : ℕ → Bytes) (tx tx' block block' : Bytes) (index index' : ℕ)
    → ((m n : ℕ) → int_bytes m ≡ int_bytes n → m ≡ n)
    → length tx ≡ length tx'
    → length block ≡ length block'
    → get_key int_bytes tx (some block) index ≡ get_key int_bytes tx' (some block') index'
    → (tx ≡ tx') × (block ≡ block') × (index ≡ index')
unfolding get_key
get_key-injective int_bytes tx tx' block block' index index' inj ht hb e =
    let read = block_bytes int_bytes (some block) in
    let read' = block_bytes int_bytes (some block') in
    let same = length-block_bytes int_bytes block block' hb in
    let lengths : length (tx ++ read) ≡ length (tx' ++ read') =
      omega (arith, same, length-append {0} tx read, length-append {0} tx' read') in
    let outer = append-injective (tx ++ read) (tx' ++ read') lengths e in
    let inner = append-injective tx tx' ht outer.0 in
    (inner.0, block_bytes-injective int_bytes block block' hb inner.1, inj index index' outer.1)
