-- ===== src/Events/Outbox.antt =====
-- What the queue of events promises (safe_transaction_service/events/services/queue_service.py), without
-- connections: messages wait until they are delivered, each once.
use safe_transaction_service.Common.{
  Bytes, ℕ, zero, suc, ◌+◌, ◌≡◌, refl, List, [], ◌∷◌, ◌++◌, length, arith, length-append, bytes_eq,
  if◌then◌else◌,
}

pub record Outbox : Type 0 where
  pub delivered : List Bytes
  pub waiting : List Bytes

abbrev pub outbox : List Bytes → List Bytes → Outbox
outbox d w = record { delivered = d; waiting = w }

unfoldable pub accept : Bytes → Outbox → Outbox
accept m o = record o { waiting = o.waiting ++ m ∷ [] }

-- `Delivers n o o'`: `n` deliveries, each of one waiting message, lead from `o` to `o'`.
pub data Delivers : ℕ → Outbox → Outbox → Type 0 where
  nothing : {o : Outbox} → Delivers zero o o
  deliver :
      {n : ℕ} {o : Outbox} (m : Bytes) (d before after : List Bytes)
      → Delivers n (outbox (d ++ m ∷ []) (before ++ after)) o
      → Delivers (suc n) (outbox d (before ++ m ∷ after)) o

-- How often a message is in a list.
unfoldable pub count_message : Bytes → List Bytes → ℕ
count_message m [] = 0
count_message m (k ∷ ks) = let rest = count_message m ks in if bytes_eq m k then suc rest else rest

pub count_message-append :
    (m : Bytes) (xs ys : List Bytes)
    → count_message m (xs ++ ys) ≡ count_message m xs + count_message m ys
unfolding count_message
count_message-append m [] ys = omega arith
count_message-append m (x ∷ xs) ys = ground (arith, count_message-append m xs ys)

-- The copies of a message, delivered or waiting.
abbrev pub copies : Bytes → Outbox → ℕ
copies m o = count_message m o.delivered + count_message m o.waiting

count_message_cons :
    (k m : Bytes) (xs : List Bytes)
    → count_message k (m ∷ xs) ≡ count_message k (m ∷ []) + count_message k xs
unfolding count_message
count_message_cons k m xs = ground arith

pub Delivers-copies :
    (k : Bytes) {n : ℕ} {o o' : Outbox} → Delivers n o o' → copies k o ≡ copies k o'
Delivers-copies k nothing = refl
Delivers-copies k (deliver m d before after more) =
    let ih = Delivers-copies k more in
    omega (
      arith,
      count_message-append k d (m ∷ []),
      count_message-append k before after,
      count_message-append k before (m ∷ after),
      count_message_cons k m after,
    )

pub Delivers-waiting :
    {n : ℕ} {o o' : Outbox} → Delivers n o o' → length o.waiting ≡ n + length o'.waiting
Delivers-waiting nothing = omega arith
Delivers-waiting (deliver m d before after more) =
    let ih = Delivers-waiting more in
    omega (arith, length-append before after, length-append before (m ∷ after))
