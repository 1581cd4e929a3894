-- ===== src/SafeTx/Logs.antt =====
-- Failure events in the logs of a transaction: `is_failed` and `is_module_failed`
-- (safe_transaction_service/history/indexers/tx_processor.py).
use safe_transaction_service.Common.{
  ℕ, ◌-◌, Bool, true, false, not, ◌&&◌, ◌||◌, Option, none, some, List, [], ◌∷◌, ◌==◌,
  if◌then◌else◌, Bytes, bytes_eq, take, drop, length,
}
use safe_transaction_service.SafeTx.Types.{Log, EthereumTx}

-- The topics of the failure events of the Safe contracts, and the bytes of an address.
pub record Topics : Type 0 where
  pub failure : List Bytes
  pub module_failure : List Bytes
  pub address_bytes : ℕ → Bytes

abbrev pub among : Bytes → List Bytes → Bool
among b [] = false
among b (x ∷ xs) = bytes_eq b x || among b xs

abbrev pub is_empty : {A : Type 0} → List A → Bool
is_empty [] = true
is_empty (x ∷ xs) = false

-- A log of a failed execution of `safe_tx_hash`: the hash is the second of two topics, or the first
-- 32 bytes of the data.
abbrev pub topic_is : Bytes → List Bytes → Bool
topic_is hash (t ∷ u ∷ []) = bytes_eq u hash
topic_is hash _ = false

abbrev pub first_topic_among : List Bytes → List Bytes → Bool
first_topic_among topics [] = false
first_topic_among topics (t ∷ ts) = among t topics

abbrev pub has_data : Option Bytes → Bool
has_data none = false
has_data (some bytes) = true

abbrev pub data_starts : Bytes → Option Bytes → Bool
data_starts hash none = false
data_starts hash (some bytes) = bytes_eq (take 32 bytes) hash

unfoldable pub log_fails : Topics → Bytes → Log → Bool
log_fails topics hash log =
    if not (is_empty log.topics)
      && has_data log.payload
      && first_topic_among topics.failure log.topics
    then topic_is hash log.topics || data_starts hash log.payload
    else false

unfoldable pub any_log : (Log → Bool) → List Log → Bool
any_log p [] = false
any_log p (log ∷ logs) = if p log then true else any_log p logs

unfoldable pub is_failed : Topics → EthereumTx → Bytes → Bool
unfolding any_log log_fails
is_failed topics tx hash = any_log (log_fails topics hash) tx.logs

-- `bytes[-20:]`
abbrev pub last_20 : Bytes → Bytes
last_20 b = drop (length b - 20) b

abbrev pub module_topics : Topics → ℕ → List Bytes → Bool
module_topics topics module_address (t ∷ u ∷ []) =
    among t topics.module_failure && bytes_eq (last_20 u) (topics.address_bytes module_address)
module_topics topics module_address _ = false

-- A log without an address counts for every Safe.
abbrev pub emitted_by : ℕ → Option ℕ → Bool
emitted_by safe none = true
emitted_by safe (some a) = a == safe

unfoldable pub module_log_fails : Topics → ℕ → ℕ → Log → Bool
module_log_fails topics module_address safe log =
    emitted_by safe log.address && module_topics topics module_address log.topics

unfoldable pub is_module_failed : Topics → EthereumTx → ℕ → ℕ → Bool
unfolding any_log module_log_fails
is_module_failed topics tx module_address safe =
    any_log (module_log_fails topics module_address safe) tx.logs
