-- ===== src/SafeTx/Queries.antt =====
-- The queries and updates that the processor makes
-- (safe_transaction_service/history/models.py).
use safe_transaction_service.Common.{
  ℕ, Bool, true, false, not, ◌&&◌, ◌||◌, Option, none, some, List, [], ◌∷◌, ◌++◌, ltb, leb, ◌==◌,
  if◌then◌else◌, select, Bytes, bytes_eq,
}
use safe_transaction_service.SafeTx.Types.{
  Status, Field, owners_field, threshold_field, nonce_field, master_copy_field,
  fallback_handler_field, guard_field, module_guard_field, enabled_modules_field, SafeContract,
  MultisigTransaction, MultisigConfirmation, ModuleTransaction, SafeContractDelegate, Database,
}

abbrev pub opt_is : ℕ → Option ℕ → Bool
opt_is n none = false
opt_is n (some m) = m == n

abbrev pub is_null : {A : Type 0} → Option A → Bool
is_null none = true
is_null (some a) = false

-- `get(address=address)`
unfoldable pub status_of : ℕ → List Status → Option Status
status_of a [] = none
status_of a (s ∷ ss) = if s.address == a then some s else status_of a ss

-- `save()` of a last status: the row of its address, or a new one.
unfoldable pub save_status : Status → List Status → List Status
save_status s [] = s ∷ []
save_status s (x ∷ xs) = if x.address == s.address then s ∷ xs else x ∷ save_status s xs

-- `save()` of a history row, whose primary key is the internal transaction.
unfoldable pub save_history : Status → List Status → List Status
save_history s [] = s ∷ []
save_history s (x ∷ xs) = if x.internal_tx == s.internal_tx then s ∷ xs else x ∷ save_history s xs

-- One of `update_fields`, copied from the object to its row.
abbrev pub copy_field : Field → Status → Status → Status
copy_field owners_field s row = record row { owners = s.owners }
copy_field threshold_field s row = record row { threshold = s.threshold }
copy_field nonce_field s row = record row { nonce = s.nonce }
copy_field master_copy_field s row = record row { master_copy = s.master_copy }
copy_field fallback_handler_field s row = record row { fallback_handler = s.fallback_handler }
copy_field guard_field s row = record row { guard = s.guard }
copy_field module_guard_field s row = record row { module_guard = s.module_guard }
copy_field enabled_modules_field s row = record row { enabled_modules = s.enabled_modules }

abbrev pub copy_fields : List Field → Status → Status → Status
copy_fields [] s row = record row { internal_tx = s.internal_tx }
copy_fields (f ∷ fs) s row = copy_field f s (copy_fields fs s row)

-- `save(update_fields=...)`: the row of the address. Without one Django raises, and the rows stay as they are
-- here; a status comes out of the cache after a row of its address was found or saved.
unfoldable pub update_status : List Field → Status → List Status → List Status
update_status fs s [] = []
update_status fs s (x ∷ xs) =
    if x.address == s.address then copy_fields fs s x ∷ xs else x ∷ update_status fs s xs

-- `SafeStatusQuerySet.sorted_by_mined().first()`: the greatest nonce, and among those the internal
-- transaction that was mined last, where `mined` gives the place of one in the chain.
abbrev pub later : (ℕ → ℕ) → Status → Status → Bool
later mined s t =
    ltb t.nonce s.nonce || (s.nonce == t.nonce && ltb (mined t.internal_tx) (mined s.internal_tx))

abbrev pub latest : (ℕ → ℕ) → Status → Option Status → Status
latest mined s none = s
latest mined s (some t) = if later mined t s then t else s

unfoldable pub last_for_address : (ℕ → ℕ) → ℕ → List Status → Option Status
last_for_address mined a [] = none
last_for_address mined a (s ∷ ss) =
    let rest = last_for_address mined a ss in
    if s.address == a then some (latest mined s rest) else rest

-- `get_banned_addresses`
abbrev pub is_banned : List SafeContract → ℕ → Bool
is_banned [] a = false
is_banned (c ∷ cs) a = (c.banned && c.address == a) || is_banned cs a

-- The `SafeContract` of a new Safe: an existing row only gets a missing transaction.
unfoldable pub index_safe : ℕ → ℕ → List SafeContract → List SafeContract
index_safe a tx [] = record { address = a; ethereum_tx = some tx; banned = false } ∷ []
index_safe a tx (c ∷ cs) =
    if c.address == a
    then (if is_null c.ethereum_tx then record c { ethereum_tx = some tx } else c) ∷ cs
    else c ∷ index_safe a tx cs

-- `MultisigTransaction.objects.get(safe_tx_hash=hash)`
unfoldable pub multisig_of : Bytes → List MultisigTransaction → Option MultisigTransaction
multisig_of h [] = none
multisig_of h (m ∷ ms) = if bytes_eq m.safe_tx_hash h then some m else multisig_of h ms

-- An update of the rows with a hash.
unfoldable pub on_multisig :
    Bytes
    → (MultisigTransaction → MultisigTransaction)
    → List MultisigTransaction
    → List MultisigTransaction
on_multisig h f [] = []
on_multisig h f (m ∷ ms) = (if bytes_eq m.safe_tx_hash h then f m else m) ∷ on_multisig h f ms

abbrev pub is_executed : MultisigTransaction → Bool
is_executed m = not (is_null m.ethereum_tx)

-- `MultisigTransactionQuerySet.queued`: not executed, and past every executed nonce of the Safe.
abbrev pub passed_by : ℕ → ℕ → List MultisigTransaction → Bool
passed_by safe nonce [] = false
passed_by safe nonce (m ∷ ms) =
    (is_executed m && m.safe == safe && leb nonce m.nonce) || passed_by safe nonce ms

unfoldable pub is_queued : ℕ → List MultisigTransaction → MultisigTransaction → Bool
is_queued safe all m = not (is_executed m) && m.safe == safe && not (passed_by safe m.nonce all)

-- `MultisigTransaction.objects.queued(safe).delete()`, with the confirmations bound to them.
abbrev pub bound_to : List MultisigTransaction → MultisigConfirmation → Bool
bound_to ms c = elim c.multisig_transaction [
  | none ↦ false
  | some h ↦ not (is_null (multisig_of h ms))
]

unfoldable pub delete_queued : ℕ → Database → Database
unfolding is_queued multisig_of
delete_queued safe d =
    let queued = select (is_queued safe d.multisig_txs) d.multisig_txs in
    record d {
      multisig_txs = select (λ m. not (is_queued safe d.multisig_txs m)) d.multisig_txs;
      confirmations = select (λ c. not (bound_to queued c)) d.confirmations;
    }

-- `remove_delegates_for_owner_in_safe`
unfoldable pub remove_delegates : ℕ → ℕ → List SafeContractDelegate → List SafeContractDelegate
remove_delegates safe owner =
    select (λ d. not (opt_is safe d.safe_contract && d.delegator == owner))

-- `remove_unused_confirmations`: of transactions of the Safe that are not executed, from a nonce on.
abbrev pub is_pending_from : ℕ → ℕ → Option MultisigTransaction → Bool
is_pending_from safe nonce none = false
is_pending_from safe nonce (some m) = not (is_executed m) && m.safe == safe && leb nonce m.nonce

unfoldable pub is_unused : ℕ → ℕ → ℕ → List MultisigTransaction → MultisigConfirmation → Bool
unfolding multisig_of
is_unused safe nonce owner ms c = c.owner == owner && (elim c.multisig_transaction [
  | none ↦ false
  | some h ↦ is_pending_from safe nonce (multisig_of h ms)
])

abbrev pub remove_unused_confirmations :
    ℕ → ℕ → ℕ → List MultisigTransaction → List MultisigConfirmation → List MultisigConfirmation
remove_unused_confirmations safe nonce owner ms =
    select (λ c. not (is_unused safe nonce owner ms c))

-- `get_or_create` of a relevant transaction.
abbrev pub has_pair : ℕ × ℕ → List (ℕ × ℕ) → Bool
has_pair p [] = false
has_pair p (q ∷ qs) = (p.0 == q.0 && p.1 == q.1) || has_pair p qs

unfoldable pub add_relevant : ℕ × ℕ → List (ℕ × ℕ) → List (ℕ × ℕ)
add_relevant p qs = if has_pair p qs then qs else qs ++ p ∷ []

-- `ModuleTransaction.objects.get_or_create(internal_tx=...)`
unfoldable pub add_module_tx : ModuleTransaction → List ModuleTransaction → List ModuleTransaction
add_module_tx m [] = m ∷ []
add_module_tx m (x ∷ xs) = if x.internal_tx == m.internal_tx then x ∷ xs else x ∷ add_module_tx m xs
