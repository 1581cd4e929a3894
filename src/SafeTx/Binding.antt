-- ===== src/SafeTx/Binding.antt =====
-- Confirmations, and the signal that binds them to transactions
-- (safe_transaction_service/history/models.py, safe_transaction_service/history/signals.py).
use safe_transaction_service.Common.{
  ℕ, Bool, true, false, not, ◌&&◌, Option, none, some, List, [], ◌∷◌, ◌++◌, ◌==◌, if◌then◌else◌,
  select, Bytes, bytes_eq,
}
use safe_transaction_service.SafeTx.Types.{MultisigTransaction, MultisigConfirmation, Database}
use safe_transaction_service.SafeTx.Queries.{is_null, multisig_of, on_multisig}

-- The confirmation of a hash by an owner.
abbrev pub is_confirmation : Bytes → ℕ → MultisigConfirmation → Bool
is_confirmation h owner c = bytes_eq c.multisig_transaction_hash h && c.owner == owner

unfoldable pub confirmation_of : Bytes → ℕ → List MultisigConfirmation → Option MultisigConfirmation
confirmation_of h owner [] = none
confirmation_of h owner (c ∷ cs) =
    if is_confirmation h owner c then some c else confirmation_of h owner cs

unfoldable pub on_confirmation :
    Bytes
    → ℕ
    → (MultisigConfirmation → MultisigConfirmation)
    → List MultisigConfirmation
    → List MultisigConfirmation
on_confirmation h owner f [] = []
on_confirmation h owner f (c ∷ cs) =
    (if is_confirmation h owner c then f c else c) ∷ on_confirmation h owner f cs

abbrev pub trust : MultisigTransaction → MultisigTransaction
trust m = record m { trusted = true }

-- A confirmation is created, and `bind_confirmation` runs: its transaction becomes trusted, and the
-- confirmation is bound to it if it was not.
unfoldable pub create_confirmation : MultisigConfirmation → Database → Database
unfolding on_multisig multisig_of
create_confirmation c d =
    let h = c.multisig_transaction_hash in
    let found = not (is_null (multisig_of h d.multisig_txs)) in
    record d {
      multisig_txs = on_multisig h trust d.multisig_txs;
      confirmations =
          d.confirmations
          ++ (if is_null c.multisig_transaction && found
              then record c { multisig_transaction = some h }
              else c)
            ∷ [];
    }

-- A transaction is created, and `bind_confirmation` runs: the confirmations of its hash are bound, and
-- it becomes trusted if there were any.
abbrev pub is_unbound : Bytes → MultisigConfirmation → Bool
is_unbound h c = is_null c.multisig_transaction && bytes_eq c.multisig_transaction_hash h

unfoldable pub bind_all : Bytes → List MultisigConfirmation → List MultisigConfirmation
bind_all h [] = []
bind_all h (c ∷ cs) =
    (if is_unbound h c then record c { multisig_transaction = some h } else c) ∷ bind_all h cs

abbrev pub is_nil : {A : Type 0} → List A → Bool
is_nil [] = true
is_nil (x ∷ xs) = false

unfoldable pub create_multisig : MultisigTransaction → Database → Database
unfolding bind_all
create_multisig m d =
    let h = m.safe_tx_hash in
    let updated = not (is_nil (select (is_unbound h) d.confirmations)) in
    record d {
      multisig_txs = d.multisig_txs ++ (if updated then record m { trusted = true } else m) ∷ [];
      confirmations = bind_all h d.confirmations;
    }
