-- ===== src/SafeTx/Executed.antt =====
-- What `execTransaction` records (safe_transaction_service/history/indexers/tx_processor.py).
use safe_transaction_service.Common.{
  ℕ, Bool, true, not, select, Option, none, some, List, [], ◌∷◌, ◌++◌, ◌≡◌, refl, sym, ap, ◌∙◌,
  subst, arith, Bool-cases, Option-cases, inl, inr, Bytes, bytes_eq, bytes_eq_self,
}
use safe_transaction_service.SafeTx.{
  Env, Signature, Status, ExecArguments, InternalTx, MultisigTransaction, MultisigConfirmation,
  World, Database, multisig_of, on_multisig, trust, unless_found, create_confirmation,
  create_multisig, get_or_create_multisig, confirmation_of, confirm_signature, confirm_signatures,
  signed_confirmation, set_executed, has_failed, executed_hash, executed_multisig, store_multisig,
  store_execution, exec_transaction, store_new_safe_status, assign_status, is_nil, is_unbound,
}

-- The Ethereum transaction of a stored transaction, and whether it failed.
abbrev pub execution_of : Option MultisigTransaction → Option (Option ℕ × Option Bool)
execution_of none = none
execution_of (some m) = some (m.ethereum_tx, m.failed)

-- An execution that is known stays; else it is the given one.
abbrev pub recorded : ℕ → Bool → Option MultisigTransaction → Option ℕ × Option Bool
recorded tx failed none = (some tx, some failed)
recorded tx failed (some m) = elim m.ethereum_tx [
  | some t ↦ (some t, m.failed)
  | none ↦ (some tx, some failed)
]

unfoldable pub on_option : {A B : Type 0} → (A → B) → Option A → Option B
on_option f none = none
on_option f (some a) = some (f a)

multisig_of-on_multisig :
    (h : Bytes) (f : MultisigTransaction → MultisigTransaction)
    → ((m : MultisigTransaction) → (f m).safe_tx_hash ≡ m.safe_tx_hash)
    → (ms : List MultisigTransaction)
    → multisig_of h (on_multisig h f ms) ≡ on_option f (multisig_of h ms)
unfolding multisig_of on_multisig on_option
multisig_of-on_multisig h f keeps [] = refl
multisig_of-on_multisig h f keeps (m ∷ ms) = elim (Bool-cases (bytes_eq m.safe_tx_hash h)) [
  | inl e ↦
      let e' : bytes_eq (f m).safe_tx_hash h ≡ true =
        subst (λ k. bytes_eq k h ≡ true) (sym (keeps m)) e in
      rw (e, e') refl
  | inr e ↦ rw (e, e) (multisig_of-on_multisig h f keeps ms)
]

execution_of-trust :
    (o : Option MultisigTransaction) → execution_of (on_option trust o) ≡ execution_of o
unfolding on_option
execution_of-trust none = refl
execution_of-trust (some m) = refl

module _ (h : Bytes) where
  executed_in : Database → Option (Option ℕ × Option Bool)
  executed_in d = execution_of (multisig_of h d.multisig_txs)

  create_confirmation-executed :
      (c : MultisigConfirmation) (d : Database)
      → c.multisig_transaction_hash ≡ h
      → executed_in (create_confirmation c d) ≡ executed_in d
  unfolding create_confirmation executed_in
  create_confirmation-executed c d e =
      subst (λ k. execution_of (multisig_of h (on_multisig k trust d.multisig_txs)) ≡ executed_in d)
        (sym e)
        (ap execution_of (multisig_of-on_multisig h trust (λ m. refl) d.multisig_txs)
          ∙ execution_of-trust (multisig_of h d.multisig_txs))

  unless_found-executed :
      {A : Type 0} (o : Option A) (created d : Database)
      → executed_in created ≡ executed_in d
      → executed_in (unless_found o created d) ≡ executed_in d
  unless_found-executed none created d e = e
  unless_found-executed (some x) created d e = refl

  confirm_signatures-executed :
      (ss : List Signature) (d : Database) → executed_in (confirm_signatures h ss d) ≡ executed_in d
  unfolding confirm_signatures confirm_signature executed_in
  confirm_signatures-executed [] d = refl
  confirm_signatures-executed (s ∷ ss) d =
      let c = signed_confirmation h s in
      confirm_signatures-executed ss (confirm_signature h s d)
      ∙ unless_found-executed (confirmation_of c.multisig_transaction_hash c.owner d.confirmations)
          (create_confirmation c d) d (create_confirmation-executed c d refl)

multisig_of-append :
    (h : Bytes) (m : MultisigTransaction) (ms : List MultisigTransaction)
    → multisig_of h ms ≡ none
    → m.safe_tx_hash ≡ h
    → multisig_of h (ms ++ m ∷ []) ≡ some m
unfolding multisig_of
multisig_of-append h m [] e k =
    let e' : bytes_eq m.safe_tx_hash h ≡ true =
      subst (λ x. bytes_eq m.safe_tx_hash x ≡ true) k (bytes_eq_self m.safe_tx_hash) in
    rw e' refl
multisig_of-append h m (x ∷ ms) e k = ground (arith, multisig_of-append h m ms)

set_executed-recorded :
    (tx : ℕ) (failed : Bool) (signatures : ℕ) (m : MultisigTransaction)
    → execution_of (some (set_executed tx failed signatures m)) ≡ some (recorded tx failed (some m))
set_executed-recorded tx failed signatures m = elim (Option-cases m.ethereum_tx) [
  | inl e ↦ rw e refl
  | inr (t, e) ↦ rw e refl
]

module _ (env : Env) (s : Status) (itx : InternalTx) (args : ExecArguments) where
  create_multisig-found :
      (d : Database)
      → multisig_of (executed_hash env s itx.from args) d.multisig_txs ≡ none
      → multisig_of
          (executed_hash env s itx.from args)
          (create_multisig (executed_multisig env s itx args) d).multisig_txs
        ≡ some (executed_multisig env s itx args)
  unfolding create_multisig executed_multisig
  create_multisig-found d e =
      let m = executed_multisig env s itx args in
      let h = executed_hash env s itx.from args in
      elim (Bool-cases (not (is_nil (select (is_unbound h) d.confirmations)))) [
        | inl b ↦ rw b (multisig_of-append h m d.multisig_txs e refl)
        | inr b ↦ rw b (multisig_of-append h m d.multisig_txs e refl)
      ]

  get_or_create_multisig-recorded :
      (d : Database) (o : Option MultisigTransaction)
      → multisig_of (executed_hash env s itx.from args) d.multisig_txs ≡ o
      → execution_of (
          on_option
            (set_executed itx.ethereum_tx.tx_hash (has_failed env s itx args) args.signatures)
            (multisig_of
              (executed_hash env s itx.from args)
              (unless_found o
                (create_multisig (executed_multisig env s itx args) d)
                d).multisig_txs))
        ≡ some (recorded itx.ethereum_tx.tx_hash (has_failed env s itx args) o)
  unfolding on_option executed_multisig
  get_or_create_multisig-recorded d none e = rw (create_multisig-found d e) refl
  get_or_create_multisig-recorded d (some m) e =
      rw e (
        set_executed-recorded itx.ethereum_tx.tx_hash (has_failed env s itx args) args.signatures m)

  set_executed-hash :
      (m : MultisigTransaction)
      → (set_executed itx.ethereum_tx.tx_hash
          (has_failed env s itx args)
          args.signatures
          m).safe_tx_hash
        ≡ m.safe_tx_hash
  set_executed-hash m = elim (Option-cases m.ethereum_tx) [
    | inl e ↦ rw e refl
    | inr (t, e) ↦ rw e refl
  ]

  store_multisig-recorded :
      (d : Database)
      → execution_of (
          multisig_of
            (executed_hash env s itx.from args)
            (store_multisig env s itx args d).multisig_txs)
        ≡ some (
            recorded itx.ethereum_tx.tx_hash
              (has_failed env s itx args)
              (multisig_of (executed_hash env s itx.from args) d.multisig_txs))
  unfolding store_multisig executed_multisig
  store_multisig-recorded d =
      let m = executed_multisig env s itx args in
      let h = executed_hash env s itx.from args in
      ap execution_of (
        multisig_of-on_multisig h
          (set_executed itx.ethereum_tx.tx_hash (has_failed env s itx args) args.signatures)
          set_executed-hash (get_or_create_multisig m d).multisig_txs)
      ∙ get_or_create_multisig-recorded d (multisig_of h d.multisig_txs) refl

  -- After `execTransaction` the transaction of its hash is stored with an execution: the one that it
  -- had before, or else the Ethereum transaction of the call, failed exactly if the logs say so.
  pub exec_transaction-recorded :
      (w : World)
      → execution_of (
          multisig_of
            (executed_hash env s itx.from args)
            (exec_transaction env s itx args w).db.multisig_txs)
        ≡ some (
            recorded itx.ethereum_tx.tx_hash
              (has_failed env s itx args)
              (multisig_of (executed_hash env s itx.from args) w.db.multisig_txs))
  unfolding exec_transaction store_execution store_new_safe_status assign_status executed_in
  exec_transaction-recorded w =
      let h = executed_hash env s itx.from args in
      confirm_signatures-executed h (env.parse_signature args.signatures h)
        (store_multisig env s itx args w.db)
      ∙ store_multisig-recorded w.db
