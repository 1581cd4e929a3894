-- ===== src/SafeTx/Coherent.antt =====
-- Calls on the stored last status of a Safe, and its history
-- (`__process_decoded_transaction` of safe_transaction_service/history/indexers/tx_processor.py).
use safe_transaction_service.Common.{
  ℕ, ◌+◌, Bool, true, false, none, some, List, [], ◌∷◌, ◌++◌, ◌≡◌, refl, sym, ap, ◌∙◌, subst,
  Bool-cases, inl, inr, contains, Bytes,
}
use safe_transaction_service.Common.Result.{Result, ok, raised, continue}
use safe_transaction_service.SafeTx.{
  Env, Status, Field, ExecArguments, ModuleArguments, master_copy_field, owners_field,
  threshold_field, nonce_field, fallback_handler_field, guard_field, module_guard_field,
  enabled_modules_field, InternalTx, Call, setup, add_owner_with_threshold, remove_owner,
  swap_owner_call, change_threshold, change_master_copy, set_fallback_handler, set_guard,
  set_module_guard, enable_module, disable_module_call, exec_from_module, approve_hash,
  exec_transaction_call, unknown, World, Error, copy_fields, store_new_safe_status, assign_status,
  swap_owner, forget_owner, status_of, disable_module, delete_queued, change_copy, take_owner,
  process_call, store_true, store_execution, exec_transaction, exec_for_module,
  exec_transaction_from_module, store_approval, approve_by, approve, store_module_execution, breaks,
  drop_queued_if, store_assigned, guard_of, or_else, or_threshold, module_of, approver_of,
}
use safe_transaction_service.SafeTx.Isolation.{last_of}
use safe_transaction_service.SafeTx.Rows.{
  store_execution-statuses, store_approval-statuses, status_rows,
}
use safe_transaction_service.SafeTx.Recorded.{IsRecorded, history_of, store-IsRecorded}

-- What only depends on the two tables of statuses.
same_rows :
    (a : ℕ) (w w' : World) → status_rows w'.db ≡ status_rows w.db → IsRecorded a w → IsRecorded a w'
same_rows a w w' e (t, h, k) =
    (t, ap (λ p. status_of a p.0) e ∙ h, ap (λ p. history_of t.internal_tx p.1) e ∙ k)

assigned-IsRecorded :
    (itx : InternalTx) (fs : List Field) (s : Status) (w : World) (r : Status)
    → last_of s.address w ≡ some r
    → copy_fields fs (record s { internal_tx = itx.id }) r ≡ record s { internal_tx = itx.id }
    → IsRecorded s.address (store_assigned itx fs s w)
unfolding assign_status
assigned-IsRecorded itx fs s w r h e = store-IsRecorded s itx.id fs (assign_status s w) r h e

module _ (env : Env) (itx : InternalTx) (s : Status) (w : World) (h : last_of s.address w ≡ some s)
    (k : IsRecorded s.address w) where
  -- An update that gives a status to store, different from the row in some fields only.
  abbrev IsChange : List Field → Result Error Status × World → Type 0
  IsChange fs (ok t, w') =
      (t.address ≡ s.address)
      × (status_rows w'.db ≡ status_rows w.db)
      × (copy_fields fs (record t { internal_tx = itx.id }) s ≡ record t { internal_tx = itx.id })
  IsChange fs (raised e, w') = status_rows w'.db ≡ status_rows w.db

  store_true-IsRecorded :
      (fs : List Field) (out : Result Error Status × World)
      → IsChange fs out
      → IsRecorded s.address (continue out.0 (λ t. store_true itx fs t) out.1).1
  store_true-IsRecorded fs (ok t, w') (p, e, c) =
      let found : last_of t.address w' ≡ some s =
        subst (λ b. last_of b w' ≡ some s) (sym p) (ap (λ q. status_of s.address q.0) e ∙ h) in
      subst (λ b. IsRecorded b (store_new_safe_status t itx.id fs w')) p
        (store-IsRecorded t itx.id fs w' s found c)
  store_true-IsRecorded fs (raised e, w') r = same_rows s.address w w' r k

  swap_none-IsChange :
      (owner n : ℕ)
      → IsChange (owners_field ∷ threshold_field ∷ []) (
          swap_owner itx.from
            (record s { threshold = n })
            owner
            none
            (assign_status (record s { threshold = n }) w))
  unfolding swap_owner forget_owner assign_status
  swap_none-IsChange owner n = elim (Bool-cases (contains owner s.owners)) [
    | inl e ↦ rw e (refl, refl, refl)
    | inr e ↦ rw e refl
  ]

  take_owner-IsRecorded : (owner t : ℕ) → IsRecorded s.address (take_owner itx s owner t w).1
  unfolding take_owner
  take_owner-IsRecorded owner t =
      let s' : Status = record s { threshold = or_threshold t s.threshold } in
      store_true-IsRecorded (owners_field ∷ threshold_field ∷ [])
        (swap_owner itx.from s' owner none (assign_status s' w))
        (swap_none-IsChange owner (or_threshold t s.threshold))

  swap_owner-IsChange :
      (old new : ℕ) → IsChange (owners_field ∷ []) (swap_owner itx.from s old (some new) w)
  unfolding swap_owner forget_owner assign_status
  swap_owner-IsChange old new = elim (Bool-cases (contains old s.owners)) [
    | inl e ↦ rw e (refl, refl, refl)
    | inr e ↦ rw e refl
  ]

  disable_module-IsChange : (m : ℕ) → IsChange (enabled_modules_field ∷ []) (disable_module s m w)
  unfolding disable_module assign_status
  disable_module-IsChange m = elim (Bool-cases (contains m s.enabled_modules)) [
    | inl e ↦ rw e (refl, refl, refl)
    | inr e ↦ rw e refl
  ]

  drop_queued_if-rows :
      (b : Bool) (safe : ℕ) (v : World)
      → status_rows (drop_queued_if b safe v).db ≡ status_rows v.db
  unfolding delete_queued
  drop_queued_if-rows true safe v = refl
  drop_queued_if-rows false safe v = refl

  change_copy-IsRecorded : (copy : ℕ) → IsRecorded s.address (change_copy env itx s copy w)
  unfolding change_copy assign_status
  change_copy-IsRecorded copy =
      let s' : Status = record s { master_copy = copy } in
      let broken = breaks (env.version_of s.master_copy) (env.version_of copy) in
      let w1 = assign_status s' w in
      store-IsRecorded s' itx.id (master_copy_field ∷ []) (drop_queued_if broken itx.from w1) s
        (ap (λ p. status_of s.address p.0) (drop_queued_if-rows broken itx.from w1) ∙ h) refl

  exec_transaction-IsRecorded :
      (args : ExecArguments) → IsRecorded s.address (exec_transaction env s itx args w)
  unfolding exec_transaction assign_status
  exec_transaction-IsRecorded args =
      let s' : Status = record s { nonce = or_else args.nonce s.nonce + 1 } in
      let w1 : World = record w { db = store_execution env s itx args w.db } in
      store-IsRecorded s' itx.id (nonce_field ∷ []) (assign_status s' w1) s
        (ap (λ p. status_of s.address p.0) (store_execution-statuses env s itx args w.db) ∙ h) refl

  module-IsRecorded :
      (args : ModuleArguments) (r : Result Error ℕ)
      → IsRecorded s.address (exec_for_module env itx args r w).1
  module-IsRecorded args (ok m) =
      same_rows s.address w (record w { db = store_module_execution env itx args m w.db }) refl k
  module-IsRecorded args (raised e) = k

  approve-IsRecorded :
      (hash : Bytes) (r : Result Error ℕ) → IsRecorded s.address (approve_by env itx hash r w).1
  approve-IsRecorded hash (ok owner) =
      same_rows s.address w
        (record w { db = store_approval env itx.ethereum_tx.tx_hash hash owner w.db })
        (store_approval-statuses env itx.ethereum_tx.tx_hash hash owner w.db) k
  approve-IsRecorded hash (raised e) = k

  pub process_call-IsRecorded :
      (call : Call) → IsRecorded s.address (process_call env itx s call w).1
  unfolding process_call exec_transaction_from_module approve
  process_call-IsRecorded (setup owners t handler) = k
  process_call-IsRecorded (add_owner_with_threshold owner t) =
      assigned-IsRecorded itx (owners_field ∷ threshold_field ∷ [])
        (record s { owners = owner ∷ s.owners; threshold = or_threshold t s.threshold }) w s h refl
  process_call-IsRecorded (remove_owner owner t) = take_owner-IsRecorded owner t
  process_call-IsRecorded (swap_owner_call old new) =
      store_true-IsRecorded (owners_field ∷ []) (swap_owner itx.from s old (some new) w)
        (swap_owner-IsChange old new)
  process_call-IsRecorded (change_threshold t) =
      assigned-IsRecorded itx (threshold_field ∷ []) (record s { threshold = t }) w s h refl
  process_call-IsRecorded (change_master_copy copy) = change_copy-IsRecorded copy
  process_call-IsRecorded (set_fallback_handler f) =
      assigned-IsRecorded itx (fallback_handler_field ∷ []) (record s { fallback_handler = f }) w s
        h refl
  process_call-IsRecorded (set_guard g) =
      assigned-IsRecorded itx (guard_field ∷ []) (record s { guard = guard_of env g }) w s h refl
  process_call-IsRecorded (set_module_guard g) =
      assigned-IsRecorded itx (module_guard_field ∷ []) (record s { module_guard = guard_of env g })
        w s h refl
  process_call-IsRecorded (enable_module m) =
      assigned-IsRecorded itx (enabled_modules_field ∷ [])
        (record s { enabled_modules = s.enabled_modules ++ m ∷ [] }) w s h refl
  process_call-IsRecorded (disable_module_call m) =
      store_true-IsRecorded (enabled_modules_field ∷ []) (disable_module s m w)
        (disable_module-IsChange m)
  process_call-IsRecorded (exec_from_module args) =
      module-IsRecorded args (module_of env itx args.sender)
  process_call-IsRecorded (approve_hash hash owner) =
      approve-IsRecorded hash (approver_of env itx owner)
  process_call-IsRecorded (exec_transaction_call args) = exec_transaction-IsRecorded args
  process_call-IsRecorded unknown = k
