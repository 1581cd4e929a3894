-- ===== src/SafeTx/Separate.antt =====
-- Calls on one Safe beside the last status of another: every branch of
-- `__process_decoded_transaction` (safe_transaction_service/history/indexers/tx_processor.py).
use safe_transaction_service.Common.{
  ℕ, Bool, true, false, Option, none, some, List, [], ◌∷◌, ◌++◌, ◌==◌, contains, ◌≡◌, refl, sym, ap,
  ◌∙◌, subst, Bool-cases, inl, inr, Bytes, ◌+◌,
}
use safe_transaction_service.Common.Result.{Result, ok, raised, continue}
use safe_transaction_service.SafeTx.{
  Env, Status, Field, master_copy_field, owners_field, threshold_field, nonce_field,
  fallback_handler_field, guard_field, module_guard_field, enabled_modules_field, ExecArguments,
  ModuleArguments, InternalTx, Call, setup, add_owner_with_threshold, remove_owner, swap_owner_call,
  change_threshold, change_master_copy, set_fallback_handler, set_guard, set_module_guard,
  enable_module, disable_module_call, exec_from_module, approve_hash, exec_transaction_call,
  unknown, World, Error, assign_status, swap_owner, forget_owner, disable_module, delete_queued,
  change_copy, take_owner, process_call, store_true, store_execution, exec_transaction,
  exec_for_module, exec_transaction_from_module, approve_by, approve, status_of, breaks,
  drop_queued_if, or_else, or_threshold, store_assigned, guard_of, index_safe, new_status, set_up,
  process_named, process_status, process_known, get_last_safe_status_for_address, module_of,
  approver_of,
}
use safe_transaction_service.SafeTx.Isolation.{last_of, store-other, IsFor, get_last-IsFor}
use safe_transaction_service.SafeTx.Rows.{store_execution-statuses, store_approval-statuses}

module _ (a : ℕ) where
  -- The status that an update gives is the same Safe's, and the last status of `a` is as before.
  abbrev IsKept : Status → World → Result Error Status × World → Type 0
  IsKept s w (ok t, w') = (t.address ≡ s.address) × (last_of a w' ≡ last_of a w)
  IsKept s w (raised e, w') = last_of a w' ≡ last_of a w

  store_true-kept :
      (itx : InternalTx) (fs : List Field) (s : Status) (w : World)
      (out : Result Error Status × World)
      → (s.address == a) ≡ false
      → IsKept s w out
      → last_of a (continue out.0 (λ t. store_true itx fs t) out.1).1 ≡ last_of a w
  store_true-kept itx fs s w (ok t, w') h (e, k) =
      store-other a t itx.id fs w' (subst (λ n. (n == a) ≡ false) (sym e) h) ∙ k
  store_true-kept itx fs s w (raised e, w') h k = k

  swap_owner-IsKept :
      (safe : ℕ) (s : Status) (old : ℕ) (new : Option ℕ) (w : World)
      → IsKept s w (swap_owner safe s old new w)
  unfolding swap_owner forget_owner assign_status
  swap_owner-IsKept safe s old new w = elim (Bool-cases (contains old s.owners)) [
    | inl e ↦ rw e (refl, refl)
    | inr e ↦ rw e refl
  ]

  disable_module-IsKept : (s : Status) (m : ℕ) (w : World) → IsKept s w (disable_module s m w)
  unfolding disable_module assign_status
  disable_module-IsKept s m w = elim (Bool-cases (contains m s.enabled_modules)) [
    | inl e ↦ rw e (refl, refl)
    | inr e ↦ rw e refl
  ]

  drop_queued_if-last :
      (b : Bool) (safe : ℕ) (w : World) → last_of a (drop_queued_if b safe w) ≡ last_of a w
  unfolding delete_queued
  drop_queued_if-last true safe w = refl
  drop_queued_if-last false safe w = refl

  change_copy-kept :
      (env : Env) (itx : InternalTx) (s : Status) (copy : ℕ) (w : World)
      → (s.address == a) ≡ false
      → last_of a (change_copy env itx s copy w) ≡ last_of a w
  unfolding change_copy assign_status
  change_copy-kept env itx s copy w h =
      let s' : Status = record s { master_copy = copy } in
      let broken = breaks (env.version_of s.master_copy) (env.version_of copy) in
      let w1 = assign_status s' w in
      store-other a s' itx.id (master_copy_field ∷ []) (drop_queued_if broken itx.from w1) h
      ∙ drop_queued_if-last broken itx.from w1

  exec_transaction-kept :
      (env : Env) (s : Status) (itx : InternalTx) (args : ExecArguments) (w : World)
      → (s.address == a) ≡ false
      → last_of a (exec_transaction env s itx args w) ≡ last_of a w
  unfolding exec_transaction assign_status
  exec_transaction-kept env s itx args w h =
      let s' : Status = record s { nonce = or_else args.nonce s.nonce + 1 } in
      let w1 : World = record w { db = store_execution env s itx args w.db } in
      store-other a s' itx.id (nonce_field ∷ []) (assign_status s' w1) h
      ∙ ap (λ p. status_of a p.0) (store_execution-statuses env s itx args w.db)

  exec_for_module-kept :
      (env : Env) (itx : InternalTx) (args : ModuleArguments) (r : Result Error ℕ) (w : World)
      → last_of a (exec_for_module env itx args r w).1 ≡ last_of a w
  exec_for_module-kept env itx args (ok m) w = refl
  exec_for_module-kept env itx args (raised e) w = refl

  approve_by-kept :
      (env : Env) (itx : InternalTx) (hash : Bytes) (r : Result Error ℕ) (w : World)
      → last_of a (approve_by env itx hash r w).1 ≡ last_of a w
  approve_by-kept env itx hash (ok owner) w =
      ap (λ p. status_of a p.0)
        (store_approval-statuses env itx.ethereum_tx.tx_hash hash owner w.db)
  approve_by-kept env itx hash (raised e) w = refl

  take_owner-kept :
      (itx : InternalTx) (s : Status) (owner t : ℕ) (w : World)
      → (s.address == a) ≡ false
      → last_of a (take_owner itx s owner t w).1 ≡ last_of a w
  unfolding take_owner assign_status
  take_owner-kept itx s owner t w h =
      let s' : Status = record s { threshold = or_threshold t s.threshold } in
      let w1 = assign_status s' w in
      store_true-kept itx (owners_field ∷ threshold_field ∷ []) s' w1
        (swap_owner itx.from s' owner none w1) h (swap_owner-IsKept itx.from s' owner none w1)

  assigned-kept :
      (itx : InternalTx) (fs : List Field) (s : Status) (w : World)
      → (s.address == a) ≡ false
      → last_of a (store_assigned itx fs s w) ≡ last_of a w
  unfolding assign_status
  assigned-kept itx fs s w h = store-other a s itx.id fs (assign_status s w) h

  process_call-kept :
      (env : Env) (itx : InternalTx) (s : Status) (call : Call) (w : World)
      → (s.address == a) ≡ false
      → last_of a (process_call env itx s call w).1 ≡ last_of a w
  unfolding process_call assign_status exec_transaction_from_module approve
  process_call-kept env itx s (setup owners t handler) w h = refl
  process_call-kept env itx s (add_owner_with_threshold owner t) w h =
      assigned-kept itx (owners_field ∷ threshold_field ∷ [])
        (record s { owners = owner ∷ s.owners; threshold = or_threshold t s.threshold }) w h
  process_call-kept env itx s (remove_owner owner t) w h = take_owner-kept itx s owner t w h
  process_call-kept env itx s (swap_owner_call old new) w h =
      store_true-kept itx (owners_field ∷ []) s w (swap_owner itx.from s old (some new) w) h
        (swap_owner-IsKept itx.from s old (some new) w)
  process_call-kept env itx s (change_threshold t) w h =
      assigned-kept itx (threshold_field ∷ []) (record s { threshold = t }) w h
  process_call-kept env itx s (change_master_copy copy) w h = change_copy-kept env itx s copy w h
  process_call-kept env itx s (set_fallback_handler f) w h =
      assigned-kept itx (fallback_handler_field ∷ []) (record s { fallback_handler = f }) w h
  process_call-kept env itx s (set_guard g) w h =
      assigned-kept itx (guard_field ∷ []) (record s { guard = guard_of env g }) w h
  process_call-kept env itx s (set_module_guard g) w h =
      assigned-kept itx (module_guard_field ∷ []) (record s { module_guard = guard_of env g }) w h
  process_call-kept env itx s (enable_module m) w h =
      assigned-kept itx (enabled_modules_field ∷ [])
        (record s { enabled_modules = s.enabled_modules ++ m ∷ [] }) w h
  process_call-kept env itx s (disable_module_call m) w h =
      store_true-kept itx (enabled_modules_field ∷ []) s w (disable_module s m w) h
        (disable_module-IsKept s m w)
  process_call-kept env itx s (exec_from_module args) w h =
      exec_for_module-kept env itx args (module_of env itx args.sender) w
  process_call-kept env itx s (approve_hash hash owner) w h =
      approve_by-kept env itx hash (approver_of env itx owner) w
  process_call-kept env itx s (exec_transaction_call args) w h =
      exec_transaction-kept env s itx args w h
  process_call-kept env itx s unknown w h = refl

  process_known-kept :
      (env : Env) (b : ℕ) (itx : InternalTx) (call : Call) (w : World)
      (found : Option Status × World)
      → (b == a) ≡ false
      → IsFor b a w found
      → last_of a (process_known env itx call found.0 found.1).1 ≡ last_of a w
  process_known-kept env b itx call w (none, w') h (at, k) = k
  process_known-kept env b itx call w (some s, w') h (at, k) =
      process_call-kept env itx s call w' (subst (λ n. (n == a) ≡ false) (sym (at s refl)) h) ∙ k

  process_status-kept :
      (env : Env) (itx : InternalTx) (call : Call) (w : World)
      → (itx.from == a) ≡ false
      → last_of a (process_status env itx call w).1 ≡ last_of a w
  process_status-kept env itx call w h =
      process_known-kept env itx.from itx call w
        (get_last_safe_status_for_address env.mined itx.from w) h
        (get_last-IsFor env.mined itx.from a h w)

  set_up-kept :
      (env : Env) (itx : InternalTx) (owners : List ℕ) (t : ℕ) (handler : Option ℕ) (w : World)
      → (itx.from == a) ≡ false
      → last_of a (set_up env itx owners t handler w) ≡ last_of a w
  unfolding set_up index_safe
  set_up-kept env itx owners t handler w h =
      store-other a (new_status env itx owners t handler) itx.id []
        (record w {
          db = record w.db {
            contracts = index_safe itx.from itx.ethereum_tx.tx_hash w.db.contracts;
          };
        })
        h

  pub process_named-kept :
      (env : Env) (itx : InternalTx) (call : Call) (w : World)
      → (itx.from == a) ≡ false
      → last_of a (process_named env itx call w).1 ≡ last_of a w
  process_named-kept env itx (setup owners t handler) w h =
      elim (Bool-cases (itx.from == env.null_address)) [
        | inl e ↦ rw e (process_status-kept env itx (setup owners t handler) w h)
        | inr e ↦ rw e (set_up-kept env itx owners t handler w h)
      ]
  process_named-kept env itx (add_owner_with_threshold owner t) w h =
      process_status-kept env itx (add_owner_with_threshold owner t) w h
  process_named-kept env itx (remove_owner owner t) w h =
      process_status-kept env itx (remove_owner owner t) w h
  process_named-kept env itx (swap_owner_call old new) w h =
      process_status-kept env itx (swap_owner_call old new) w h
  process_named-kept env itx (change_threshold t) w h =
      process_status-kept env itx (change_threshold t) w h
  process_named-kept env itx (change_master_copy copy) w h =
      process_status-kept env itx (change_master_copy copy) w h
  process_named-kept env itx (set_fallback_handler f) w h =
      process_status-kept env itx (set_fallback_handler f) w h
  process_named-kept env itx (set_guard g) w h = process_status-kept env itx (set_guard g) w h
  process_named-kept env itx (set_module_guard g) w h =
      process_status-kept env itx (set_module_guard g) w h
  process_named-kept env itx (enable_module m) w h =
      process_status-kept env itx (enable_module m) w h
  process_named-kept env itx (disable_module_call m) w h =
      process_status-kept env itx (disable_module_call m) w h
  process_named-kept env itx (exec_from_module args) w h =
      process_status-kept env itx (exec_from_module args) w h
  process_named-kept env itx (approve_hash hash owner) w h =
      process_status-kept env itx (approve_hash hash owner) w h
  process_named-kept env itx (exec_transaction_call args) w h =
      process_status-kept env itx (exec_transaction_call args) w h
  process_named-kept env itx unknown w h = process_status-kept env itx unknown w h
