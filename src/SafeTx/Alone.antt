-- ===== src/SafeTx/Alone.antt =====
-- A Safe whose calls are processed one by one: `process_decoded_transaction` of
-- safe_transaction_service/history/indexers/tx_processor.py.
use safe_transaction_service.Common.{
  ℕ, Bool, Option, none, some, List, [], ◌∷◌, ◌≡◌, refl, sym, subst, Bool-cases, inl, inr, ◌⊎◌,
  ◌==◌, ltb,
}
use safe_transaction_service.Common.Result.{Result, ok, raised}
use safe_transaction_service.SafeTx.{
  Env, Status, InternalTx, InternalTxDecoded, Call, setup, add_owner_with_threshold, remove_owner,
  swap_owner_call, change_threshold, change_master_copy, set_fallback_handler, set_guard,
  set_module_guard, enable_module, disable_module_call, exec_from_module, approve_hash,
  exec_transaction_call, unknown, World, Error, status_of, last_for_address, generate,
  row_or_generated, cached_or_row, get_or_generate, get_last_safe_status_for_address, clear_cache,
  clear_of, process, process_named, process_known, process_status, process_call, set_up, new_status,
  mark_if_ok, roll_back, process_decoded_transaction, store_new_safe_status,
}
use safe_transaction_service.SafeTx.Isolation.{last_of, last_for_address-address, status_of-address}
use safe_transaction_service.SafeTx.Batch.{clear_of-cleared}
use safe_transaction_service.SafeTx.Recorded.{IsRecorded, save_status_self, save_history_self}
use safe_transaction_service.SafeTx.Coherent.{process_call-IsRecorded}

-- A Safe without a last status, or with one whose history row is the same.
abbrev pub IsCoherent : ℕ → World → Type 0
IsCoherent a w = (last_of a w ≡ none) ⊎ IsRecorded a w

module _ (env : Env) (itx : InternalTx) (call : Call) where
  known-IsCoherent :
      (s : Status) (w : World)
      → s.address ≡ itx.from
      → last_of itx.from w ≡ some s
      → IsRecorded itx.from w
      → IsCoherent itx.from (process_call env itx s call w).1
  known-IsCoherent s w p h k =
      let h' : last_of s.address w ≡ some s = subst (λ a. last_of a w ≡ some s) (sym p) h in
      let k' : IsRecorded s.address w = subst (λ a. IsRecorded a w) (sym p) k in
      inr (
        subst (λ a. IsRecorded a (process_call env itx s call w).1) p
          (process_call-IsRecorded env itx s w h' k' call))

  generated-IsCoherent :
      (w : World) (o : Option Status)
      → last_of itx.from w ≡ none
      → ((s : Status) → o ≡ some s → s.address ≡ itx.from)
      → IsCoherent itx.from
          (process_known env itx call (generate o w.db).0 (record w { db = (generate o w.db).1 })).1
  unfolding generate
  generated-IsCoherent w none h at = inl h
  generated-IsCoherent w (some s) h at =
      let p = at s refl in
      let w' : World = record w { db = (generate (some s) w.db).1 } in
      let h' : last_of itx.from w' ≡ some s =
        subst (λ a. last_of a w' ≡ some s) p (save_status_self s w.db.last_statuses) in
      known-IsCoherent s w' p h' (s, h', save_history_self s w.db.statuses)

  IsRecorded-row :
      (w : World) (s : Status)
      → last_of itx.from w ≡ some s
      → IsCoherent itx.from w
      → IsRecorded itx.from w
  IsRecorded-row w s h (inl e) = cc
  IsRecorded-row w s h (inr k) = k

  row-IsCoherent :
      (w : World) (o : Option Status)
      → last_of itx.from w ≡ o
      → ((s : Status) → o ≡ some s → s.address ≡ itx.from)
      → IsCoherent itx.from w
      → IsCoherent itx.from
          (process_known env itx call
            (row_or_generated env.mined itx.from w.db o).0
            (record w { db = (row_or_generated env.mined itx.from w.db o).1 })).1
  row-IsCoherent w none h at k =
      generated-IsCoherent w (last_for_address env.mined itx.from w.db.statuses) h
        (last_for_address-address env.mined itx.from w.db.statuses)
  row-IsCoherent w (some s) h at k = known-IsCoherent s w (at s refl) h (IsRecorded-row w s h k)

  cached-IsCoherent :
      (w : World) (o : Option Status)
      → o ≡ none
      → IsCoherent itx.from w
      → IsCoherent itx.from
          (process_known env itx call
            (cached_or_row env.mined itx.from w o).0
            (cached_or_row env.mined itx.from w o).1).1
  unfolding get_or_generate
  cached-IsCoherent w (some s) e k = cc
  cached-IsCoherent w none e k =
      row-IsCoherent w (last_of itx.from w) refl (status_of-address itx.from w.db.last_statuses) k

  status-IsCoherent :
      (w : World)
      → status_of itx.from w.cache ≡ none
      → IsCoherent itx.from w
      → IsCoherent itx.from (process_status env itx call w).1
  unfolding get_last_safe_status_for_address
  status-IsCoherent w e k = cached-IsCoherent w (status_of itx.from w.cache) e k

set_up-IsCoherent :
    (env : Env) (itx : InternalTx) (owners : List ℕ) (t : ℕ) (handler : Option ℕ) (w : World)
    → IsCoherent itx.from (set_up env itx owners t handler w)
unfolding set_up store_new_safe_status
set_up-IsCoherent env itx owners t handler w =
    let s : Status = new_status env itx owners t handler in
    inr (s, save_status_self s w.db.last_statuses, save_history_self s w.db.statuses)

process_named-IsCoherent :
    (env : Env) (itx : InternalTx) (call : Call) (w : World)
    → status_of itx.from w.cache ≡ none
    → IsCoherent itx.from w
    → IsCoherent itx.from (process_named env itx call w).1
process_named-IsCoherent env itx (setup owners t handler) w e k =
    elim (Bool-cases (itx.from == env.null_address)) [
      | inl b ↦ rw b (status-IsCoherent env itx (setup owners t handler) w e k)
      | inr b ↦ rw b (set_up-IsCoherent env itx owners t handler w)
    ]
process_named-IsCoherent env itx (add_owner_with_threshold owner t) w e k =
    status-IsCoherent env itx (add_owner_with_threshold owner t) w e k
process_named-IsCoherent env itx (remove_owner owner t) w e k =
    status-IsCoherent env itx (remove_owner owner t) w e k
process_named-IsCoherent env itx (swap_owner_call old new) w e k =
    status-IsCoherent env itx (swap_owner_call old new) w e k
process_named-IsCoherent env itx (change_threshold t) w e k =
    status-IsCoherent env itx (change_threshold t) w e k
process_named-IsCoherent env itx (change_master_copy copy) w e k =
    status-IsCoherent env itx (change_master_copy copy) w e k
process_named-IsCoherent env itx (set_fallback_handler f) w e k =
    status-IsCoherent env itx (set_fallback_handler f) w e k
process_named-IsCoherent env itx (set_guard g) w e k = status-IsCoherent env itx (set_guard g) w e k
process_named-IsCoherent env itx (set_module_guard g) w e k =
    status-IsCoherent env itx (set_module_guard g) w e k
process_named-IsCoherent env itx (enable_module m) w e k =
    status-IsCoherent env itx (enable_module m) w e k
process_named-IsCoherent env itx (disable_module_call m) w e k =
    status-IsCoherent env itx (disable_module_call m) w e k
process_named-IsCoherent env itx (exec_from_module args) w e k =
    status-IsCoherent env itx (exec_from_module args) w e k
process_named-IsCoherent env itx (approve_hash hash owner) w e k =
    status-IsCoherent env itx (approve_hash hash owner) w e k
process_named-IsCoherent env itx (exec_transaction_call args) w e k =
    status-IsCoherent env itx (exec_transaction_call args) w e k
process_named-IsCoherent env itx unknown w e k = status-IsCoherent env itx unknown w e k

process-IsCoherent :
    (env : Env) (dec : InternalTxDecoded) (w : World)
    → status_of dec.internal_tx.from w.cache ≡ none
    → IsCoherent dec.internal_tx.from w
    → IsCoherent dec.internal_tx.from (process env dec w).1
unfolding process
process-IsCoherent env dec w e k = elim (Bool-cases (ltb dec.internal_tx.gas_used 1000)) [
  | inl b ↦ rw b k
  | inr b ↦ rw b (process_named-IsCoherent env dec.internal_tx dec.call w e k)
]

finish-IsCoherent :
    (a : ℕ) (ids : List ℕ) (w : World) (out : Result Error Bool × World)
    → IsCoherent a w
    → IsCoherent a out.1
    → IsCoherent a (roll_back w.db ((mark_if_ok ids out).0, clear_of a (mark_if_ok ids out).1)).1
unfolding clear_cache
finish-IsCoherent a ids w (ok b, w') k k' = k'
finish-IsCoherent a ids w (raised e, w') k k' = k

-- `process_decoded_transaction` keeps the last status of its Safe in step with the history: if the
-- Safe had no last status or one whose history row is the same, it has so afterwards, whatever the
-- call and whether or not it raises.
pub process_decoded_transaction-IsCoherent :
    (env : Env) (dec : InternalTxDecoded) (w : World)
    → IsCoherent dec.internal_tx.from w
    → IsCoherent dec.internal_tx.from (process_decoded_transaction env dec w).1
unfolding process_decoded_transaction clear_cache
process_decoded_transaction-IsCoherent env dec w k =
    let a = dec.internal_tx.from in
    finish-IsCoherent a (dec.internal_tx.id ∷ []) w (process env dec (clear_of a w)) k
      (process-IsCoherent env dec (clear_of a w) (clear_of-cleared a w) k)
