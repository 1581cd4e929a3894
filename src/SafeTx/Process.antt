-- ===== src/SafeTx/Process.antt =====
-- One decoded call, and the batch (`__process_decoded_transaction`, `process_decoded_transaction` and
-- `process_decoded_transactions` of safe_transaction_service/history/indexers/tx_processor.py).
use safe_transaction_service.Common.{
  ℕ, zero, suc, Bool, true, false, Option, none, some, List, [], ◌∷◌, ◌++◌, ltb, ◌==◌,
  if◌then◌else◌,
}
use safe_transaction_service.Common.Result.{Result, ok, raised, Action, ◌>>=◌, pure}
use safe_transaction_service.SafeTx.Types.{
  InternalTx, Call, setup, add_owner_with_threshold, remove_owner, swap_owner_call,
  change_threshold, change_master_copy, set_fallback_handler, set_guard, set_module_guard,
  enable_module, disable_module_call, exec_from_module, approve_hash, exec_transaction_call,
  unknown, InternalTxDecoded, Status, Field, owners_field, threshold_field, master_copy_field,
  fallback_handler_field, guard_field, module_guard_field, enabled_modules_field, SafeContract,
  Database, World, Error, owner_cannot_be_removed, module_cannot_be_disabled,
  cannot_find_previous_trace, rpc_error,
}
use safe_transaction_service.SafeTx.Queries.{index_safe, is_banned, delete_queued}
use safe_transaction_service.SafeTx.Last.{
  Version, is_version_breaking_signatures, clear_cache, assign_status,
  get_last_safe_status_for_address, store_new_safe_status, swap_owner, disable_module,
}
use safe_transaction_service.SafeTx.Execution.{Env, or_else, exec_transaction}
use safe_transaction_service.SafeTx.Callers.{exec_transaction_from_module, approve}

-- `new or old` for a threshold.
abbrev pub or_threshold : ℕ → ℕ → ℕ
or_threshold zero old = old
or_threshold (suc n) old = suc n

-- `setup` of a Safe.
abbrev pub new_status : Env → InternalTx → List ℕ → ℕ → Option ℕ → Status
new_status env itx owners threshold fallback_handler = record {
  internal_tx = itx.id;
  address = itx.from;
  owners = owners;
  threshold = threshold;
  nonce = 0;
  master_copy = itx.to;
  fallback_handler = or_else fallback_handler env.null_address;
  guard = none;
  module_guard = none;
  enabled_modules = [];
}

unfoldable pub set_up : Env → InternalTx → List ℕ → ℕ → Option ℕ → World → World
unfolding index_safe store_new_safe_status
set_up env itx owners threshold fallback_handler w =
    store_new_safe_status (new_status env itx owners threshold fallback_handler) itx.id []
      (record w {
        db = record w.db { contracts = index_safe itx.from itx.ethereum_tx.tx_hash w.db.contracts };
      })

-- A changed status is assigned and stored.
abbrev pub store_assigned : InternalTx → List Field → Status → World → World
store_assigned itx fields s w = store_new_safe_status s itx.id fields (assign_status s w)

abbrev pub store_true : InternalTx → List Field → Status → Action World Error Bool
store_true itx fields s w = (ok true, store_new_safe_status s itx.id fields w)

abbrev pub guard_of : Env → ℕ → Option ℕ
guard_of env g = if g == env.null_address then none else some g

-- Both versions are known, and signatures of one are not valid for the other.
abbrev pub breaks : Option Version → Option Version → Bool
breaks (some old) (some new) = is_version_breaking_signatures old new
breaks _ _ = false

abbrev pub drop_queued_if : Bool → ℕ → World → World
drop_queued_if true safe w = record w { db = delete_queued safe w.db }
drop_queued_if false safe w = w

unfoldable pub change_copy : Env → InternalTx → Status → ℕ → World → World
unfolding is_version_breaking_signatures delete_queued assign_status store_new_safe_status
change_copy env itx s copy w =
    let s' = record s { master_copy = copy } in
    let w1 = assign_status s' w in
    store_new_safe_status s' itx.id (master_copy_field ∷ [])
      (drop_queued_if (breaks (env.version_of s.master_copy) (env.version_of copy)) itx.from w1)

-- `removeOwner`: the threshold is assigned before the owner is looked for.
unfoldable pub take_owner : InternalTx → Status → ℕ → ℕ → Action World Error Bool
unfolding assign_status swap_owner store_new_safe_status
take_owner itx s owner threshold w =
    let s' = record s { threshold = or_threshold threshold s.threshold } in
    (swap_owner itx.from s' owner none >>= λ t.
    store_true itx (owners_field ∷ threshold_field ∷ []) t)
      (assign_status s' w)

-- A call on a Safe with a status.
unfoldable pub process_call : Env → InternalTx → Status → Call → Action World Error Bool
unfolding assign_status store_new_safe_status swap_owner disable_module change_copy take_owner
    exec_transaction exec_transaction_from_module approve
process_call env itx s (setup owners t handler) w = (ok false, w)
process_call env itx s (add_owner_with_threshold owner t) w = (
  ok true,
  store_assigned itx (owners_field ∷ threshold_field ∷ [])
      (record s { owners = owner ∷ s.owners; threshold = or_threshold t s.threshold }) w,
)
process_call env itx s (remove_owner owner t) w = take_owner itx s owner t w
process_call env itx s (swap_owner_call old new) w =
    (swap_owner itx.from s old (some new) >>= λ t. store_true itx (owners_field ∷ []) t) w
process_call env itx s (change_threshold t) w =
    (ok true, store_assigned itx (threshold_field ∷ []) (record s { threshold = t }) w)
process_call env itx s (change_master_copy copy) w = (ok true, change_copy env itx s copy w)
process_call env itx s (set_fallback_handler h) w = (
  ok true,
  store_assigned itx (fallback_handler_field ∷ []) (record s { fallback_handler = h }) w,
)
process_call env itx s (set_guard g) w =
    (ok true, store_assigned itx (guard_field ∷ []) (record s { guard = guard_of env g }) w)
process_call env itx s (set_module_guard g) w = (
  ok true,
  store_assigned itx (module_guard_field ∷ []) (record s { module_guard = guard_of env g }) w,
)
process_call env itx s (enable_module m) w = (
  ok true,
  store_assigned itx (enabled_modules_field ∷ [])
      (record s { enabled_modules = s.enabled_modules ++ m ∷ [] }) w,
)
process_call env itx s (disable_module_call m) w =
    (disable_module s m >>= λ t. store_true itx (enabled_modules_field ∷ []) t) w
process_call env itx s (exec_from_module args) w = exec_transaction_from_module env itx args w
process_call env itx s (approve_hash hash owner) w = approve env itx hash owner w
process_call env itx s (exec_transaction_call args) w = (ok true, exec_transaction env s itx args w)
process_call env itx s unknown w = (ok false, w)

-- Without a status the call is not processed.
abbrev pub process_known : Env → InternalTx → Call → Option Status → Action World Error Bool
process_known env itx call none w = (ok false, w)
process_known env itx call (some s) w = process_call env itx s call w

abbrev pub process_status : Env → InternalTx → Call → Action World Error Bool
process_status env itx call w =
    let (found, w') = get_last_safe_status_for_address env.mined itx.from w in
    process_known env itx call found w'

-- A `setup` of any but the null address makes a status; all else needs one.
abbrev pub process_named : Env → InternalTx → Call → Action World Error Bool
process_named env itx (setup owners t handler) w =
    if itx.from == env.null_address
    then process_status env itx (setup owners t handler) w
    else (ok true, set_up env itx owners t handler w)
process_named env itx call w = process_status env itx call w

unfoldable pub process : Env → InternalTxDecoded → Action World Error Bool
unfolding get_last_safe_status_for_address process_call set_up
process env dec w =
    if ltb dec.internal_tx.gas_used 1000
    then (ok false, w)
    else process_named env dec.internal_tx dec.call w

-- `transaction.atomic`: the database is as before if the call raises.
abbrev pub roll_back : {A : Type 0} → Database → Result Error A × World → Result Error A × World
roll_back d (ok a, w) = (ok a, w)
roll_back d (raised e, w) = (raised e, record w { db = d })

abbrev pub clear_of : ℕ → World → World
clear_of a w = (clear_cache (some a) w).1

abbrev pub set_processed : List ℕ → World → World
set_processed ids w = record w { db = record w.db { processed = ids ++ w.db.processed } }

abbrev pub mark_if_ok : List ℕ → {A : Type 0} → Result Error A × World → Result Error A × World
mark_if_ok ids (ok a, w) = (ok a, set_processed ids w)
mark_if_ok ids (raised e, w) = (raised e, w)

unfoldable pub process_decoded_transaction : Env → InternalTxDecoded → Action World Error Bool
unfolding clear_cache process
process_decoded_transaction env dec w =
    let a = dec.internal_tx.from in
    let (r, w') = mark_if_ok (dec.internal_tx.id ∷ []) (process env dec (clear_of a w)) in
    roll_back w.db (r, clear_of a w')

-- An error of one element: only a missing trace, and what is no `TxProcessorException`, ends the batch.
abbrev pub caught : Result Error Bool → Result Error Bool
caught (ok b) = ok b
caught (raised owner_cannot_be_removed) = ok false
caught (raised module_cannot_be_disabled) = ok false
caught (raised cannot_find_previous_trace) = raised cannot_find_previous_trace
caught (raised rpc_error) = raised rpc_error

unfoldable pub process_one : Env → List SafeContract → InternalTxDecoded → Action World Error Bool
unfolding process
process_one env contracts dec w =
    if is_banned contracts dec.internal_tx.from
    then (ok false, w)
    else (let (r, w') = process env dec w in (caught r, w'))

unfoldable pub process_each :
    Env → List SafeContract → List InternalTxDecoded → Action World Error (List Bool)
unfolding process_one
process_each env contracts [] w = (ok [], w)
process_each env contracts (dec ∷ decs) w =
    (process_one env contracts dec >>= λ b. process_each env contracts decs >>= λ bs. pure (b ∷ bs))
      w

abbrev pub clear_each : List InternalTxDecoded → World → World
clear_each [] w = w
clear_each (dec ∷ decs) w = clear_each decs (clear_of dec.internal_tx.from w)

abbrev pub ids_of : List InternalTxDecoded → List ℕ
ids_of [] = []
ids_of (dec ∷ decs) = dec.internal_tx.id ∷ ids_of decs

unfoldable pub process_decoded_transactions :
    Env → List InternalTxDecoded → Action World Error (List Bool)
unfolding clear_cache process_each
process_decoded_transactions env [] w = (ok [], w)
process_decoded_transactions env (dec ∷ decs) w =
    let all = dec ∷ decs in
    let (r, w') = mark_if_ok (ids_of all) (process_each env w.db.contracts all w) in
    roll_back w.db (r, clear_each all w')
