-- ===== src/SafeTx/Untouched.antt =====
-- Batches beside the last status of a Safe that they are not about, or that is banned
-- (`process_decoded_transactions` of safe_transaction_service/history/indexers/tx_processor.py).
use safe_transaction_service.Common.{
  ℕ, Bool, false, not, ◌&&◌, List, [], ◌∷◌, ◌==◌, All, ◌≡◌, refl, ap, ◌∙◌, arith, Bool-cases, inl,
  inr, ltb,
}
use safe_transaction_service.Common.Result.{Result, ok, raised, ◌>>=◌, pure, continue}
use safe_transaction_service.SafeTx.{
  Env, SafeContract, InternalTxDecoded, World, Error, status_of, clear_cache, process, process_one,
  process_each, process_decoded_transactions, is_banned, clear_each, ids_of, mark_if_ok, roll_back,
}
use safe_transaction_service.SafeTx.Isolation.{last_of}
use safe_transaction_service.SafeTx.Batch.{clear_each-db}
use safe_transaction_service.SafeTx.Separate.{process_named-kept}

process-kept :
    (a : ℕ) (env : Env) (dec : InternalTxDecoded) (w : World)
    → (dec.internal_tx.from == a) ≡ false
    → last_of a (process env dec w).1 ≡ last_of a w
unfolding process
process-kept a env dec w h = elim (Bool-cases (ltb dec.internal_tx.gas_used 1000)) [
  | inl e ↦ rw e refl
  | inr e ↦ rw e (process_named-kept a env dec.internal_tx dec.call w h)
]

-- The call is on another Safe, or on a banned one.
abbrev pub IsElsewhere : List SafeContract → ℕ → InternalTxDecoded → Type 0
IsElsewhere cs a dec =
    (dec.internal_tx.from == a && not (is_banned cs dec.internal_tx.from)) ≡ false

process_one-kept :
    (a : ℕ) (env : Env) (cs : List SafeContract) (dec : InternalTxDecoded) (w : World)
    → IsElsewhere cs a dec
    → last_of a (process_one env cs dec w).1 ≡ last_of a w
unfolding process_one
process_one-kept a env cs dec w h = elim (Bool-cases (is_banned cs dec.internal_tx.from)) [
  | inl e ↦ rw e refl
  | inr e ↦ rw e (process-kept a env dec w (ground arith))
]

after_one-kept :
    (a : ℕ) (env : Env) (cs : List SafeContract) (decs : List InternalTxDecoded) (w : World)
    (first : Result Error Bool × World)
    → last_of a first.1 ≡ last_of a w
    → ((w' : World) → last_of a (process_each env cs decs w').1 ≡ last_of a w')
    → last_of a (continue first.0 (λ b. process_each env cs decs >>= λ bs. pure (b ∷ bs)) first.1).1
      ≡ last_of a w
after_one-kept a env cs decs w (raised e, w') h rest = h
after_one-kept a env cs decs w (ok b, w') h rest =
    extend-kept (process_each env cs decs w') ∙ rest w' ∙ h
  where
    extend-kept :
        (out : Result Error (List Bool) × World)
        → last_of a (continue out.0 (λ bs. pure (b ∷ bs)) out.1).1 ≡ last_of a out.1
    extend-kept (ok bs, w2) = refl
    extend-kept (raised e, w2) = refl

process_each-kept :
    (a : ℕ) (env : Env) (cs : List SafeContract) (decs : List InternalTxDecoded) (w : World)
    → All (IsElsewhere cs a) decs
    → last_of a (process_each env cs decs w).1 ≡ last_of a w
unfolding process_each
process_each-kept a env cs [] w h = refl
process_each-kept a env cs (dec ∷ decs) w (h, hs) =
    after_one-kept a env cs decs w (process_one env cs dec w) (process_one-kept a env cs dec w h)
      (λ w'. process_each-kept a env cs decs w' hs)

settle-kept :
    (a : ℕ) (decs : List InternalTxDecoded) (w : World) (out : Result Error (List Bool) × World)
    → last_of a out.1 ≡ last_of a w
    → last_of a
        (roll_back w.db
          ((mark_if_ok (ids_of decs) out).0, clear_each decs (mark_if_ok (ids_of decs) out).1)).1
      ≡ last_of a w
settle-kept a decs w (raised e, w') h = refl
settle-kept a decs w (ok bs, w') h =
    ap (λ d. status_of a d.last_statuses) (clear_each-db decs _) ∙ h

-- A batch whose calls are all on other Safes, or on a Safe that is banned when the batch starts, leaves
-- the last status of a Safe as it is, whichever of the calls fail.
pub process_decoded_transactions-kept :
    (a : ℕ) (env : Env) (decs : List InternalTxDecoded) (w : World)
    → All (IsElsewhere w.db.contracts a) decs
    → last_of a (process_decoded_transactions env decs w).1 ≡ last_of a w
unfolding process_decoded_transactions clear_cache
process_decoded_transactions-kept a env [] w h = refl
process_decoded_transactions-kept a env (dec ∷ decs) w h =
    settle-kept a (dec ∷ decs) w (process_each env w.db.contracts (dec ∷ decs) w)
      (process_each-kept a env w.db.contracts (dec ∷ decs) w h)
