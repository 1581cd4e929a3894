-- ===== src/SafeTx/Batch.antt =====
-- What a batch leaves: `process_decoded_transactions` of
-- safe_transaction_service/history/indexers/tx_processor.py.
use safe_transaction_service.Common.{
  ℕ, suc, Bool, true, false, none, List, [], ◌∷◌, ◌++◌, length, contains, All, ◌≡◌, refl, sym,
  subst, arith, Bool-cases, inl, inr,
}
use safe_transaction_service.Common.Result.{Result, ok, raised, ◌>>=◌, pure, continue}
use safe_transaction_service.SafeTx.{
  Env, Status, SafeContract, InternalTxDecoded, World, Error, owner_cannot_be_removed,
  module_cannot_be_disabled, cannot_find_previous_trace, rpc_error, status_of, without, clear_cache,
  process, process_one, process_each, process_decoded_transactions, is_banned, caught, clear_of,
  clear_each, ids_of, mark_if_ok, roll_back, set_processed,
}

-- The errors that end a batch.
abbrev pub is_fatal : Error → Bool
is_fatal owner_cannot_be_removed = false
is_fatal module_cannot_be_disabled = false
is_fatal cannot_find_previous_trace = true
is_fatal rpc_error = true

abbrev pub IsUncached : World → InternalTxDecoded → Type 0
IsUncached w dec = status_of dec.internal_tx.from w.cache ≡ none

status_of-without : (a : ℕ) (ss : List Status) → status_of a (without a ss) ≡ none
unfolding status_of without
status_of-without a [] = refl
status_of-without a (s ∷ ss) = ground (arith, status_of-without a ss)

status_of-without_keeps :
    (a b : ℕ) (ss : List Status) → status_of a ss ≡ none → status_of a (without b ss) ≡ none
unfolding status_of without
status_of-without_keeps a b [] h = refl
status_of-without_keeps a b (s ∷ ss) h = ground (arith, status_of-without_keeps a b ss)

clear_of-stays :
    (a b : ℕ) (w : World) → status_of a w.cache ≡ none → status_of a (clear_of b w).cache ≡ none
unfolding clear_cache
clear_of-stays a b w h = status_of-without_keeps a b w.cache h

pub clear_of-cleared : (a : ℕ) (w : World) → status_of a (clear_of a w).cache ≡ none
unfolding clear_cache
clear_of-cleared a w = status_of-without a w.cache

clear_each-stays :
    (a : ℕ) (decs : List InternalTxDecoded) (w : World)
    → status_of a w.cache ≡ none
    → status_of a (clear_each decs w).cache ≡ none
clear_each-stays a [] w h = h
clear_each-stays a (dec ∷ decs) w h =
    clear_each-stays a decs (clear_of dec.internal_tx.from w)
      (clear_of-stays a dec.internal_tx.from w h)

clear_each-cleared :
    (decs : List InternalTxDecoded) (w : World) → All (IsUncached (clear_each decs w)) decs
clear_each-cleared [] w = tt
clear_each-cleared (dec ∷ decs) w =
    let a = dec.internal_tx.from in
    (
      clear_each-stays a decs (clear_of a w) (clear_of-cleared a w),
      clear_each-cleared decs (clear_of a w),
    )

pub clear_each-db : (decs : List InternalTxDecoded) (w : World) → (clear_each decs w).db ≡ w.db
unfolding clear_cache
clear_each-db [] w = refl
clear_each-db (dec ∷ decs) w = clear_each-db decs (clear_of dec.internal_tx.from w)

abbrev IsProcessed : List ℕ → InternalTxDecoded → Type 0
IsProcessed ids dec = contains dec.internal_tx.id ids ≡ true

All-IsProcessed_later :
    (n : ℕ) (ids : List ℕ) (decs : List InternalTxDecoded)
    → All (IsProcessed ids) decs
    → All (IsProcessed (n ∷ ids)) decs
All-IsProcessed_later n ids [] h = tt
All-IsProcessed_later n ids (dec ∷ decs) (h, hs) =
    (ground arith, All-IsProcessed_later n ids decs hs)

All-IsProcessed :
    (decs : List InternalTxDecoded) (ids : List ℕ) → All (IsProcessed (ids_of decs ++ ids)) decs
All-IsProcessed [] ids = tt
All-IsProcessed (dec ∷ decs) ids = (
  ground arith,
  All-IsProcessed_later dec.internal_tx.id (ids_of decs ++ ids) decs (All-IsProcessed decs ids),
)

-- One result for each element, or a fatal error.
abbrev IsOutcome : ℕ → Result Error (List Bool) → Type 0
IsOutcome n (ok bs) = length bs ≡ n
IsOutcome n (raised e) = is_fatal e ≡ true

abbrev IsCaught : Result Error Bool → Type 0
IsCaught (ok b) = Unit
IsCaught (raised e) = is_fatal e ≡ true

caught-IsCaught : (r : Result Error Bool) → IsCaught (caught r)
caught-IsCaught (ok b) = tt
caught-IsCaught (raised owner_cannot_be_removed) = tt
caught-IsCaught (raised module_cannot_be_disabled) = tt
caught-IsCaught (raised cannot_find_previous_trace) = refl
caught-IsCaught (raised rpc_error) = refl

process_one-IsCaught :
    (env : Env) (cs : List SafeContract) (dec : InternalTxDecoded) (w : World)
    → IsCaught (process_one env cs dec w).0
unfolding process_one
process_one-IsCaught env cs dec w = elim (Bool-cases (is_banned cs dec.internal_tx.from)) [
  | inl t ↦ rw t tt
  | inr t ↦ rw t (caught-IsCaught (process env dec w).0)
]

extend-IsOutcome :
    (n : ℕ) (b : Bool) (rest : Result Error (List Bool) × World)
    → IsOutcome n rest.0
    → IsOutcome (suc n) (continue rest.0 (λ bs. pure (b ∷ bs)) rest.1).0
extend-IsOutcome n b (ok bs, w) h = ground arith
extend-IsOutcome n b (raised e, w) h = h

after_one-IsOutcome :
    (env : Env) (cs : List SafeContract) (decs : List InternalTxDecoded)
    (first : Result Error Bool × World)
    → IsCaught first.0
    → ((w : World) → IsOutcome (length decs) (process_each env cs decs w).0)
    → IsOutcome
        (suc (length decs))
        (continue first.0 (λ b. process_each env cs decs >>= λ bs. pure (b ∷ bs)) first.1).0
after_one-IsOutcome env cs decs (raised e, w) h rest = h
after_one-IsOutcome env cs decs (ok b, w) h rest =
    extend-IsOutcome (length decs) b (process_each env cs decs w) (rest w)

process_each-IsOutcome :
    (env : Env) (cs : List SafeContract) (decs : List InternalTxDecoded) (w : World)
    → IsOutcome (length decs) (process_each env cs decs w).0
unfolding process_each
process_each-IsOutcome env cs [] w = refl
process_each-IsOutcome env cs (dec ∷ decs) w =
    after_one-IsOutcome env cs decs (process_one env cs dec w) (process_one-IsCaught env cs dec w)
      (λ w'. process_each-IsOutcome env cs decs w')

-- After a batch no status of its Safes is cached. It returned one result for each element, and all of
-- them are marked as processed; or it raised a fatal error, and the database is as before.
abbrev pub IsSettled : List InternalTxDecoded → World → Result Error (List Bool) × World → Type 0
IsSettled decs w (ok bs, w') =
    (length bs ≡ length decs)
    × All (λ dec. contains dec.internal_tx.id w'.db.processed ≡ true) decs
    × All (IsUncached w') decs
IsSettled decs w (raised e, w') = (is_fatal e ≡ true) × (w'.db ≡ w.db) × All (IsUncached w') decs

settle-IsSettled :
    (decs : List InternalTxDecoded) (w : World) (out : Result Error (List Bool) × World)
    → IsOutcome (length decs) out.0
    → IsSettled decs w (
        roll_back w.db
          ((mark_if_ok (ids_of decs) out).0, clear_each decs (mark_if_ok (ids_of decs) out).1))
settle-IsSettled decs w (raised e, w') h = (h, refl, clear_each-cleared decs w')
settle-IsSettled decs w (ok bs, w') h =
    let marked = set_processed (ids_of decs) w' in
    (
      h,
      subst (λ d. All (λ dec. contains dec.internal_tx.id d.processed ≡ true) decs)
          (sym (clear_each-db decs marked)) (All-IsProcessed decs w'.db.processed),
      clear_each-cleared decs marked,
    )

-- Whatever the calls of a batch are, `process_decoded_transactions` settles it: no status of a Safe of
-- the batch is cached afterwards, and either it returned one result for each call, in a database where
-- all of them are processed, or it raised a missing trace or an error of the node, and the database
-- is as before.
pub process_decoded_transactions-IsSettled :
    (env : Env) (decs : List InternalTxDecoded) (w : World)
    → IsSettled decs w (process_decoded_transactions env decs w)
unfolding process_decoded_transactions clear_cache
process_decoded_transactions-IsSettled env [] w = (refl, tt, tt)
process_decoded_transactions-IsSettled env (dec ∷ decs) w =
    settle-IsSettled (dec ∷ decs) w (process_each env w.db.contracts (dec ∷ decs) w)
      (process_each-IsOutcome env w.db.contracts (dec ∷ decs) w)
