-- ===== src/Reorg/Reset.antt =====
-- What `recover_from_reorg` leaves behind.
use safe_transaction_service.Common.{
  ℕ, ◌-◌, ◌<◌, ◌≡◌, refl, ◌⊎◌, inl, inr, true, false, not, Option, none, some, List, [], ◌∷◌, arith,
  leb, ltb, All, Bool-cases, Option-cases, select, map, min, max, contains,
}
use safe_transaction_service.Reorg.Database.{Block, EthereumTx, MultisigTx, Tables, ReorgService}
use safe_transaction_service.Reorg.Recover.{
  is_after, update_where, in_blocks_from, hashes_of, detach, clear_execution, recover_from_reorg,
}

-- A block number that is moved back to a bound, if it is past it.
abbrev pub lowered : ℕ → Option ℕ → Option ℕ
lowered n none = none
lowered n (some m) = some (min m n)

update_where-lowered :
    (n : ℕ) (rows : List (Option ℕ))
    → update_where (is_after n) (some n) rows ≡ map (lowered n) rows
unfolding update_where
update_where-lowered n [] = refl
update_where-lowered n (none ∷ rows) = rw (update_where-lowered n rows)
update_where-lowered n (some m ∷ rows) = ground (arith, update_where-lowered n rows)

update_where-min : (n : ℕ) (rows : List ℕ) → update_where (leb n) n rows ≡ map (λ m. min m n) rows
unfolding update_where
update_where-min n [] = refl
update_where-min n (m ∷ rows) = ground (arith, update_where-min n rows)

-- A multisig transaction whose execution is known to the database, or that carries no result.
abbrev pub IsConsistent : List EthereumTx → MultisigTx → Type 0
IsConsistent deleted m =
    ((m.ethereum_tx ≡ none) × (m.failed ≡ none))
    ⊎ ((hash : ℕ) × (m.ethereum_tx ≡ some hash) × (contains hash (hashes_of deleted) ≡ false))

clear-detach-IsConsistent :
    (deleted : List EthereumTx) (m : MultisigTx)
    → IsConsistent deleted (clear_execution (detach (hashes_of deleted) m))
clear-detach-IsConsistent deleted m = elim (Option-cases m.ethereum_tx) [
  | inl e ↦ inl (ground arith, ground arith)
  | inr (hash, e) ↦ elim (Bool-cases (contains hash (hashes_of deleted))) [
    | inl gone ↦ inl (ground arith, ground arith)
    | inr kept ↦ inr (hash, ground arith, kept)
  ]
]

multisigs-IsConsistent :
    (deleted : List EthereumTx) (ms : List MultisigTx)
    → All (IsConsistent deleted) (map clear_execution (map (detach (hashes_of deleted)) ms))
multisigs-IsConsistent deleted [] = tt
multisigs-IsConsistent deleted (m ∷ ms) =
    (clear-detach-IsConsistent deleted m, multisigs-IsConsistent deleted ms)

kept_blocks :
    (n : ℕ) (bs : List Block)
    → (select (λ b. not (leb n b.number)) bs ≡ select (λ b. ltb b.number n) bs)
      × (All (λ b. b.number < n) (select (λ b. not (leb n b.number)) bs))
kept_blocks n [] = (refl, tt)
kept_blocks n (b ∷ bs) = elim (Bool-cases (leb n b.number)) [
  | inl t ↦ let later : ltb b.number n ≡ false = ground arith in rw (t, later) (kept_blocks n bs)
  | inr t ↦
      let earlier : ltb b.number n ≡ true = ground arith in
      let (same, below) = kept_blocks n bs in rw (t, earlier) (rw same, (ground arith, below))
]

-- The tables after a recovery from a reorganisation at block `n`, with `safe` the block to index from.
pub record IsRecovered (safe n : ℕ) (t t' : Tables) : Type 0 where
  -- The blocks from `n` on are gone, and all earlier blocks are left.
  pub blocks : t'.blocks ≡ select (λ b. ltb b.number n) t.blocks
  pub before : All (λ b. b.number < n) t'.blocks
  -- Every indexing position past the safe block is moved back to it; no other is moved.
  pub factories : t'.proxy_factories ≡ map (lowered safe) t.proxy_factories
  pub copies : t'.master_copies ≡ map (lowered safe) t.master_copies
  pub status : t'.erc20_721_status ≡ map (λ m. min m safe) t.erc20_721_status
  -- The transactions of the deleted blocks are gone.
  pub txs : t'.ethereum_txs ≡ select (λ tx. not (in_blocks_from n tx)) t.ethereum_txs
  -- A multisig transaction has no result without an execution, and none refers to a deleted one.
  pub multisigs : All (IsConsistent (select (in_blocks_from n) t.ethereum_txs)) t'.multisig_txs

-- `recover_from_reorg` at block `n` deletes exactly the blocks from `n` on, with their transactions;
-- moves exactly the indexing positions past `n - eth_reorg_rewind_blocks` (or past 0, where that is
-- negative) back to it; and leaves no multisig transaction that refers to a deleted transaction, or
-- that has a result without an execution.
pub recover_from_reorg-IsRecovered :
    (service : ReorgService) (n : ℕ) (t : Tables)
    → IsRecovered (n - service.eth_reorg_rewind_blocks) n t (recover_from_reorg service n t).1
unfolding recover_from_reorg
recover_from_reorg-IsRecovered service n t =
    let safe : ℕ = n - service.eth_reorg_rewind_blocks in
    let same : max safe 0 ≡ safe = omega arith in
    let (kept, below) = kept_blocks n t.blocks in
    record {
      blocks = kept;
      before = below;
      factories = rw same (update_where-lowered safe t.proxy_factories);
      copies = rw same (update_where-lowered safe t.master_copies);
      status = rw same (update_where-min safe t.erc20_721_status);
      txs = refl;
      multisigs = multisigs-IsConsistent (select (in_blocks_from n) t.ethereum_txs) t.multisig_txs;
    }
