-- ===== src/Indexer/Complete.antt =====
-- `start` from its two queries to its two results.
use safe_transaction_service.Common.{
  ℕ, suc, ◌+◌, ◌≤◌, ◌<◌, ◌≡◌, refl, inl, inr, Bool, true, false, none, some, List, [], ◌∷◌, arith,
  subst, sym, ℤ, contains, select, All, Bool-cases, Option-cases, ==_self, leb, min,
}
use safe_transaction_service.Common.Result.{ok}
use safe_transaction_service.Indexer.Database.{
  Monitored, Addresses, filter_in, min_field, addresses_of, get_almost_updated_addresses,
  get_not_updated_addresses,
}
use safe_transaction_service.Indexer.Window.{Config}
use safe_transaction_service.Indexer.Process.{Indexer, Fetch}
use safe_transaction_service.Indexer.Start.{
  Totals, process_almost_updated, process_not_updated, number_of_blocks, greatest_last, start,
}
use safe_transaction_service.Indexer.Monitor.{AtLeast}
use safe_transaction_service.Indexer.Progress.{IsQuiet}
use safe_transaction_service.Indexer.Sync.{Rest, almost_loop-ok, not_updated_loop-ok}

abbrev LeastUpTo : Addresses → List Monitored → ℕ → Type 0
LeastUpTo addresses db n =
    (from : ℕ) × (min_field (filter_in addresses db) ≡ some from) × (from ≤ n)

least_here :
    (addresses : Addresses) (m : Monitored) (ms : List Monitored)
    → contains m.address addresses ≡ true
    → LeastUpTo addresses (m ∷ ms) m.block_number
least_here addresses m ms k = elim (Option-cases (min_field (filter_in addresses ms))) [
  | inl e ↦ (m.block_number, ground arith, omega arith)
  | inr (n, e) ↦ (min m.block_number n, ground arith, omega arith)
]

least_later :
    (addresses : Addresses) (m : Monitored) (ms : List Monitored) (n : ℕ)
    → LeastUpTo addresses ms n
    → LeastUpTo addresses (m ∷ ms) n
least_later addresses m ms n (from, e, h) = elim (Bool-cases (contains m.address addresses)) [
  | inl t ↦ (min m.block_number from, ground arith, omega arith)
  | inr t ↦ (from, ground arith, h)
]

-- A row that a query selects bounds the least block number of the selected addresses.
select_min :
    (p : Monitored → Bool) (addresses : Addresses) (db : List Monitored) {m : Monitored}
    {rest : List Monitored}
    → select p db ≡ m ∷ rest
    → contains m.address addresses ≡ true
    → LeastUpTo addresses db m.block_number × (p m ≡ true)
select_min p addresses [] e k = cc
select_min p addresses (x ∷ xs) {m} {rest} e k = elim (Bool-cases (p x)) [
  | inl t ↦
      let same : x ≡ m = ground arith in rw (← same) (least_here addresses x xs (rw same k), t)
  | inr t ↦
      let (least, passes) = select_min p addresses xs {m = m} {rest = rest} (rw t at e) k in
      (least_later addresses x xs m.block_number least, passes)
]

Rest-cons :
    (P : Monitored → Type 0) (a : ℕ) (addresses : Addresses) (db : List Monitored)
    → Rest P addresses db
    → Rest P (a ∷ addresses) db
Rest-cons P a addresses [] h = tt
Rest-cons P a addresses (m ∷ ms) h = (ground (arith, h.0), Rest-cons P a addresses ms h.1)

abbrev pub IsPast : Config → ℕ → Monitored → Type 0
IsPast c head m = head < m.block_number + c.confirmations

query_keeps :
    (c : Config) (head : ℕ) (m : Monitored) (ms : List Monitored)
    → leb (m.block_number + c.confirmations) head ≡ true
    → get_not_updated_addresses c.confirmations head (m ∷ ms)
      ≡ m.address ∷ get_not_updated_addresses c.confirmations head ms
unfolding get_not_updated_addresses
query_keeps c head m ms t = rw t

query_drops :
    (c : Config) (head : ℕ) (m : Monitored) (ms : List Monitored)
    → leb (m.block_number + c.confirmations) head ≡ false
    → get_not_updated_addresses c.confirmations head (m ∷ ms)
      ≡ get_not_updated_addresses c.confirmations head ms
unfolding get_not_updated_addresses
query_drops c head m ms t = rw t

-- The query of the not updated addresses leaves out only rows that have nothing left to scan.
Rest-not_updated :
    (c : Config) (head : ℕ) (db : List Monitored)
    → Rest (IsPast c head) (get_not_updated_addresses c.confirmations head db) db
Rest-not_updated c head [] = tt
Rest-not_updated c head (m ∷ ms) = elim (Bool-cases (leb (m.block_number + c.confirmations) head)) [
  | inl t ↦
      subst (λ addresses. Rest (IsPast c head) addresses (m ∷ ms)) (sym (query_keeps c head m ms t))
        (
          inl (rw (==_self m.address)),
          Rest-cons (IsPast c head) m.address (get_not_updated_addresses c.confirmations head ms) ms
              (Rest-not_updated c head ms),
        )
  | inr t ↦
      subst (λ addresses. Rest (IsPast c head) addresses (m ∷ ms)) (sym (query_drops c head m ms t))
        (inr (ground arith), Rest-not_updated c head ms)
]

All-of-Rest :
    (c : Config) (head k : ℕ) (addresses : Addresses) (db : List Monitored)
    → head < k + c.confirmations
    → AtLeast k (min_field (filter_in addresses db))
    → Rest (IsPast c head) addresses db
    → All (IsPast c head) db
All-of-Rest c head k addresses [] h a r = tt
All-of-Rest c head k addresses (m ∷ ms) h a r =
    ground (arith, r.0, All-of-Rest c head k addresses ms h)

filter_in_none : (db : List Monitored) → filter_in [] db ≡ []
filter_in_none [] = refl
filter_in_none (m ∷ ms) = filter_in_none ms

module _ (c : Config) (head : ℕ) (fetch : Fetch) (quiet : IsQuiet fetch) where
  -- The addresses of a query whose rows are behind the confirmations have a first block to scan.
  query_least :
      (p : Monitored → Bool) (db : List Monitored) (a : ℕ) (addresses : Addresses)
      → ((m : Monitored) → p m ≡ true → m.block_number + c.confirmations ≤ head)
      → addresses_of (select p db) ≡ a ∷ addresses
      → (from : ℕ) × (min_field (filter_in (a ∷ addresses) db) ≡ some from)
        × (from + c.confirmations ≤ head)
  query_least p db a addresses behind e = go (select p db) refl e
    where
      go :
          (rows : List Monitored)
          → select p db ≡ rows
          → addresses_of rows ≡ a ∷ addresses
          → (from : ℕ) × (min_field (filter_in (a ∷ addresses) db) ≡ some from)
            × (from + c.confirmations ≤ head)
      go [] s e = cc
      go (m ∷ rest) s e =
          let first : m.address ≡ a = ground arith in
          let found : contains m.address (a ∷ addresses) ≡ true = rw (first, ==_self a) in
          let (least, passes) = select_min p (a ∷ addresses) db {m = m} {rest = rest} s found in
          (least.0, least.1, omega (arith, behind m passes, least.2))

  almost_updated_ok :
      (fuel : ℕ) (addresses : Addresses) (s : Indexer)
      → head < fuel
      → 1 ≤ s.block_process_limit
      → get_almost_updated_addresses c.updated_blocks_behind c.confirmations head s.db ≡ addresses
      → (t : Totals) × (s' : Indexer) × (1 ≤ s'.block_process_limit)
        × (process_almost_updated c head fetch fuel addresses head s ≡ (ok t, s'))
  unfolding process_almost_updated get_almost_updated_addresses
  almost_updated_ok fuel [] s f room e =
      (record { processed = 0; start_block = none; last_block = none }, s, room, refl)
  almost_updated_ok fuel (a ∷ addresses) s f room e =
      let (from, least, h) = query_least _ s.db a addresses (λ m passes. ground arith) e in
      almost_loop-ok c head fetch quiet fuel a addresses
        (record { processed = 0; start_block = none; last_block = none }) from s room least h
        (omega arith)

  not_updated_least :
      (db : List Monitored) (a : ℕ) (addresses : Addresses)
      → get_not_updated_addresses c.confirmations head db ≡ a ∷ addresses
      → (from : ℕ) × (min_field (filter_in (a ∷ addresses) db) ≡ some from)
        × (from + c.confirmations ≤ head)
  unfolding get_not_updated_addresses
  not_updated_least db a addresses e = query_least _ db a addresses (λ m passes. ground arith) e

  not_updated_ok :
      (fuel : ℕ) (addresses : Addresses) (t : Totals) (s : Indexer)
      → head < fuel
      → 1 ≤ s.block_process_limit
      → get_not_updated_addresses c.confirmations head s.db ≡ addresses
      → (t' : Totals) × (s' : Indexer) × (All (IsPast c head) s'.db)
        × (process_not_updated c head fetch fuel addresses head t s ≡ (ok t', s'))
  unfolding process_not_updated
  not_updated_ok fuel [] t s f room e = (
    t,
    s,
    All-of-Rest c head (suc head) [] s.db (omega arith) (rw (filter_in_none s.db) tt)
        (subst (λ as'. Rest (IsPast c head) as' s.db) e (Rest-not_updated c head s.db)),
    refl,
  )
  not_updated_ok fuel (a ∷ addresses) t s f room e =
      let (from, least, h) = not_updated_least s.db a addresses e in
      let rest = subst (λ as'. Rest (IsPast c head) as' s.db) e (Rest-not_updated c head s.db) in
      let (r, s', synced, run) =
        not_updated_loop-ok c head fetch quiet (IsPast c head) fuel a addresses t.processed
          t.start_block from s room least h (omega arith) rest in
      let (k, e', past, rest') = synced in
      (
        record { processed = r.0; start_block = r.1; last_block = greatest_last t.last_block r.2 },
        s',
        All-of-Rest c head k (a ∷ addresses) s'.db past (subst (AtLeast k) (sym e') (omega arith))
            rest',
        rw run,
      )

  start_ok :
      (fuel : ℕ) (s : Indexer)
      → head < fuel
      → 1 ≤ s.block_process_limit
      → (r : ℕ × ℤ) × (s' : Indexer) × (start c head fetch fuel s ≡ (ok r, s'))
        × (All (IsPast c head) s'.db)
  unfolding start
  start_ok fuel s f room =
      let (t, s₁, room₁, run₁) = almost_updated_ok fuel _ s f room refl in
      let (t', s₂, past, run₂) = not_updated_ok fuel _ t s₁ f room₁ refl in
      ((t'.processed, number_of_blocks t'.start_block t'.last_block), s₂, rw (run₁, run₂), past)

-- With a limit of at least 1, over a network that answers every query and with no other writer to the
-- rows, `start` returns: it raises nothing, and as many rounds as the number of the chain's current
-- block, plus one, are enough for each of its loops. Afterwards every monitored row is past the last
-- block that is behind the confirmations.
pub start_syncs :
    (c : Config) (head fuel : ℕ) (fetch : Fetch) (s : Indexer)
    → IsQuiet fetch
    → head < fuel
    → 1 ≤ s.block_process_limit
    → (r : ℕ × ℤ) × (s' : Indexer) × (start c head fetch fuel s ≡ (ok r, s'))
      × (All (λ m. head < m.block_number + c.confirmations) s'.db)
start_syncs c head fuel fetch s quiet f room = start_ok c head fetch quiet fuel s f room
