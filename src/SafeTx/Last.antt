-- ===== src/SafeTx/Last.antt =====
-- The last status of a Safe: the cache, the changes of owners and modules, and the versions of the master
-- copies (safe_transaction_service/history/indexers/tx_processor.py).
--
-- The object of a Safe in `safe_last_status_cache` is shared: an assignment to a status that came out of
-- the cache changes the cache at once, whether or not the status is stored later (`assign_status`).
use safe_transaction_service.Common.{
  ℕ, Bool, true, false, not, ◌&&◌, ◌||◌, Option, none, some, List, [], ◌∷◌, ltb, ◌==◌,
  if◌then◌else◌, contains, select,
}
use safe_transaction_service.Common.Result.{Action, ok, raised}
use safe_transaction_service.SafeTx.Types.{
  Status, Field, Database, World, Error, owner_cannot_be_removed, module_cannot_be_disabled,
}
use safe_transaction_service.SafeTx.Queries.{
  status_of, save_status, save_history, update_status, last_for_address, remove_delegates,
  remove_unused_confirmations, is_null,
}

-- `clear_cache`: all of it, or one Safe.
unfoldable pub without : ℕ → List Status → List Status
without a [] = []
without a (s ∷ ss) = let rest = without a ss in if s.address == a then rest else s ∷ rest

unfoldable pub clear_cache : Option ℕ → World → Bool × World
unfolding status_of without
clear_cache none w = (true, record w { cache = [] })
clear_cache (some a) w =
    (not (is_null (status_of a w.cache)), record w { cache = without a w.cache })

-- A status that is written back to the cache, if its Safe is there.
unfoldable pub replace_status : Status → List Status → List Status
replace_status s [] = []
replace_status s (x ∷ xs) = if x.address == s.address then s ∷ xs else x ∷ replace_status s xs

unfoldable pub assign_status : Status → World → World
unfolding replace_status
assign_status s w = record w { cache = replace_status s w.cache }

-- `SafeLastStatusManager.get_or_generate`: the row, or one made from the history. The new row is saved,
-- and the signal of that saves its history row.
unfoldable pub generate : Option Status → Database → Option Status × Database
unfolding save_status save_history
generate none d = (none, d)
generate (some s) d = (
  some s,
  record d { last_statuses = save_status s d.last_statuses; statuses = save_history s d.statuses },
)

abbrev pub row_or_generated : (ℕ → ℕ) → ℕ → Database → Option Status → Option Status × Database
row_or_generated mined a d (some s) = (some s, d)
row_or_generated mined a d none = generate (last_for_address mined a d.statuses) d

unfoldable pub get_or_generate : (ℕ → ℕ) → ℕ → Database → Option Status × Database
unfolding status_of generate last_for_address
get_or_generate mined a d = row_or_generated mined a d (status_of a d.last_statuses)

abbrev pub cached_or_row : (ℕ → ℕ) → ℕ → World → Option Status → Option Status × World
cached_or_row mined a w (some s) = (some s, w)
cached_or_row mined a w none =
    let (found, d) = get_or_generate mined a w.db in (found, record w { db = d })

unfoldable pub get_last_safe_status_for_address : (ℕ → ℕ) → ℕ → World → Option Status × World
unfolding status_of get_or_generate
get_last_safe_status_for_address mined a w = cached_or_row mined a w (status_of a w.cache)

abbrev pub save_fields : List Field → Status → List Status → List Status
save_fields [] s rows = save_status s rows
save_fields (f ∷ fs) s rows = update_status (f ∷ fs) s rows

-- `store_new_safe_status`, with the history row that the signal of `save` adds, from all fields.
unfoldable pub store_new_safe_status : Status → ℕ → List Field → World → World
unfolding save_status update_status save_history
store_new_safe_status s internal_tx fields w =
    let s' = record s { internal_tx = internal_tx } in
    record {
      db = record w.db {
        last_statuses = save_fields fields s' w.db.last_statuses;
        statuses = save_history s' w.db.statuses;
      };
      cache = save_status s' w.cache;
    }

-- A base version of a Safe contract.
pub record Version : Type 0 where
  pub major : ℕ
  pub minor : ℕ
  pub patch : ℕ

unfoldable pub version_lt : Version → Version → Bool
version_lt v w =
    ltb v.major w.major
    || (v.major == w.major && (ltb v.minor w.minor || (v.minor == w.minor && ltb v.patch w.patch)))

abbrev pub breaking_versions : List Version
breaking_versions =
    record { major = 1; minor = 0; patch = 0 } ∷ record { major = 1; minor = 3; patch = 0 } ∷ []

-- `old < breaking <= new` for one of the breaking versions.
unfoldable pub crosses : Version → Version → List Version → Bool
unfolding version_lt
crosses old new [] = false
crosses old new (b ∷ bs) = (version_lt old b && not (version_lt new b)) || crosses old new bs

unfoldable pub is_version_breaking_signatures : Version → Version → Bool
unfolding crosses version_lt
is_version_breaking_signatures old new =
    if version_lt new old
    then crosses new old breaking_versions
    else crosses old new breaking_versions

-- `list.remove`
unfoldable pub remove_first : ℕ → List ℕ → List ℕ
remove_first a [] = []
remove_first a (x ∷ xs) = if a == x then xs else x ∷ remove_first a xs

unfoldable pub replace_owner : ℕ → ℕ → List ℕ → List ℕ
replace_owner owner new [] = []
replace_owner owner new (x ∷ xs) = (if x == owner then new else x) ∷ replace_owner owner new xs

abbrev pub lists_eq : List ℕ → List ℕ → Bool
lists_eq [] [] = true
lists_eq [] (y ∷ ys) = false
lists_eq (x ∷ xs) [] = false
lists_eq (x ∷ xs) (y ∷ ys) = x == y && lists_eq xs ys

-- The owners after the swap, and whether the delegates of the owner are removed.
unfoldable pub swapped_owners : ℕ → Option ℕ → List ℕ → List ℕ × Bool
unfolding remove_first replace_owner
swapped_owners owner none owners = (remove_first owner owners, true)
swapped_owners owner (some new) owners =
    let owners' = replace_owner owner new owners in (owners', not (lists_eq owners owners'))

-- The rows that a removed owner leaves behind: delegates for the Safe, confirmations of the pending
-- transactions, and the confirmations of messages.
unfoldable pub forget_owner : ℕ → Status → ℕ → Bool → Database → Database
unfolding remove_delegates
forget_owner safe s owner delegates_too d = record d {
  delegates = (if delegates_too then remove_delegates s.address owner d.delegates else d.delegates);
  confirmations = remove_unused_confirmations safe s.nonce owner d.multisig_txs d.confirmations;
  message_confirmations = select (λ p. not (p.1 == owner)) d.message_confirmations;
}

-- The status with the new owners.
unfoldable pub swap_owner : ℕ → Status → ℕ → Option ℕ → Action World Error Status
unfolding swapped_owners forget_owner assign_status
swap_owner contract_address s owner new w =
    if contains owner s.owners
    then (let (owners', delegates_too) = swapped_owners owner new s.owners in
        let s' = record s { owners = owners' } in
        let w' = assign_status s' w in
        (ok s', record w' { db = forget_owner contract_address s owner delegates_too w'.db }))
    else (raised owner_cannot_be_removed, w)

unfoldable pub disable_module : Status → ℕ → Action World Error Status
unfolding remove_first assign_status
disable_module s m w =
    if contains m s.enabled_modules
    then (let s' = record s { enabled_modules = remove_first m s.enabled_modules } in
        (ok s', assign_status s' w))
    else (raised module_cannot_be_disabled, w)
