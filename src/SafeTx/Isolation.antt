-- ===== src/SafeTx/Isolation.antt =====
-- Calls on one Safe and the last status of another (`SafeTxProcessor` of
-- safe_transaction_service/history/indexers/tx_processor.py).
use safe_transaction_service.Common.{
  ℕ, false, Option, none, some, List, [], ◌∷◌, ◌==◌, ◌≡◌, refl, sym, ◌∙◌, subst, arith, Bool-cases,
  inl, inr,
}
use safe_transaction_service.SafeTx.{
  Status, Field, owners_field, threshold_field, nonce_field, master_copy_field,
  fallback_handler_field, guard_field, module_guard_field, enabled_modules_field, World, Database,
  status_of, save_status, update_status, copy_field, copy_fields, save_fields, last_for_address,
  latest, later, store_new_safe_status, get_or_generate, generate, get_last_safe_status_for_address,
  row_or_generated, cached_or_row,
}

pub status_of-address :
    (a : ℕ) (ss : List Status) (s : Status) → status_of a ss ≡ some s → s.address ≡ a
unfolding status_of
status_of-address a [] s h = cc
status_of-address a (x ∷ ss) s h = ground (arith, status_of-address a ss s)

latest-address :
    (mined : ℕ → ℕ) (a : ℕ) (s : Status) (rest : Option Status)
    → s.address ≡ a
    → ((t : Status) → rest ≡ some t → t.address ≡ a)
    → (latest mined s rest).address ≡ a
latest-address mined a s none h k = h
latest-address mined a s (some t) h k = elim (Bool-cases (later mined t s)) [
  | inl e ↦ rw e (k t refl)
  | inr e ↦ rw e h
]

pub last_for_address-address :
    (mined : ℕ → ℕ) (a : ℕ) (ss : List Status) (s : Status)
    → last_for_address mined a ss ≡ some s
    → s.address ≡ a
unfolding last_for_address
last_for_address-address mined a [] s h = cc
last_for_address-address mined a (x ∷ ss) s h =
    let rest = last_for_address-address mined a ss in
    elim (Bool-cases (x.address == a)) [
      | inl e ↦
          let this = latest-address mined a x (last_for_address mined a ss) (ground arith) rest in
          ground arith
      | inr e ↦ rest s (ground arith)
    ]

save_status-other :
    (a : ℕ) (s : Status) (ss : List Status)
    → (s.address == a) ≡ false
    → status_of a (save_status s ss) ≡ status_of a ss
unfolding status_of save_status
save_status-other a s [] h = rw h refl
save_status-other a s (x ∷ ss) h = ground (arith, save_status-other a s ss h)

pub copy_fields-address :
    (fs : List Field) (s x : Status) → (copy_fields fs s x).address ≡ x.address
copy_fields-address [] s x = refl
copy_fields-address (f ∷ fs) s x =
    copy_field-address f s (copy_fields fs s x) ∙ copy_fields-address fs s x
  where
    copy_field-address : (f : Field) (s x : Status) → (copy_field f s x).address ≡ x.address
    copy_field-address owners_field s x = refl
    copy_field-address threshold_field s x = refl
    copy_field-address nonce_field s x = refl
    copy_field-address master_copy_field s x = refl
    copy_field-address fallback_handler_field s x = refl
    copy_field-address guard_field s x = refl
    copy_field-address module_guard_field s x = refl
    copy_field-address enabled_modules_field s x = refl

update_status-other :
    (a : ℕ) (fs : List Field) (s : Status) (ss : List Status)
    → (s.address == a) ≡ false
    → status_of a (update_status fs s ss) ≡ status_of a ss
unfolding status_of update_status
update_status-other a fs s [] h = refl
update_status-other a fs s (x ∷ ss) h =
    ground (arith, update_status-other a fs s ss h, copy_fields-address fs s x)

abbrev pub last_of : ℕ → World → Option Status
last_of a w = status_of a w.db.last_statuses

save_fields-other :
    (a : ℕ) (fs : List Field) (s : Status) (ss : List Status)
    → (s.address == a) ≡ false
    → status_of a (save_fields fs s ss) ≡ status_of a ss
save_fields-other a [] s ss h = save_status-other a s ss h
save_fields-other a (f ∷ fs) s ss h = update_status-other a (f ∷ fs) s ss h

pub store-other :
    (a : ℕ) (s : Status) (n : ℕ) (fs : List Field) (w : World)
    → (s.address == a) ≡ false
    → last_of a (store_new_safe_status s n fs w) ≡ last_of a w
unfolding store_new_safe_status
store-other a s n fs w h =
    save_fields-other a fs (record s { internal_tx = n }) w.db.last_statuses h

generate-other :
    (a : ℕ) (found : Option Status) (d : Database)
    → ((s : Status) → found ≡ some s → (s.address == a) ≡ false)
    → status_of a (generate found d).1.last_statuses ≡ status_of a d.last_statuses
unfolding generate
generate-other a none d h = refl
generate-other a (some s) d h = save_status-other a s d.last_statuses (h s refl)

-- A status that was found belongs to the Safe, and finding it left the other Safes alone.
abbrev pub IsFor : ℕ → ℕ → World → Option Status × World → Type 0
IsFor b a w (found, w') =
    ((s : Status) → found ≡ some s → s.address ≡ b) × (last_of a w' ≡ last_of a w)

generate-found : (o : Option Status) (d : Database) → (generate o d).0 ≡ o
unfolding generate
generate-found none d = refl
generate-found (some s) d = refl

module _ (mined : ℕ → ℕ) (b : ℕ) (a : ℕ) (b_other : (b == a) ≡ false) where
  row_or_generated-IsFor :
      (w : World) (o : Option Status)
      → status_of b w.db.last_statuses ≡ o
      → IsFor b a w
          (let (found, d) = row_or_generated mined b w.db o in (found, record w { db = d }))
  row_or_generated-IsFor w (some s) e =
      ((λ t h. status_of-address b w.db.last_statuses t (e ∙ h)), refl)
  row_or_generated-IsFor w none e =
      let made = last_for_address mined b w.db.statuses in
      let at = last_for_address-address mined b w.db.statuses in
      (
        (λ t h. at t (sym (generate-found made w.db) ∙ h)),
        generate-other a made w.db (λ t h. subst (λ n. (n == a) ≡ false) (sym (at t h)) b_other),
      )

  cached_or_row-IsFor :
      (w : World) (o : Option Status)
      → status_of b w.cache ≡ o
      → IsFor b a w (cached_or_row mined b w o)
  unfolding get_or_generate
  cached_or_row-IsFor w (some s) e = ((λ t h. status_of-address b w.cache t (e ∙ h)), refl)
  cached_or_row-IsFor w none e = row_or_generated-IsFor w (status_of b w.db.last_statuses) refl

  pub get_last-IsFor : (w : World) → IsFor b a w (get_last_safe_status_for_address mined b w)
  unfolding get_last_safe_status_for_address
  get_last-IsFor w = cached_or_row-IsFor w (status_of b w.cache) refl
