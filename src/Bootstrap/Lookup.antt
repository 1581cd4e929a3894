-- ===== src/Bootstrap/Lookup.antt =====
-- Rows found after a change of a row (safe_transaction_service/analytics/bootstrap/bookkeeping.py).
use safe_transaction_service.Common.{
  ℕ, ◌≡◌, refl, sym, ap, inl, inr, Bool, true, false, not, ◌&&◌, ◌||◌, Option, none, some, List, [],
  ◌∷◌, arith, if◌then◌else◌, Bool-cases,
}
use safe_transaction_service.Bootstrap.{
  StageName, daily, native, erc20, same_name, StageRow, fresh_row, peek_stage_row, save_stage_row,
  find_stage_row, row_complete, all_complete, bootstrap_complete, row_reports_gave_up, is_outgrown,
  reopen_row, row_reports_done, is_terminal, is_set, is_shallow, is_deep,
}

pub same_name_self : (n : StageName) → same_name n n ≡ true
same_name_self daily = refl
same_name_self native = refl
same_name_self erc20 = refl

pub same_name_sound : (n m : StageName) → same_name n m ≡ true → n ≡ m
same_name_sound daily daily h = refl
same_name_sound native native h = refl
same_name_sound erc20 erc20 h = refl
same_name_sound daily native h = cc
same_name_sound daily erc20 h = cc
same_name_sound native daily h = cc
same_name_sound native erc20 h = cc
same_name_sound erc20 daily h = cc
same_name_sound erc20 native h = cc

-- A change that keeps the name of a row.
abbrev pub KeepsName : (StageRow → StageRow) → Type 0
KeepsName f = (r : StageRow) → (f r).name ≡ r.name

pub peek-name : (n : StageName) (rows : List StageRow) → (peek_stage_row n rows).name ≡ n
unfolding peek_stage_row
peek-name n [] = refl
peek-name n (r ∷ rows) = elim (Bool-cases (same_name r.name n)) [
  | inl e ↦ rw e (same_name_sound r.name n e)
  | inr e ↦ rw e (peek-name n rows)
]

pub peek-save_self :
    (n : StageName) (f : StageRow → StageRow) (rows : List StageRow)
    → KeepsName f
    → peek_stage_row n (save_stage_row n f rows) ≡ f (peek_stage_row n rows)
unfolding peek_stage_row save_stage_row
peek-save_self n f [] keeps = rw (keeps (fresh_row n), same_name_self n) refl
peek-save_self n f (r ∷ rows) keeps = elim (Bool-cases (same_name r.name n)) [
  | inl e ↦ rw (e, keeps r, e) refl
  | inr e ↦ rw (e, e) (peek-save_self n f rows keeps)
]

pub peek-save_other :
    (m n : StageName) (f : StageRow → StageRow) (rows : List StageRow)
    → KeepsName f
    → same_name n m ≡ false
    → peek_stage_row m (save_stage_row n f rows) ≡ peek_stage_row m rows
unfolding peek_stage_row save_stage_row
peek-save_other m n f [] keeps other = rw (keeps (fresh_row n), other) refl
peek-save_other m n f (r ∷ rows) keeps other = elim (Bool-cases (same_name r.name n)) [
  | inl e ↦ rw (e, keeps r, same_name_sound r.name n e, other) refl
  | inr e ↦ elim (Bool-cases (same_name r.name m)) [
    | inl e' ↦ rw (e, e') refl
    | inr e' ↦ rw (e, e') (peek-save_other m n f rows keeps other)
  ]
]

pub reopen_row_keeps : (depth : ℕ) (r : StageRow) → (reopen_row depth r).name ≡ r.name
reopen_row_keeps depth r = elim (Bool-cases (is_outgrown depth r)) [
  | inl e ↦ rw e refl
  | inr e ↦ rw e refl
]

-- A property of a row under each name is kept by a change of one of them.
pub peek-save_keeps {ℓ} :
    (P : StageRow → Type ℓ) (m n : StageName) (f : StageRow → StageRow) (rows : List StageRow)
    → KeepsName f
    → (P (peek_stage_row n rows) → P (f (peek_stage_row n rows)))
    → P (peek_stage_row m rows)
    → P (peek_stage_row m (save_stage_row n f rows))
peek-save_keeps P m n f rows keeps step h = elim (Bool-cases (same_name n m)) [
  | inl e ↦
      rw (sym (same_name_sound n m e))
        (rw (peek-save_self n f rows keeps) (step (rw (same_name_sound n m e) h)))
  | inr e ↦ rw (peek-save_other m n f rows keeps e) h
]

-- `bootstrap_complete` and the test of the pick read a row alike.
row_complete-terminal :
    (depth : ℕ) (n : StageName) (rows : List StageRow)
    → row_complete depth n (find_stage_row n rows) ≡ is_terminal depth n rows
unfolding find_stage_row peek_stage_row row_reports_gave_up row_reports_done
row_complete-terminal depth n [] = refl
row_complete-terminal depth n (r ∷ rows) = elim (Bool-cases (same_name r.name n)) [
  | inl e ↦ rw e (row_read r.gave_up_at r.completed_at (same_name n daily) r.completed_depth)
  | inr e ↦ rw e (row_complete-terminal depth n rows)
]
  where
    row_read :
        (gave_up completed : Option ℕ) (is_daily : Bool) (d : Option ℕ)
        → (if is_set gave_up
            then true
            else if not (is_set completed)
            then false
            else if is_daily && is_shallow depth d
            then false
            else true)
          ≡ (is_set gave_up
              || (if not (is_set completed)
                  then false
                  else if not is_daily
                  then true
                  else is_deep depth d))
    row_read (some t) completed is_daily d = refl
    row_read none none is_daily d = refl
    row_read none (some t) false d = refl
    row_read none (some t) true none = refl
    row_read none (some t) true (some d) = ground arith

and_true : (b : Bool) → (b && true) ≡ b
and_true true = refl
and_true false = refl

-- `bootstrap_complete` is true exactly if the row of each of the three stages is terminal for the
-- configured depth, as `pick_current_stage` decides it.
pub bootstrap_complete_lem :
    (depth : ℕ) (rows : List StageRow)
    → bootstrap_complete depth rows ≡ (
        is_terminal depth daily rows
        && (is_terminal depth native rows && is_terminal depth erc20 rows))
unfolding bootstrap_complete all_complete
bootstrap_complete_lem depth rows =
    rw
      (
        row_complete-terminal depth daily rows,
        row_complete-terminal depth native rows,
        row_complete-terminal depth erc20 rows,
      )
      (ap (λ (b : Bool). is_terminal depth daily rows && (is_terminal depth native rows && b))
        (and_true (is_terminal depth erc20 rows)))
