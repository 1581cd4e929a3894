-- ===== src/Bootstrap/Terminal.antt =====
-- Rows that are terminal stay so within a tick (safe_transaction_service/analytics/bootstrap/tick.py).
use safe_transaction_service.Common.{
  ℕ, ◌≡◌, refl, sym, ap, inl, inr, Bool, true, false, ◌||◌, Option, none, some, List, [], ◌∷◌, ◌++◌,
  arith, All, Bool-cases, le→leb,
}
use safe_transaction_service.Bootstrap.{
  StageName, daily, native, erc20, same_name, StageRow, peek_stage_row, is_set, first_set,
  complete_row, mark_completed, depth_of, is_terminal, row_reports_gave_up, row_reports_done, Stage,
  Pick, picked, nothing_left, pick_raised, picked_or, pick_current_stage,
}
use safe_transaction_service.Bootstrap.Lookup.{peek-save_self, peek-save_other, same_name_sound}

module _ (depth : ℕ) where
  abbrev pub IsTerminal : StageName → List StageRow → Type 0
  IsTerminal n rows = is_terminal depth n rows ≡ true

  is_set-first_set : (o : Option ℕ) (now : ℕ) → is_set (first_set o now) ≡ true
  is_set-first_set none now = refl
  is_set-first_set (some t) now = refl

  complete_row_terminal :
      (now : ℕ) (n : StageName) (r : StageRow)
      → let r' = complete_row now (depth_of n depth) r in
        (row_reports_gave_up r' || row_reports_done n r' depth) ≡ true
  unfolding row_reports_gave_up row_reports_done
  complete_row_terminal now daily r =
      rw (is_set-first_set r.completed_at now) (le→leb depth depth (omega arith))
  complete_row_terminal now native r = rw (is_set-first_set r.completed_at now) refl
  complete_row_terminal now erc20 r = rw (is_set-first_set r.completed_at now) refl

  pub mark_completed-IsTerminal :
      (now : ℕ) (n : StageName) (rows : List StageRow)
      → IsTerminal n (mark_completed now n (depth_of n depth) rows)
  unfolding mark_completed
  mark_completed-IsTerminal now n rows =
      rw (peek-save_self n (complete_row now (depth_of n depth)) rows (λ r. refl))
        (complete_row_terminal now n (peek_stage_row n rows))

  mark_completed-IsTerminal_old :
      (now : ℕ) (n m : StageName) (rows : List StageRow)
      → IsTerminal m rows
      → IsTerminal m (mark_completed now n (depth_of n depth) rows)
  unfolding mark_completed
  mark_completed-IsTerminal_old now n m rows h = elim (Bool-cases (same_name n m)) [
    | inl same ↦ rw (sym (same_name_sound n m same)) (mark_completed-IsTerminal now n rows)
    | inr other ↦
        rw (peek-save_other m n (complete_row now (depth_of n depth)) rows (λ r. refl) other) h
  ]

  module _ {W : Type 0} (now : ℕ) (w : W) where
    picked_or-IsTerminal :
        (m : StageName) (stage : Stage W) (is_done : Option Bool) (rows : List StageRow)
        (marked : Pick W × List StageRow)
        → IsTerminal m rows
        → IsTerminal m marked.1
        → IsTerminal m (picked_or stage is_done rows marked).1
    picked_or-IsTerminal m stage none rows marked h k = h
    picked_or-IsTerminal m stage (some true) rows marked h k = k
    picked_or-IsTerminal m stage (some false) rows marked h k = h

    pub pick-IsTerminal :
        (m : StageName) (stages : List (Stage W)) (rows : List StageRow)
        → IsTerminal m rows
        → IsTerminal m (pick_current_stage now depth w stages rows).1
    unfolding pick_current_stage
    pick-IsTerminal m [] rows h = h
    pick-IsTerminal m (stage ∷ stages) rows h =
        let marked : List StageRow =
          mark_completed now stage.name (depth_of stage.name depth) rows in
        elim (Bool-cases (is_terminal depth stage.name rows)) [
          | inl e ↦ rw e (pick-IsTerminal m stages rows h)
          | inr e ↦ rw e (
              picked_or-IsTerminal m stage (stage.is_done w) rows
                (pick_current_stage now depth w stages marked) h
                (pick-IsTerminal m stages marked
                  (mark_completed-IsTerminal_old now stage.name m rows h)))
        ]

    -- The stages before a picked one are terminal in the rows that the pick leaves.
    abbrev pub PickIsInOrder : List (Stage W) → Pick W × List StageRow → Type 0
    PickIsInOrder stages (picked stage, rows) =
        (before : List (Stage W)) × (after : List (Stage W)) × (stages ≡ before ++ stage ∷ after)
        × (All (λ s. IsTerminal s.name rows) before)
        × (is_terminal depth stage.name rows ≡ false)
    PickIsInOrder stages (nothing_left, rows) = All (λ s. IsTerminal s.name rows) stages
    PickIsInOrder stages (pick_raised, rows) = Unit

    PickIsInOrder-cons :
        (first : Stage W) (stages : List (Stage W)) (p : Pick W × List StageRow)
        → IsTerminal first.name p.1
        → PickIsInOrder stages p
        → PickIsInOrder (first ∷ stages) p
    PickIsInOrder-cons first stages (picked stage, rows) t
          (before, after, split, terminal, open_row) =
        (
          first ∷ before,
          after,
          ap (λ (ss : List (Stage W)). first ∷ ss) split,
          (t, terminal),
          open_row,
        )
    PickIsInOrder-cons first stages (nothing_left, rows) t all = (t, all)
    PickIsInOrder-cons first stages (pick_raised, rows) t h = tt

    picked_or-PickIsInOrder :
        (stage : Stage W) (stages : List (Stage W)) (is_done : Option Bool) (rows : List StageRow)
        (marked : Pick W × List StageRow)
        → is_terminal depth stage.name rows ≡ false
        → PickIsInOrder (stage ∷ stages) marked
        → PickIsInOrder (stage ∷ stages) (picked_or stage is_done rows marked)
    picked_or-PickIsInOrder stage stages none rows marked e h = tt
    picked_or-PickIsInOrder stage stages (some true) rows marked e h = h
    picked_or-PickIsInOrder stage stages (some false) rows marked e h = ([], stages, refl, tt, e)

    pub pick_current_stage-PickIsInOrder :
        (stages : List (Stage W)) (rows : List StageRow)
        → PickIsInOrder stages (pick_current_stage now depth w stages rows)
    unfolding pick_current_stage
    pick_current_stage-PickIsInOrder [] rows = tt
    pick_current_stage-PickIsInOrder (stage ∷ stages) rows =
        let marked : List StageRow =
          mark_completed now stage.name (depth_of stage.name depth) rows in
        elim (Bool-cases (is_terminal depth stage.name rows)) [
          | inl e ↦ rw e (
              PickIsInOrder-cons stage stages (pick_current_stage now depth w stages rows)
                (pick-IsTerminal stage.name stages rows e)
                (pick_current_stage-PickIsInOrder stages rows))
          | inr e ↦ rw e (
              picked_or-PickIsInOrder stage stages (stage.is_done w) rows
                (pick_current_stage now depth w stages marked) e
                (PickIsInOrder-cons stage stages (pick_current_stage now depth w stages marked)
                  (pick-IsTerminal stage.name stages marked
                    (mark_completed-IsTerminal now stage.name rows))
                  (pick_current_stage-PickIsInOrder stages marked)))
        ]
