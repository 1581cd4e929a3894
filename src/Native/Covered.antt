-- ===== src/Native/Covered.antt =====
-- What a run has covered (safe_transaction_service/analytics/tasks_shards.py): the Safes up to its cursor have rows,
-- and all have them once it is finished.
use safe_transaction_service.Common.{
  ℕ, zero, suc, ◌≤◌, ◌≡◌, inl, inr, refl, sym, subst, Bool, true, false, some, List, [], ◌∷◌, ◌++◌,
  map, select, take, contains, arith, Bool-cases,
}
use safe_transaction_service.Native.{
  finished, RollupRow, RollupDb, comes_after, has_row, seeded_row, missing, NativeRun, NativeStore,
  load_native_run, partly_db, safe_addresses_after, finished_run, advanced_run, worked_db,
  seed_missing, seed_first, write_watermark,
}
use safe_transaction_service.Native.Rows.{
  IsAscending, select-IsAscending, contains-select, has_row-append, seeds_all, empty_page,
  page_reaches,
}

-- The Safes stay as they are, and no row goes.
pub record KeepsRows (a b : RollupDb) : Type 0 where
  pub same_safes : b.safes ≡ a.safes
  pub kept : (x : ℕ) → has_row x a.rows ≡ true → has_row x b.rows ≡ true

pub record RunCovers (run : NativeRun) (db : RollupDb) : Type 0 where
  pub sized : 1 ≤ run.chunk_size
  pub walked :
      (x : ℕ)
      → contains x db.safes ≡ true
      → comes_after run.cursor x ≡ false
      → has_row x db.rows ≡ true
  pub ended : run.state ≡ finished → (x : ℕ) → contains x db.safes ≡ true → has_row x db.rows ≡ true

pub record IsCovered (id : ℕ) (s : NativeStore) : Type 0 where
  pub ascending : IsAscending s.db.safes
  pub covers : (r : NativeRun) → load_native_run id s.runs ≡ some r → RunCovers r s.db

pub RunCovers-kept :
    (r : NativeRun) (a b : RollupDb) → KeepsRows a b → RunCovers r a → RunCovers r b
RunCovers-kept r a b k h = record {
  sized = h.sized;
  walked = λ x m c.
      k.kept x (h.walked x (subst (λ (xs : List ℕ). contains x xs ≡ true) k.same_safes m) c);
  ended = λ e x m.
      k.kept x (h.ended e x (subst (λ (xs : List ℕ). contains x xs ≡ true) k.same_safes m));
}

pub adds_rows :
    (db : RollupDb) (more : List RollupRow) → KeepsRows db (record db { rows = db.rows ++ more })
adds_rows db more = record {
  same_safes = refl;
  kept = λ x h. rw (has_row-append x db.rows more) (rw h refl);
}

pub keeps_all : (a b : RollupDb) → b.safes ≡ a.safes → b.rows ≡ a.rows → KeepsRows a b
keeps_all a b e f = record {
  same_safes = e;
  kept = λ x h. subst (λ (rs : List RollupRow). has_row x rs ≡ true) (sym f) h;
}

pub worked_keeps :
    (run : NativeRun) (page : List ℕ) (db : RollupDb) → KeepsRows db (worked_db run page db)
unfolding write_watermark seed_missing
worked_keeps run [] db = keeps_all db (write_watermark run.head db) refl refl
worked_keeps run (a ∷ more) db =
    adds_rows db (map (seeded_row run.head) (missing (a ∷ more) db.rows))

pub partly_keeps :
    (k : ℕ) (run : NativeRun) (page : List ℕ) (db : RollupDb)
    → KeepsRows db (partly_db k run page db)
unfolding write_watermark seed_first
partly_keeps zero run page db = keeps_all db db refl refl
partly_keeps (suc k) run [] db = keeps_all db (write_watermark run.head db) refl refl
partly_keeps (suc k) run (a ∷ more) db =
    adds_rows db (map (seeded_row run.head) (take (suc k) (missing (a ∷ more) db.rows)))

-- The run after its work, from the page of it.
pub finished-RunCovers :
    (now : ℕ) (wrote : Bool) (r : NativeRun) (db : RollupDb)
    → safe_addresses_after r.cursor r.chunk_size db ≡ []
    → RunCovers r db
    → RunCovers (finished_run now wrote r) (worked_db r [] db)
unfolding safe_addresses_after write_watermark
finished-RunCovers now wrote r db e h = record {
  sized = h.sized;
  walked = h.walked;
  ended = λ over x m. elim (Bool-cases (comes_after r.cursor x)) [
    | inr before ↦ h.walked x m before
    | inl later ↦
        let there = contains-select (comes_after r.cursor) x db.safes m later in
        let gone = empty_page r.chunk_size x (select (comes_after r.cursor) db.safes) h.sized e in
        cc
  ];
}

pub advanced-RunCovers :
    (a : ℕ) (more : List ℕ) (r : NativeRun) (db : RollupDb)
    → safe_addresses_after r.cursor r.chunk_size db ≡ a ∷ more
    → IsAscending db.safes
    → RunCovers r db
    → RunCovers (advanced_run a more db r) (worked_db r (a ∷ more) db)
unfolding safe_addresses_after seed_missing
advanced-RunCovers a more r db e asc h =
    let keeps : KeepsRows db (worked_db r (a ∷ more) db) = worked_keeps r (a ∷ more) db in
    record {
      sized = h.sized;
      walked = λ x m c. elim (Bool-cases (comes_after r.cursor x)) [
        | inr before ↦ keeps.kept x (h.walked x m before)
        | inl later ↦
            let there = contains-select (comes_after r.cursor) x db.safes m later in
            let ordered = select-IsAscending (comes_after r.cursor) db.safes asc in
            elim (page_reaches r.chunk_size x a more (select (comes_after r.cursor) db.safes)
              ordered e there) [
                | inl within ↦ seeds_all r.head x (a ∷ more) db.rows within
                | inr past ↦ ground (arith, c, past)
              ]
      ];
      ended = λ over x m. keeps.kept x (h.ended over x m);
    }
