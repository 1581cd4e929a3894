-- ===== src/Bootstrap/Rows.antt =====
-- The rows of `AnalyticsBootstrapStage`, and bookkeeping.py of safe_transaction_service/analytics/bootstrap/.
use safe_transaction_service.Common.{
  ℕ, suc, Bool, true, false, not, ◌&&◌, Option, none, some, List, [], ◌∷◌, ltb, leb, if◌then◌else◌,
}

pub data StageName : Type 0 where
  daily native erc20 : StageName

abbrev pub same_name : StageName → StageName → Bool
same_name daily daily = true
same_name native native = true
same_name erc20 erc20 = true
same_name a b = false

pub record StageRow : Type 0 where
  pub name : StageName
  pub consecutive_failures : ℕ
  pub last_failure_at : Option ℕ
  pub last_dispatch_at : Option ℕ
  pub gave_up_at : Option ℕ
  pub completed_at : Option ℕ
  pub completed_depth : Option ℕ

abbrev pub fresh_row : StageName → StageRow
fresh_row n = record {
  name = n;
  consecutive_failures = 0;
  last_failure_at = none;
  last_dispatch_at = none;
  gave_up_at = none;
  completed_at = none;
  completed_depth = none;
}

abbrev pub is_set : {A : Type 0} → Option A → Bool
is_set none = false
is_set (some a) = true

-- `filter(name=name).first() or AnalyticsBootstrapStage(name=name)`
unfoldable pub peek_stage_row : StageName → List StageRow → StageRow
peek_stage_row n [] = fresh_row n
peek_stage_row n (r ∷ rows) = if same_name r.name n then r else peek_stage_row n rows

-- `get_or_create`, then a change that `save` stores.
unfoldable pub save_stage_row : StageName → (StageRow → StageRow) → List StageRow → List StageRow
save_stage_row n f [] = f (fresh_row n) ∷ []
save_stage_row n f (r ∷ rows) =
    if same_name r.name n then f r ∷ rows else r ∷ save_stage_row n f rows

abbrev pub first_set : Option ℕ → ℕ → Option ℕ
first_set none now = some now
first_set (some t) now = some t

abbrev pub depth_or : Option ℕ → Option ℕ → Option ℕ
depth_or none old = old
depth_or (some d) old = some d

-- The failures and the giving up are cleared, as far as there are any.
abbrev pub complete_row : ℕ → Option ℕ → StageRow → StageRow
complete_row now depth r = record r {
  completed_at = first_set r.completed_at now;
  completed_depth = depth_or depth r.completed_depth;
  consecutive_failures = 0;
  last_failure_at = none;
  gave_up_at = none;
}

unfoldable pub mark_completed : ℕ → StageName → Option ℕ → List StageRow → List StageRow
mark_completed now n depth = save_stage_row n (complete_row now depth)

abbrev pub failed_row : ℕ → StageRow → StageRow
failed_row now r = record r {
  consecutive_failures = suc r.consecutive_failures;
  last_failure_at = some now;
}

unfoldable pub record_failure : ℕ → StageName → List StageRow → List StageRow
record_failure now n = save_stage_row n (failed_row now)

unfoldable pub record_dispatch : ℕ → StageName → List StageRow → List StageRow
record_dispatch now n = save_stage_row n (λ r. record r { last_dispatch_at = some now })

unfoldable pub mark_gave_up : ℕ → StageName → List StageRow → List StageRow
mark_gave_up now n = save_stage_row n (λ r. record r { gave_up_at = some now })

abbrev pub wiped_depth : StageName → Option ℕ → Option ℕ
wiped_depth daily depth = none
wiped_depth native depth = depth
wiped_depth erc20 depth = depth

abbrev pub cleared_row : StageRow → StageRow
cleared_row r = record r { consecutive_failures = 0; last_failure_at = none; gave_up_at = none }

abbrev pub reset_row : StageName → Bool → StageRow → StageRow
reset_row n false r = cleared_row r
reset_row n true r = record (cleared_row r) {
  completed_at = none;
  completed_depth = wiped_depth n r.completed_depth;
}

-- `data_wiped` is the Boolean.
unfoldable pub reset_stage : StageName → Bool → List StageRow → List StageRow
reset_stage n data_wiped = save_stage_row n (reset_row n data_wiped)

abbrev pub is_outgrown : ℕ → StageRow → Bool
is_outgrown depth r = is_set r.completed_at && below r.completed_depth
  where
    below : Option ℕ → Bool
    below none = false
    below (some d) = ltb d depth

abbrev pub reopen_row : ℕ → StageRow → StageRow
reopen_row depth r =
    if is_outgrown depth r
    then record (cleared_row r) { completed_at = none; completed_depth = none }
    else r

unfoldable pub maybe_reopen_daily : ℕ → List StageRow → List StageRow
maybe_reopen_daily depth = save_stage_row daily (reopen_row depth)

abbrev pub stage_names : List StageName
stage_names = daily ∷ native ∷ erc20 ∷ []

-- `rows.get(name)`
unfoldable pub find_stage_row : StageName → List StageRow → Option StageRow
find_stage_row n [] = none
find_stage_row n (r ∷ rows) = if same_name r.name n then some r else find_stage_row n rows

abbrev pub is_shallow : ℕ → Option ℕ → Bool
is_shallow depth none = true
is_shallow depth (some d) = ltb d depth

-- The body of the loop of `bootstrap_complete`: whether it goes on to the next name.
abbrev pub row_complete : ℕ → StageName → Option StageRow → Bool
row_complete depth n none = false
row_complete depth n (some r) =
    if is_set r.gave_up_at
    then true
    else if not (is_set r.completed_at)
    then false
    else if same_name n daily && is_shallow depth r.completed_depth
    then false
    else true

unfoldable pub all_complete : ℕ → List StageName → List StageRow → Bool
all_complete depth [] rows = true
all_complete depth (n ∷ ns) rows =
    row_complete depth n (find_stage_row n rows) && all_complete depth ns rows

unfoldable pub bootstrap_complete : ℕ → List StageRow → Bool
bootstrap_complete depth rows = all_complete depth stage_names rows

unfoldable pub row_reports_gave_up : StageRow → Bool
row_reports_gave_up r = is_set r.gave_up_at

abbrev pub is_deep : ℕ → Option ℕ → Bool
is_deep depth none = false
is_deep depth (some d) = leb depth d

unfoldable pub row_reports_done : StageName → StageRow → ℕ → Bool
row_reports_done n r depth =
    if not (is_set r.completed_at)
    then false
    else if not (same_name n daily)
    then true
    else is_deep depth r.completed_depth
