-- ===== src/Catchup/Spent.antt =====
-- The attempts of a day and the settings, over a whole pass (`_catch_up_days` of
-- safe_transaction_service/analytics/catchup/sweeper.py).
use safe_transaction_service.Common.{
  All-append, ℕ, ◌/◌, ◌≤◌, ◌<◌, ◌≡◌, ap, subst, Bool, true, false, Option, none, some, List, [],
  ◌∷◌, map, All, arith, select, Bool-cases, Option-cases, inl, inr,
}
use safe_transaction_service.Catchup.{
  DayState, IndexerStatus, CatchupSettings, World, Upsert, get_day_state, ensure_day_states,
  fresh_state, is_unset, is_due, is_ready, is_exhausted, due_days, selected_days, sort_days,
  give_up_each, sweep, sweep_candidates, catch_up_days, candidates,
}
use safe_transaction_service.Catchup.Count.{
  count, count-select, count-select_none, count-sort, count-take, count-candidates,
}
use safe_transaction_service.Catchup.Room.{HasRoom}
use safe_transaction_service.Catchup.Attempts.{
  give_up_each-HasRoom, defer_each-HasRoom, compute_each-HasRoom,
}
use safe_transaction_service.Catchup.Bounded.{
  IsOwn, IsBounded, All-IsBounded_fresh, All-IsOwn_fresh, All-IsOwn_old,
}

module _ (cfg : CatchupSettings) (now : ℕ) (status : Option IndexerStatus)
    (snapshot : List DayState) (days : List ℕ) where
  count-selected_days :
      (d : ℕ)
      → count d (selected_days cfg now status snapshot days)
        ≤ count d (select (λ day. is_due cfg now (get_day_state day snapshot)) days)
  unfolding selected_days due_days
  count-selected_days d =
      let due = select (λ day. is_due cfg now (get_day_state day snapshot)) days in
      let ready = select (is_ready cfg status) (sort_days due) in
      let a = count-take d cfg.max_days_per_run ready in
      let b = count-select d (is_ready cfg status) (sort_days due) in
      let c = count-sort d due in omega arith

  row-HasRoom :
      (s : DayState)
      → IsOwn snapshot s
      → IsBounded cfg.max_attempts s
      → count s.key days ≤ 1
      → HasRoom cfg.max_attempts (selected_days cfg now status snapshot days) s
  row-HasRoom s own h c =
      let few = count-selected_days s.key in
      let due = λ (day : ℕ). is_due cfg now (get_day_state day snapshot) in
      elim (Bool-cases (is_due cfg now (get_day_state s.key snapshot))) [
        | inl e ↦
            let e' : is_due cfg now (some s) ≡ true = subst (λ o. is_due cfg now o ≡ true) own e in
            let less : s.attempts < cfg.max_attempts = ground arith in
            let most = count-select s.key due days in omega arith
        | inr e ↦ let gone = count-select_none s.key due days e in omega arith
      ]

  rows-HasRoom :
      ((d : ℕ) → count d days ≤ 1)
      → (rows : List DayState) → All (IsOwn snapshot) rows
      → All (IsBounded cfg.max_attempts) rows
      → All (HasRoom cfg.max_attempts (selected_days cfg now status snapshot days)) rows
  rows-HasRoom c [] os hs = tt
  rows-HasRoom c (s ∷ ss) (o, os) (h, hs) = (row-HasRoom s o h (c s.key), rows-HasRoom c ss os hs)

HasRoom-IsBounded :
    (most : ℕ) (rows : List DayState) → All (HasRoom most []) rows → All (IsBounded most) rows
HasRoom-IsBounded most [] hs = tt
HasRoom-IsBounded most (s ∷ ss) (h, hs) = (omega arith, HasRoom-IsBounded most ss hs)

select_missing :
    (rows : List DayState) (days : List ℕ) (d : ℕ)
    → 1 ≤ count d (select (λ day. is_unset (get_day_state day rows)) days)
    → get_day_state d rows ≡ none
select_missing rows days d h = elim (Option-cases (get_day_state d rows)) [
  | inl e ↦ e
  | inr (s, e) ↦
      let p = λ (day : ℕ). is_unset (get_day_state day rows) in
      let set : p d ≡ false = ap is_unset e in
      let gone = count-select_none d p days set in
      elim (absurd (count d (select p days)) h gone) [ ]
]
  where
    absurd : (n : ℕ) → 1 ≤ n → n ≡ 0 → ⊥
    absurd n p q = omega arith

sweep-IsBounded :
    (upsert : Upsert) (cfg : CatchupSettings) (now : ℕ) (status : Option IndexerStatus)
    (days : List ℕ) (w : World)
    → ((d : ℕ) → count d days ≤ 1)
    → All (IsOwn w.states) w.states
    → All (IsBounded cfg.max_attempts) w.states
    → All (IsBounded cfg.max_attempts) (sweep upsert cfg now status days w).1.states
unfolding ensure_day_states
sweep-IsBounded upsert cfg now status days w c os hs =
    let xs = select (λ day. is_unset (get_day_state day w.states)) days in
    let snapshot = ensure_day_states days w.states in
    let selected = selected_days cfg now status snapshot days in
    let due = due_days cfg now snapshot days in
    let given = select (λ day. is_exhausted cfg (get_day_state day snapshot)) days in
    let own : All (IsOwn snapshot) snapshot =
      All-append (IsOwn snapshot) w.states (map fresh_state xs)
        (All-IsOwn_old w.states (map fresh_state xs) w.states os)
        (All-IsOwn_fresh w.states xs xs (λ d k. (select_missing w.states days d k, k))) in
    let bounded : All (IsBounded cfg.max_attempts) snapshot =
      All-append (IsBounded cfg.max_attempts) w.states (map fresh_state xs) hs
        (All-IsBounded_fresh cfg.max_attempts xs) in
    let room = rows-HasRoom cfg now status snapshot days c snapshot own bounded in
    HasRoom-IsBounded cfg.max_attempts _ (
      compute_each-HasRoom cfg.max_attempts upsert cfg now status snapshot selected _ _ (
        defer_each-HasRoom cfg.max_attempts selected cfg status due
          (give_up_each now given snapshot)
          (give_up_each-HasRoom cfg.max_attempts selected now given snapshot room)))

sweep_candidates-IsBounded :
    (upsert : Upsert) (cfg : CatchupSettings) (now : ℕ) (status : Option IndexerStatus)
    (days : List ℕ) (w : World)
    → ((d : ℕ) → count d days ≤ 1)
    → All (IsOwn w.states) w.states
    → All (IsBounded cfg.max_attempts) w.states
    → All (IsBounded cfg.max_attempts) (sweep_candidates upsert cfg now status days w).1.states
sweep_candidates-IsBounded upsert cfg now status [] w c os hs = hs
sweep_candidates-IsBounded upsert cfg now status (day ∷ days) w c os hs =
    sweep-IsBounded upsert cfg now status (day ∷ days) w c os hs

-- While the window does not reach back before 1970: if every row is the one of its day and none has more than
-- `max_attempts` attempts, no row has more after a pass either, whatever the computations of the days
-- do and whether or not a backfill is live.
pub catch_up_days-IsBounded :
    (upsert : Upsert) (cfg : CatchupSettings) (now : ℕ) (status : Option IndexerStatus)
    (live : Bool) (w : World)
    → cfg.window_days ≤ now / 86400
    → All (IsOwn w.states) w.states
    → All (IsBounded cfg.max_attempts) w.states
    → All (IsBounded cfg.max_attempts) (catch_up_days upsert cfg now status live w).1.states
unfolding catch_up_days
catch_up_days-IsBounded upsert cfg now status true w p os hs = hs
catch_up_days-IsBounded upsert cfg now status false w p os hs =
    sweep_candidates-IsBounded upsert cfg now status (candidates cfg now w.metrics) w
      (λ d. count-candidates cfg now w.metrics d p) os hs
