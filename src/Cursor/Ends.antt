-- ===== src/Cursor/Ends.antt =====
-- `fetchall` comes to an end (src/cursor.c).
use apsw.Prelude.{
  ℕ, zero, suc, ◌%◌, ◌≡◌, ◌<◌, ◌≤◌, ◌⊎◌, refl, sym, Bool, true, false, Option, none, some, List,
  ◌∷◌, if◌then◌else◌, arith, inl, inr,
}
use mathlib.Core.Path.{subst}
use apsw.World.{World, sqlite_call}
use apsw.StatementCache.{Statement, StatementCache}
use apsw.Cursor.{Cursor, Status, c_begin, c_row, c_done}
use apsw.Cursor.Step.{
  Outcome, returned, cache_fault, null_fault, assert_fault, no_fuel, Round, stop, again,
  round_fault, round_null, vdbe_step, step_round, step,
}
use apsw.Cursor.Execute.{
  Fetched, trace_row, fetch_row, give_row, by_status, after_begin, next_loop, next,
}
use apsw.Cursor.Attributes.{InfoApi, add_fetched, fetch_list, fetchall}
use apsw.Cursor.Methods.{on_open-keeps}
use apsw.Cursor.Rows.{OnLast, left, LastRound, with_status-OnLast, after_step-LastRound}

-- The code ends, one way or another.
pub Ends : {S A : Type 0} → Outcome S A → Type 0
Ends (returned v c sc w) = Unit
Ends cache_fault = Unit
Ends null_fault = Unit
Ends assert_fault = Unit
Ends no_fuel = ⊥

module _ {S : Type 0} (api : InfoApi S) (rows : S → ℕ) where
  -- After the step of `__next__`.
  abbrev LastStep : ℕ → Outcome S (Unit {0}) → Type 0
  LastStep m (returned none c sc w) = Unit
  LastStep m (returned (some v) c sc w) =
      ((c.status ≡ c_row) × OnLast c × (rows w.db < m)) ⊎ (c.status ≡ c_done)
  LastStep m cache_fault = Unit
  LastStep m null_fault = Unit
  LastStep m assert_fault = Unit
  LastStep m no_fuel = ⊥

  -- After `__next__`: fewer rows are left where it gives one.
  abbrev LastNext : ℕ → Outcome S Fetched → Type 0
  LastNext m (returned none c sc w) = Unit
  LastNext m (returned (some v) c sc w) = OnLast c × (left api rows c.status w.db < m)
  LastNext m cache_fault = Unit
  LastNext m null_fault = Unit
  LastNext m assert_fault = Unit
  LastNext m no_fuel = ⊥

  abbrev Once : World S → Option (Option Fetched × Bool × World S) → Type 0
  Once w none = Unit
  Once w (some r) = (r.1 ≡ false) × (r.2.db ≡ w.db)

  fetch_row-Once :
      (s : Option Statement) (c : Cursor) (w : World S)
      → c.rowtrace ≡ none
      → api.row.connection_rowtrace ≡ none
      → Once w (fetch_row api.row s c w)
  unfolding fetch_row trace_row
  fetch_row-Once none c w e e' = tt
  fetch_row-Once (some s) c w e e' = rw (e, e') (ground arith)

  give_row-LastNext :
      (m : ℕ) (loop : Cursor → StatementCache → World S → Outcome S Fetched) (c : Cursor)
      (sc : StatementCache) (w : World S)
      → api.row.connection_rowtrace ≡ none
      → OnLast c
      → rows w.db < m
      → LastNext m (give_row api.row loop c sc w)
  unfolding give_row
  give_row-LastNext m loop c sc w e' h lt =
      go (fetch_row api.row c.statement (record c { status = c_begin }) w)
        (fetch_row-Once c.statement (record c { status = c_begin }) w h.no_tracer e')
    where
      go :
          (r : Option (Option Fetched × Bool × World S))
          → Once w r
          → LastNext m (elim r as (λ _. Outcome S Fetched) [
            | none ↦ null_fault
            | some x ↦
                if x.1
                then loop (record c { status = c_begin }) sc x.2
                else returned x.0 (record c { status = c_begin }) sc x.2
          ])
      go none o = tt
      go (some (v, true, w')) o = absurd (ground (arith, o.0))
      go (some (none, false, w')) o = tt
      go (some (some v, false, w')) o =
          (with_status-OnLast api rows c_begin c h, subst (λ d. rows d < m) (sym o.1) lt)

  vdbe_step-rows :
      (v : Option ℕ) (w : World S)
      → ((d : S) (h : ℕ)
          → (api.row.exec.step d h).0 % 256 ≡ 100
          → rows (api.row.exec.step d h).2 < rows d)
      → (vdbe_step api.row.exec v w).0 % 256 ≡ 100
      → rows (vdbe_step api.row.exec v w).1.db < rows w.db
  unfolding vdbe_step sqlite_call
  vdbe_step-rows none w fewer e = absurd (omega (arith, e))
  vdbe_step-rows (some h) w fewer e = fewer w.db h e

  step_round-LastRound :
      (s : Option Statement) (c : Cursor) (sc : StatementCache) (w : World S)
      → ((d : S) (h : ℕ)
          → (api.row.exec.step d h).0 % 256 ≡ 100
          → rows (api.row.exec.step d h).2 < rows d)
      → c.statement ≡ s
      → OnLast c
      → LastRound api rows (rows w.db) (step_round api.row.exec s c sc w)
  unfolding step_round
  step_round-LastRound none c sc w fewer e h = tt
  step_round-LastRound (some s) c sc w fewer e h =
      after_step-LastRound api rows (rows w.db) (vdbe_step api.row.exec s.vdbestatement w).0 s c sc
        (vdbe_step api.row.exec s.vdbestatement w).1 e h (vdbe_step-rows s.vdbestatement w fewer)

  step-LastStep :
      (n : ℕ) (c : Cursor) (sc : StatementCache) (w : World S)
      → ((d : S) (h : ℕ)
          → (api.row.exec.step d h).0 % 256 ≡ 100
          → rows (api.row.exec.step d h).2 < rows d)
      → OnLast c
      → LastStep (rows w.db) (step api.row.exec (suc n) c sc w)
  unfolding step
  step-LastStep n c sc w fewer h =
      go (step_round api.row.exec c.statement c sc w)
        (step_round-LastRound c.statement c sc w fewer refl h)
    where
      go :
          (r : Round S)
          → LastRound api rows (rows w.db) r
          → LastStep (rows w.db) (elim r as (λ _. Outcome S (Unit {0})) [
            | stop value c' sc' w' ↦ returned value c' sc' w'
            | again c' sc' w' ↦ step api.row.exec n c' sc' w'
            | round_fault ↦ cache_fault
            | round_null ↦ null_fault
          ])
      go (stop none c' sc' w') l = tt
      go (stop (some v) c' sc' w') l = l
      go (again c' sc' w') l = absurd l
      go round_fault l = tt
      go round_null l = tt

  by_status-LastNext :
      (m : ℕ) (loop : Cursor → StatementCache → World S → Outcome S Fetched) (st : Status)
      (c : Cursor) (sc : StatementCache) (w : World S)
      → api.row.connection_rowtrace ≡ none
      → ((st ≡ c_row) × OnLast c × (rows w.db < m)) ⊎ (st ≡ c_done)
      → LastNext m (by_status api.row loop st c sc w)
  unfolding by_status
  by_status-LastNext m loop c_begin c sc w e l = tt
  by_status-LastNext m loop c_done c sc w e l = tt
  by_status-LastNext m loop c_row c sc w e (inl (st, h, lt)) =
      give_row-LastNext m loop c sc w e h lt
  by_status-LastNext m loop c_row c sc w e (inr z) = absurd (ground (arith, z))

  after_begin-LastNext :
      (m : ℕ) (loop : Cursor → StatementCache → World S → Outcome S Fetched)
      (r : Outcome S (Unit {0}))
      → api.row.connection_rowtrace ≡ none
      → LastStep m r
      → LastNext m (after_begin api.row loop r)
  unfolding after_begin
  after_begin-LastNext m loop (returned none c sc w) e l = tt
  after_begin-LastNext m loop (returned (some v) c sc w) e l =
      by_status-LastNext m loop c.status c sc w e l
  after_begin-LastNext m loop cache_fault e l = tt
  after_begin-LastNext m loop null_fault e l = tt
  after_begin-LastNext m loop assert_fault e l = tt
  after_begin-LastNext m loop no_fuel e l = l

  next_loop-LastNext :
      (n fuel : ℕ) (c : Cursor) (sc : StatementCache) (w : World S)
      → ((d : S) (h : ℕ)
          → (api.row.exec.step d h).0 % 256 ≡ 100
          → rows (api.row.exec.step d h).2 < rows d)
      → api.row.connection_rowtrace ≡ none
      → OnLast c
      → LastNext (left api rows c.status w.db) (next_loop api.row (suc n) (suc fuel) c sc w)
  unfolding next_loop
  next_loop-LastNext n fuel c sc w fewer e h = go c.status
    where
      go :
          (st : Status)
          → LastNext (left api rows st w.db) (elim st as (λ _. Outcome S Fetched) [
            | c_begin ↦
                after_begin api.row
                  (next_loop api.row n (suc fuel))
                  (step api.row.exec (suc fuel) c sc w)
            | c_row ↦ by_status api.row (next_loop api.row n (suc fuel)) c_row c sc w
            | c_done ↦ by_status api.row (next_loop api.row n (suc fuel)) c_done c sc w
          ])
      go c_begin = after_begin-LastNext (rows w.db) _ _ e (step-LastStep fuel c sc w fewer h)
      go c_row = by_status-LastNext (suc (rows w.db)) _ c_row c sc w e (inl (refl, h, omega arith))
      go c_done = by_status-LastNext 0 _ c_done c sc w e (inr refl)

  next-LastNext :
      (n fuel : ℕ) (c : Cursor) (sc : StatementCache) (w : World S)
      → ((d : S) (h : ℕ)
          → (api.row.exec.step d h).0 % 256 ≡ 100
          → rows (api.row.exec.step d h).2 < rows d)
      → api.row.connection_rowtrace ≡ none
      → OnLast c
      → LastNext (left api rows c.status w.db) (next api.row (suc n) (suc fuel) c sc w)
  unfolding next
  next-LastNext n fuel c sc w fewer e h =
      on_open-keeps api.row (LastNext (left api rows c.status w.db)) (returned none c sc)
        c.connection c w _ (λ w'. tt) (next_loop-LastNext n fuel c sc w fewer e h)

  add_row-Ends :
      (v : Fetched) (r : Outcome S (List Fetched))
      → Ends r
      → Ends (elim r as (λ _. Outcome S (List Fetched)) [
        | returned l c' sc' w' ↦
            returned (elim l [ none ↦ none | some vs ↦ some (v ∷ vs) ]) c' sc' w'
        | cache_fault ↦ cache_fault
        | null_fault ↦ null_fault
        | assert_fault ↦ assert_fault
        | no_fuel ↦ no_fuel
      ])
  unfolding Ends
  add_row-Ends v (returned l c sc w) h = tt
  add_row-Ends v cache_fault h = tt
  add_row-Ends v null_fault h = tt
  add_row-Ends v assert_fault h = tt
  add_row-Ends v no_fuel h = h

  add_fetched-Ends :
      (m k : ℕ) (more : Cursor → StatementCache → World S → Outcome S (List Fetched))
      (r : Outcome S Fetched)
      → LastNext m r
      → m ≤ k
      → ((c : Cursor) (sc : StatementCache) (w : World S)
          → OnLast c
          → left api rows c.status w.db < k
          → Ends (more c sc w))
      → Ends (add_fetched api more r)
  unfolding add_fetched Ends
  add_fetched-Ends m k more (returned none c sc w) l le rest = tt
  add_fetched-Ends m k more (returned (some v) c sc w) l le rest =
      add_row-Ends v (more c sc w) (rest c sc w l.0 (omega (arith, l.1, le)))
  add_fetched-Ends m k more cache_fault l le rest = tt
  add_fetched-Ends m k more null_fault l le rest = tt
  add_fetched-Ends m k more assert_fault l le rest = tt
  add_fetched-Ends m k more no_fuel l le rest = l

  fetch_list-Ends :
      (k n fuel : ℕ) (c : Cursor) (sc : StatementCache) (w : World S)
      → ((d : S) (h : ℕ)
          → (api.row.exec.step d h).0 % 256 ≡ 100
          → rows (api.row.exec.step d h).2 < rows d)
      → api.row.connection_rowtrace ≡ none
      → OnLast c
      → left api rows c.status w.db < k
      → Ends (fetch_list api k (suc n) (suc fuel) c sc w)
  unfolding fetch_list
  fetch_list-Ends zero n fuel c sc w fewer e h lt = absurd (omega (arith, lt))
  fetch_list-Ends (suc k) n fuel c sc w fewer e h lt =
      add_fetched-Ends (left api rows c.status w.db) k (fetch_list api k (suc n) (suc fuel)) _
        (next-LastNext n fuel c sc w fewer e h) (omega (arith, lt))
        (λ c' sc' w' h' lt'. fetch_list-Ends k n fuel c' sc' w' fewer e h' lt')

  -- `fetchall` ends, on a cursor on the last statement of its text without an iterator and a row tracer,
  -- where every row that SQLite gives leaves fewer rows: fuel above the number of rows that are left is
  -- enough for its loop, and one round is enough for each row.
  pub fetchall-Ends :
      (k n fuel : ℕ) (c : Cursor) (sc : StatementCache) (w : World S)
      → ((d : S) (h : ℕ)
          → (api.row.exec.step d h).0 % 256 ≡ 100
          → rows (api.row.exec.step d h).2 < rows d)
      → api.row.connection_rowtrace ≡ none
      → OnLast c
      → left api rows c.status w.db < k
      → Ends (fetchall api k (suc n) (suc fuel) c sc w)
  unfolding fetchall Ends
  fetchall-Ends k n fuel c sc w fewer e h lt =
      on_open-keeps api.row Ends (returned none c sc) c.connection c w _ (λ w'. tt)
        (fetch_list-Ends k n fuel c sc w fewer e h lt)
