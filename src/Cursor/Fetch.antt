-- ===== src/Cursor/Fetch.antt =====
-- `__next__` leaves the cursor coherent (src/cursor.c).
use apsw.Prelude.{
  ℕ, zero, suc, ◌≡◌, ◌≢◌, refl, Bool, true, Option, none, some, if◌then◌else◌, is_some, arith,
}
use apsw.World.{World}
use apsw.StatementCache.{Statement, StatementCache}
use apsw.Cursor.{Cursor, Status, c_begin, c_row, c_done}
use apsw.Cursor.Step.{Outcome, returned, cache_fault, null_fault, assert_fault, no_fuel, step}
use apsw.Cursor.Execute.{
  RowApi, Fetched, fetch_row, give_row, by_status, after_begin, next_loop, next,
}
use apsw.Cursor.Coherent.{HandsOff, Queried, Coherent, Safe, Stepped}
use apsw.Cursor.Rounds.{step-Stepped}
use apsw.Cursor.Methods.{if-Safe, on_open-Safe}

module _ {S : Type 0} (api : RowApi S) where
  -- Where there is a statement its row is read, or there is an error.
  fetch_row-is_some :
      (s : Option Statement) (c : Cursor) (w : World S)
      → is_some s ≡ true
      → is_some (fetch_row api s c w) ≡ true
  unfolding fetch_row
  fetch_row-is_some none c w has = has
  fetch_row-is_some (some s) c w has = ground arith

  -- What the loop of `__next__` does from a coherent cursor.
  abbrev LoopSafe : (Cursor → StatementCache → World S → Outcome S Fetched) → Type 0
  LoopSafe loop = (c : Cursor) (sc : StatementCache) (w : World S) → Coherent c → Safe (loop c sc w)

  give_row-Safe :
      (loop : Cursor → StatementCache → World S → Outcome S Fetched) (c : Cursor)
      (sc : StatementCache) (w : World S)
      → LoopSafe loop
      → Queried c
      → is_some c.statement ≡ true
      → Safe (give_row api loop c sc w)
  unfolding give_row
  give_row-Safe loop c sc w safe q has =
      fetched (fetch_row api c.statement (record c { status = c_begin }) w)
        (fetch_row-is_some c.statement (record c { status = c_begin }) w has)
    where
      begun : Coherent (record c { status = c_begin })
      begun = record { has_statement = λ h. has; has_query = λ h. q }

      fetched :
          (r : Option (Option Fetched × Bool × World S))
          → is_some r ≡ true
          → Safe (elim r as (λ _. Outcome S Fetched) [
            | none ↦ null_fault
            | some x ↦
                if x.1
                then loop (record c { status = c_begin }) sc x.2
                else returned x.0 (record c { status = c_begin }) sc x.2
          ])
      fetched none there = absurd (ground (arith, there))
      fetched (some (v, retry, w')) there = if-Safe retry _ _ (safe _ sc w' begun) begun

  by_status-Safe :
      (loop : Cursor → StatementCache → World S → Outcome S Fetched) (c : Cursor)
      (sc : StatementCache) (w : World S) (st : Status)
      → LoopSafe loop
      → Coherent c
      → c.status ≡ st
      → (st ≢ c_begin)
      → Safe (by_status api loop st c sc w)
  unfolding by_status
  by_status-Safe loop c sc w c_begin safe h e ne = tt
  by_status-Safe loop c sc w c_row safe h e ne =
      give_row-Safe loop c sc w safe (h.has_query (ground (arith, e)))
        (h.has_statement (ground (arith, e)))
  by_status-Safe loop c sc w c_done safe h e ne = h

  after_begin-Safe :
      (loop : Cursor → StatementCache → World S → Outcome S Fetched) (r : Outcome S (Unit {0}))
      → LoopSafe loop
      → Stepped r
      → Safe (after_begin api loop r)
  unfolding after_begin
  after_begin-Safe loop (returned none c sc w) safe h = h
  after_begin-Safe loop (returned (some v) c sc w) safe h =
      by_status-Safe loop c sc w c.status safe h.0 refl h.1
  after_begin-Safe loop cache_fault safe h = tt
  after_begin-Safe loop null_fault safe h = h
  after_begin-Safe loop assert_fault safe h = tt
  after_begin-Safe loop no_fuel safe h = tt

  next_loop-Safe : (off : HandsOff api.exec) (n fuel : ℕ) → LoopSafe (next_loop api n fuel)
  unfolding next_loop
  next_loop-Safe off zero fuel c sc w h = tt
  next_loop-Safe off (suc n) fuel c sc w h = go c.status refl (next_loop-Safe off n fuel)
    where
      go :
          (st : Status)
          → c.status ≡ st
          → LoopSafe (next_loop api n fuel)
          → Safe (elim st as (λ _. Outcome S Fetched) [
            | c_begin ↦ after_begin api (next_loop api n fuel) (step api.exec fuel c sc w)
            | c_row ↦ by_status api (next_loop api n fuel) c_row c sc w
            | c_done ↦ by_status api (next_loop api n fuel) c_done c sc w
          ])
      go c_begin e rec =
          after_begin-Safe (next_loop api n fuel) _ rec
            (step-Stepped api.exec off fuel c sc w h (ground (arith, e)))
      go c_row e rec =
          by_status-Safe (next_loop api n fuel) c sc w c_row rec h e
            (λ x. absurd (ground (arith, x)))
      go c_done e rec =
          by_status-Safe (next_loop api n fuel) c sc w c_done rec h e
            (λ x. absurd (ground (arith, x)))

  pub next-Safe :
      (off : HandsOff api.exec) (n fuel : ℕ) (c : Cursor) (sc : StatementCache) (w : World S)
      → Coherent c
      → Safe (next api n fuel c sc w)
  unfolding next
  next-Safe off n fuel c sc w h =
      on_open-Safe api c.connection c sc w _ h (next_loop-Safe off n fuel c sc w h)
