-- ===== src/Cursor/Again.antt =====
-- `get` after `__next__` (src/cursor.c).
use apsw.Prelude.{
  ℕ, zero, suc, ◌≡◌, refl, Bool, true, false, Option, none, some, if◌then◌else◌, not,
}
use mathlib.Core.Path.{subst}
use apsw.World.{World}
use apsw.StatementCache.{StatementCache}
use apsw.Cursor.{Cursor, Status, c_begin, c_row, c_done}
use apsw.Cursor.Step.{Outcome, returned, cache_fault, null_fault, assert_fault, no_fuel, step}
use apsw.Cursor.Execute.{
  RowApi, Fetched, on_open, fetch_row, give_row, by_status, after_begin, next_loop, next,
}
use apsw.Cursor.Get.{get_loop, get}

-- A cursor that has given a row has begun.
Begun : {S : Type 0} → Outcome S Fetched → Type 0
Begun (returned none c sc w) = Unit
Begun (returned (some v) c sc w) = c.status ≡ c_begin
Begun cache_fault = Unit
Begun null_fault = Unit
Begun assert_fault = Unit
Begun no_fuel = Unit

if-Begun :
    {S : Type 0} (b : Bool) (x y : Outcome S Fetched)
    → Begun x
    → Begun y
    → Begun (if b then x else y)
if-Begun true x y h k = h
if-Begun false x y h k = k

module _ {S : Type 0} (api : RowApi S) where
  BeginsLoop : (Cursor → StatementCache → World S → Outcome S Fetched) → Type 0
  BeginsLoop loop = (c : Cursor) (sc : StatementCache) (w : World S) → Begun (loop c sc w)

  give_row-Begun :
      (loop : Cursor → StatementCache → World S → Outcome S Fetched) (c : Cursor)
      (sc : StatementCache) (w : World S)
      → BeginsLoop loop
      → Begun (give_row api loop c sc w)
  unfolding give_row Begun BeginsLoop
  give_row-Begun loop c sc w h = go (fetch_row api c.statement (record c { status = c_begin }) w)
    where
      value :
          (v : Option Fetched) (w' : World S)
          → Begun (returned v (record c { status = c_begin }) sc w')
      value none w' = tt
      value (some v) w' = refl

      go :
          (r : Option (Option Fetched × Bool × World S))
          → Begun (elim r as (λ _. Outcome S Fetched) [
            | none ↦ null_fault
            | some x ↦
                if x.1
                then loop (record c { status = c_begin }) sc x.2
                else returned x.0 (record c { status = c_begin }) sc x.2
          ])
      go none = tt
      go (some (v, retry, w')) = if-Begun retry _ _ (h _ sc w') (value v w')

  by_status-Begun :
      (loop : Cursor → StatementCache → World S → Outcome S Fetched) (st : Status) (c : Cursor)
      (sc : StatementCache) (w : World S)
      → BeginsLoop loop
      → Begun (by_status api loop st c sc w)
  unfolding by_status Begun
  by_status-Begun loop c_done c sc w h = tt
  by_status-Begun loop c_row c sc w h = give_row-Begun loop c sc w h
  by_status-Begun loop c_begin c sc w h = tt

  after_begin-Begun :
      (loop : Cursor → StatementCache → World S → Outcome S Fetched) (r : Outcome S (Unit {0}))
      → BeginsLoop loop
      → Begun (after_begin api loop r)
  unfolding after_begin Begun
  after_begin-Begun loop (returned none c sc w) h = tt
  after_begin-Begun loop (returned (some v) c sc w) h = by_status-Begun loop c.status c sc w h
  after_begin-Begun loop cache_fault h = tt
  after_begin-Begun loop null_fault h = tt
  after_begin-Begun loop assert_fault h = tt
  after_begin-Begun loop no_fuel h = tt

  next_loop-Begun : (n fuel : ℕ) → BeginsLoop (next_loop api n fuel)
  unfolding next_loop BeginsLoop Begun
  next_loop-Begun zero fuel c sc w = tt
  next_loop-Begun (suc n) fuel c sc w = go c.status (next_loop-Begun n fuel)
    where
      go :
          (st : Status)
          → BeginsLoop (next_loop api n fuel)
          → Begun (elim st as (λ _. Outcome S Fetched) [
            | c_begin ↦ after_begin api (next_loop api n fuel) (step api.exec fuel c sc w)
            | c_row ↦ by_status api (next_loop api n fuel) c_row c sc w
            | c_done ↦ by_status api (next_loop api n fuel) c_done c sc w
          ])
      go c_begin rec = after_begin-Begun (next_loop api n fuel) _ rec
      go c_row rec = by_status-Begun (next_loop api n fuel) c_row c sc w rec
      go c_done rec = by_status-Begun (next_loop api n fuel) c_done c sc w rec

  next-Begun :
      (n fuel : ℕ) (c : Cursor) (sc : StatementCache) (w : World S) → Begun (next api n fuel c sc w)
  unfolding next on_open Begun BeginsLoop
  next-Begun n fuel c sc w = go c.connection
    where
      go :
          (con : Option ℕ)
          → Begun (on_open api (returned none c sc) con c w (next_loop api n fuel c sc w))
      go none = if-Begun c.inuse _ _ tt tt
      go (some x) =
          if-Begun c.inuse _ _ tt
            (if-Begun (not (w.conns x).open_db) _ _ tt (next_loop-Begun n fuel c sc w))

  get_begun :
      (n fuel : ℕ) (c : Cursor) (sc : StatementCache) (w : World S) (con : ℕ)
      → c.status ≡ c_begin
      → c.connection ≡ some con
      → c.inuse ≡ false
      → (w.conns con).open_db ≡ true
      → get api (suc n) fuel c sc w ≡ assert_fault
  unfolding get on_open get_loop
  get_begun n fuel c sc w con st there free open_db = rw (there, free, open_db, st) refl

  -- After `__next__` has given a row, `get` on the cursor fails its assertion that there is a row,
  -- where it is not refused: the cursor is not in use and its connection is open.
  pub get_after_next :
      (n fuel m fuel' : ℕ) (c c' : Cursor) (sc sc' : StatementCache) (w w' : World S) (v : Fetched)
      (con : ℕ)
      → next api n fuel c sc w ≡ returned (some v) c' sc' w'
      → c'.connection ≡ some con
      → c'.inuse ≡ false
      → (w'.conns con).open_db ≡ true
      → get api (suc m) fuel' c' sc' w' ≡ assert_fault
  unfolding Begun
  get_after_next n fuel m fuel' c c' sc sc' w w' v con e there free open_db =
      get_begun m fuel' c' sc' w' con (subst Begun e (next-Begun n fuel c sc w)) there free open_db
