-- ===== src/Cursor/Get.antt =====
-- All the rows in one value: `APSWCursor_get` of src/cursor.c.
use apsw.Prelude.{
  ℕ, zero, suc, Bool, true, false, Option, none, some, List, [], ◌∷◌, ◌++◌, ◌==◌, if◌then◌else◌,
  not,
}
use apsw.World.{World}
use apsw.StatementCache.{Statement, StatementCache}
use apsw.Cursor.{Cursor, Value, Status, c_begin, c_row, c_done, is_done}
use apsw.Cursor.Step.{Outcome, returned, cache_fault, null_fault, assert_fault, no_fuel, step}
use apsw.Cursor.Execute.{RowApi, on_open, convert_column, read_columns}

-- A row: the value of its one column, or a tuple.
pub data Item : Type 0 where
  cell : Value → Item
  tuple : List Value → Item

-- The value of `get`: None, the one row, a list of rows.
pub data Got : Type 0 where
  got_none : Got
  one : Item → Got
  many : List Item → Got

abbrev pub is_row : Status → Bool
is_row c_row = true
is_row c_begin = false
is_row c_done = false

-- `the_row` and `the_list`, of which at most one is set.
pub data Gathered : Type 0 where
  nothing : Gathered
  the_row : Item → Gathered
  the_list : List Item → Gathered

-- A row more: the second one makes the list.
abbrev pub add_row : Gathered → Item → Gathered
add_row nothing r = the_row r
add_row (the_row first) r = the_list (first ∷ r ∷ [])
add_row (the_list l) r = the_list (l ++ (r ∷ []))

-- The value at the end of the loop.
abbrev pub finish : Gathered → Option Got
finish nothing = none
finish (the_row r) = some (one r)
finish (the_list l) = some (many l)

module _ {S : Type 0} (api : RowApi S) where
  -- The row of a statement, or none for a text that is not UTF-8.
  unfoldable pub get_row : Option ℕ → S → Option Item
  get_row vdbe d =
      let n = api.data_count d vdbe in
      if n == 1
      then elim (convert_column api (api.column d vdbe 0)) [ none ↦ none | some v ↦ some (cell v) ]
      else elim (read_columns api n 0 vdbe d) [ none ↦ none | some vs ↦ some (tuple vs) ]

  -- What follows the step.
  unfoldable pub after_get :
      Gathered
      → (Cursor → StatementCache → World S → Outcome S Got)
      → Outcome S (Unit {0})
      → Outcome S Got
  after_get g loop (returned none c sc w) = returned none c sc w
  after_get g loop (returned (some v) c sc w) =
      if is_done c.status then returned (finish g) c sc w else loop c sc w
  after_get g loop cache_fault = cache_fault
  after_get g loop null_fault = null_fault
  after_get g loop assert_fault = assert_fault
  after_get g loop no_fuel = no_fuel

  unfoldable pub with_row :
      {A : Type 0}
      → (Item → Outcome S A)
      → Option Statement
      → Cursor
      → StatementCache
      → World S
      → Outcome S A
  with_row rest none c sc w = null_fault
  with_row rest (some s) c sc w = elim (get_row s.vdbestatement w.db) [
    | none ↦ returned none c sc (record w { exc = some api.decode_error })
    | some r ↦ rest r
  ]

  -- The loop, with fuel for its rounds and for those of each step.
  unfoldable pub get_loop : ℕ → ℕ → Gathered → Cursor → StatementCache → World S → Outcome S Got
  get_loop zero fuel g c sc w = no_fuel
  get_loop (suc n) fuel g c sc w =
      if not (is_row c.status)
      then assert_fault
      else with_row
          (λ r. after_get (add_row g r) (get_loop n fuel (add_row g r)) (step api.exec fuel c sc w))
          c.statement c sc w

  -- `APSWCursor_get`.
  unfoldable pub get : ℕ → ℕ → Cursor → StatementCache → World S → Outcome S Got
  get n fuel c sc w =
      on_open api (returned none c sc) c.connection c w (
        if is_done c.status
        then returned (some got_none) c sc w
        else get_loop n fuel nothing c sc w)
