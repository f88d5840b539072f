-- ===== src/Cursor/Step.antt =====
-- The execution of statements: the loop that steps through the statements of a text and the items of
-- `executemany` (`APSWCursor_step` and the exec tracer of src/cursor.c).
use apsw.Prelude.{
  ℕ, zero, suc, ◌-◌, ◌%◌, Bool, true, false, Option, none, some, List, [], ◌==◌, if◌then◌else◌, not,
  ◌&&◌, take, drop,
}
use apsw.Prelude.Int.{ℤ, pos}
use apsw.Errors.{Exn, sqlite_ok, sqlite_row, sqlite_done}
use apsw.World.{World, Call, sqlite_call, set_exc, occurred, raise, Traced, allow}
use apsw.StatementCache.{Statement, StatementCache, finalize, hasmore}
use apsw.StatementCache.Prepare
use apsw.Cursor.{
  CursorApi, Cursor, Bindings, no_bindings, null_bindings, mapping, sequence, c_begin, c_row,
  c_done, is_done, resetcursor,
}
use apsw.Cursor.Binding.{dobindings_on}

-- What is shown to an exec tracer: the text, if there is one, how much of it is this query, and the
-- bindings.
pub record Shown : Type 0 where
  pub utf8 : Option (List ℕ)
  pub query_size : ℕ
  pub bindings : Bindings

-- What is called of SQLite and Python beside that of `CursorApi`: a step of a statement; an item of
-- `executemany` as bindings, `none` where it is neither a mapping nor a sequence; the exec tracer,
-- which is called while the cursor is not in use, and may close or run it: it leaves the cursor, the
-- cache and the world.
pub record ExecApi (S : Type 0) : Type 0 where
  pub cursor : CursorApi S
  pub step : S → ℕ → ℕ × Option Exn × S
  pub as_bindings : S → ℕ → Option Bindings
  pub sequence_error : Exn
  pub connection_exectrace : Option ℕ
  pub exec_trace :
      ℕ → Shown → Cursor → StatementCache → World S → Traced × Cursor × StatementCache × World S

-- How a method ends: it returns its value, `none` for NULL; it leaves the arrays of the statement
-- cache, or fails an assertion there, in the bindings or after the exec tracer; it follows a null statement or query; an
-- assertion on its status fails; or its fuel runs out.
pub data Outcome (S A : Type 0) : Type 0 where
  returned : Option A → Cursor → StatementCache → World S → Outcome S A
  cache_fault null_fault assert_fault no_fuel : Outcome S A

-- How a round of the loop of `APSWCursor_step` ends.
pub data Round (S : Type 0) : Type 0 where
  stop : Option (Unit {0}) → Cursor → StatementCache → World S → Round S
  again : Cursor → StatementCache → World S → Round S
  round_fault round_null : Round S

abbrev pub first_some : Option ℕ → Option ℕ → Option ℕ
first_some none b = b
first_some (some a) b = some a

module _ {S : Type 0} (api : ExecApi S) where
  -- `sqlite3_step`, or SQLITE_DONE for a statement that does nothing.
  unfoldable pub vdbe_step : Option ℕ → World S → ℕ × World S
  vdbe_step none w = (sqlite_done, w)
  vdbe_step (some h) w = sqlite_call (Call.step (some h)) (λ d. api.step d h) w

  -- A reset whose result code is dropped, and the end of the round.
  unfoldable pub reset_and_stop :
      Option (Unit {0}) → Cursor → Bool → StatementCache → World S → Round S
  reset_and_stop value c force sc w = elim (resetcursor api.cursor c force sc w) [
    | none ↦ round_fault
    | some r ↦ stop value r.1 r.2 r.3
  ]

  -- The bindings that the exec tracer is shown: of a sequence, those of this statement.
  unfoldable pub shown_bindings : ℤ → ℤ → Bindings → Bindings
  shown_bindings saved offset no_bindings = no_bindings
  shown_bindings saved offset null_bindings = no_bindings
  shown_bindings saved offset (mapping is_dict m) = mapping is_dict m
  shown_bindings (pos a) (pos b) (sequence values) = sequence (take (b - a) (drop a values))
  shown_bindings saved offset (sequence values) = sequence []

  -- `APSWCursor_do_exec_trace`, if there is a tracer; the flag says that it lets the statement run.
  -- The tracer leaves the cursor, the cache and the world.
  unfoldable pub do_exec_trace :
      Option ℕ
      → Cursor
      → Statement
      → ℤ
      → StatementCache
      → World S
      → (Bool × World S) × Cursor × StatementCache
  do_exec_trace none c s saved sc w = ((true, w), c, sc)
  do_exec_trace (some t) c s saved sc w =
      let (ended, c', sc', w') =
        api.exec_trace t
          (record {
            utf8 = s.utf8;
            query_size = s.query_size;
            bindings = shown_bindings saved c.bindingsoffset c.bindings;
          })
          c sc w in
      (allow (ended, w'.db) w', c', sc')

  -- What follows the tracer; inside `APSWCursor_step` its status is asserted.
  unfoldable pub after_trace : Bool → (Bool × World S) × Cursor × StatementCache → Round S
  after_trace asserts ((ok, w), c, sc) =
      if asserts && not (is_done c.status)
      then round_fault
      else if ok
      then again (record c { status = c_begin }) sc w
      else stop none c sc w

  -- From the bindings of a new statement to the end of the round; the flag is that this is inside
  -- `APSWCursor_step`.
  unfoldable pub run_new : Bool → Statement → Cursor → StatementCache → World S → Round S
  run_new inside s c sc w = elim (dobindings_on api.cursor c s c.bindingsoffset c.bindings w) [
    | none ↦ round_fault
    | some r ↦
        if not r.0
        then stop none r.1 sc r.2
        else after_trace inside (
            do_exec_trace (first_some r.1.exectrace api.connection_exectrace) r.1 s c.bindingsoffset
              sc r.2)
  ]

  -- A new statement, or none and an error.
  unfoldable pub take_new : Option Statement → Cursor → StatementCache → World S → Round S
  take_new none c sc w = stop none (record c { statement = none }) sc w
  take_new (some s) c sc w = run_new true s (record c { statement = some s }) sc w

  -- The original query of `executemany` is prepared again.
  unfoldable pub prepare_again : Option ℕ → Cursor → StatementCache → World S → Round S
  prepare_again none c sc w = round_null
  prepare_again (some query) c sc w =
      elim (Prepare.prepare api.cursor.stmt sc query c.emoptions w) [
        | none ↦ round_fault
        | some r ↦ take_new r.0 c r.1 r.2
      ]

  -- The next item of `executemany`, for which the statement is given back.
  unfoldable pub use_item : ℕ → Cursor → StatementCache → World S → Round S
  use_item x c sc w = elim (finalize api.cursor.stmt sc c.statement w) [
    | none ↦ round_fault
    | some r ↦
        let c' = record c { statement = none; bindings = no_bindings; bindingsoffset = pos 0 } in
        elim (api.as_bindings r.2.db x) [
          | none ↦ stop none c' r.1 (record r.2 { exc = some api.sequence_error })
          | some b ↦ prepare_again c.emoriginalquery (record c' { bindings = b }) r.1 r.2
        ]
  ]

  unfoldable pub next_item : Option ℕ → Cursor → StatementCache → World S → Round S
  next_item none c sc w = reset_and_stop (some tt) c false sc w
  next_item (some i) c sc w =
      let (item, exn, d) = api.cursor.iter_next w.db i in
      let w' = record w { db = d; exc = raise exn w.exc } in
      if occurred w'
      then stop none c sc w'
      else elim item [ none ↦ reset_and_stop (some tt) c false sc w' | some x ↦ use_item x c sc w' ]

  -- The next statement of the text.
  unfoldable pub next_statement : Statement → Cursor → StatementCache → World S → Round S
  next_statement s c sc w = elim (Prepare.next api.cursor.stmt sc s w) [
    | none ↦ round_fault
    | some r ↦
        let w' = set_exc r.0 r.3 in
        if not (r.0 == sqlite_ok)
        then stop none (record c { statement = r.1 }) r.2 w'
        else take_new r.1 c r.2 w'
  ]

  -- The `switch` on the result of the step, and what follows it.
  unfoldable pub after_step : ℕ → Statement → Cursor → StatementCache → World S → Round S
  after_step res s c sc w =
      if res % 256 == sqlite_row
      then stop (if occurred w then none else some tt) (record c { status = c_row }) sc w
      else let c' = record c { status = c_done } in
        if res % 256 == sqlite_done
        then (if occurred w
            then stop none c' sc w
            else if hasmore (some s)
            then next_statement s c' sc w
            else next_item c.emiter c' sc w)
        else reset_and_stop none c' (occurred w) sc w

  -- One round of `APSWCursor_step`.
  unfoldable pub step_round : Option Statement → Cursor → StatementCache → World S → Round S
  step_round none c sc w = round_null
  step_round (some s) c sc w =
      let (res, w') = vdbe_step s.vdbestatement w in after_step res s c sc w'

  -- `APSWCursor_step`, which returns the cursor itself; the fuel is the number of rounds.
  unfoldable pub step : ℕ → Cursor → StatementCache → World S → Outcome S (Unit {0})
  step zero c sc w = no_fuel
  step (suc n) c sc w = elim (step_round c.statement c sc w) [
    | stop value c' sc' w' ↦ returned value c' sc' w'
    | again c' sc' w' ↦ step n c' sc' w'
    | round_fault ↦ cache_fault
    | round_null ↦ null_fault
  ]
