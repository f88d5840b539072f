-- ===== src/Cursor.antt =====
-- Cursors: their state, the release of the statement, closing (src/cursor.c). A result `none` stands
-- for an access outside the arrays of the statement cache, or of the bindings, or a failed assertion.
pub mod Binding
pub mod Reset
pub mod Exact
pub mod Complete
pub mod Step
pub mod Traced
pub mod Execute
pub mod Get
pub mod Gather
pub mod Again
pub mod Attributes
pub mod Coherent
pub mod Rounds
pub mod Methods
pub mod Fetch
pub mod Session
pub mod Rows
pub mod Ends
pub mod Runs
pub mod Tests
use apsw.Prelude.{
  ℕ, Bool, true, false, Option, none, some, List, [], ◌∷◌, ◌==◌, if◌then◌else◌, ◌&&◌, not, is_some,
  ◌>>=◌,
}
use apsw.Prelude.Int.{ℤ, pos, negsuc}
use apsw.Errors.{Exn, ExcClass, sqlite_ok, sqlite_error}
use apsw.World.{
  World, Bound, set_exc, occurred, err_format, threading_violation, write_unraisable,
  remove_dependent, raise,
}
use apsw.StatementCache.{StmtApi, Options, Statement, StatementCache, finalize, hasmore, or_error}
use apsw.Blob.{Force, raise_error, ignore_error, report_error, force_of}

-- A Python value as a binding: a float by its bits, a text or a buffer as `none` where its bytes
-- cannot be had.
pub data Value : Type 0 where
  none_value : Value
  int_value : ℤ → Value
  float_value : ℕ → Value
  str_value buffer_value : Option (List ℕ) → Value
  zeroblob_value : ℤ → Value
  other_value : Value

-- The bindings: nothing, the marker for nulls, a mapping (which may be a `dict`), a sequence.
pub data Bindings : Type 0 where
  no_bindings null_bindings : Bindings
  mapping : Bool → ℕ → Bindings
  sequence : List Value → Bindings

-- What is called of SQLite and Python: a step of an iterator (the item, the exception), the
-- parameters of a statement, one binding, the items of a mapping, and the exceptions of Python for
-- a number that is too large, a text or a buffer that cannot be had.
pub record CursorApi (S : Type 0) : Type 0 where
  pub stmt : StmtApi S
  pub iter_next : S → ℕ → Option ℕ × Option Exn × S
  pub parameter_count : S → Option ℕ → ℕ
  pub parameter_name : S → Option ℕ → ℕ → Option (List ℕ)
  pub bind : S → Option ℕ → ℕ → Bound → ℕ × Option Exn × S
  pub dict_item : S → ℕ → List ℕ → Option Value
  pub mapping_item : S → ℕ → List ℕ → Option Value × Option Exn × S
  pub allow_missing : Bool
  pub int_error : Exn
  pub str_error : Exn
  pub buffer_error : Exn

pub data Status : Type 0 where
  c_begin c_row c_done : Status

abbrev pub is_done : Status → Bool
is_done c_done = true
is_done c_begin = false
is_done c_row = false

-- `id` tells the object from others.
pub record Cursor : Type 0 where
  pub id : ℕ
  pub connection : Option ℕ
  pub inuse : Bool
  pub statement : Option Statement
  pub status : Status
  pub bindings : Bindings
  pub bindingsoffset : ℤ
  pub emiter : Option ℕ
  pub emoriginalquery : Option ℕ
  pub emoptions : Options
  pub exectrace : Option ℕ
  pub rowtrace : Option ℕ

abbrev pub forced : Force → Bool
forced raise_error = false
forced ignore_error = true
forced report_error = true

module _ {S : Type 0} (api : CursorApi S) where
  -- The part of `resetcursor` on the statement.
  unfoldable pub release_statement :
      Option Statement → Bool → StatementCache → World S → Option (ℕ × StatementCache × World S)
  release_statement none force sc w = some (sqlite_ok, sc, w)
  release_statement (some s) force sc w = finalize api.stmt sc (some s) w >>= λ r.
      let res = or_error api.stmt r.0 r.2 in
      some (
        res,
        r.1,
        (if res == sqlite_ok
            then r.2
            else if force && occurred r.2
            then write_unraisable r.2
            else set_exc res r.2),
      )

  -- The part on the statements that are left in the text.
  unfoldable pub check_more : Bool → ℕ → World S → ℕ × World S
  check_more false res w = (res, w)
  check_more true res w =
      if res == sqlite_ok
      then (
        sqlite_error,
        (if occurred w
            then w
            else err_format ExcClass.incomplete
                "Error: there are still remaining sql statements to execute" w),
      )
      else (res, w)

  -- The part on the iterator of `executemany`: it is asked for one more item.
  unfoldable pub check_many : Bool → Option ℕ → ℕ → World S → ℕ × World S
  check_many false it res w = (res, w)
  check_many true none res w = (res, w)
  check_many true (some i) res w =
      let (item, exn, d) = api.iter_next w.db i in
      ((if is_some item then sqlite_error else res), record w { db = d; exc = raise exn w.exc })

  unfoldable pub reset_fields : Cursor → Cursor
  reset_fields c = record c {
    statement = none;
    bindings = no_bindings;
    bindingsoffset = negsuc 0;
    emiter = none;
    emoriginalquery = none;
    status = c_done;
  }

  -- `resetcursor`.
  unfoldable pub resetcursor :
      Cursor → Bool → StatementCache → World S → Option (ℕ × Cursor × StatementCache × World S)
  resetcursor c force sc w =
      release_statement c.statement force sc (if force then record w { exc = none } else w) >>= λ r.
      let pending = not force && not (is_done c.status) in
      let (res, w') = check_more (pending && hasmore c.statement) r.0 r.2 in
      let (res', w'') = check_many pending c.emiter res w' in
      some (res', reset_fields c, r.1, (if force then record w'' { exc = w.exc } else w''))

  unfoldable pub leave_connection : Option ℕ → ℕ → World S → World S
  leave_connection none id w = w
  leave_connection (some con) id w = remove_dependent con (some id) w

  -- The end of `APSWCursor_close_internal`, and all of it; the flag is its result.
  unfoldable pub finish_close :
      Cursor → StatementCache → World S → Bool × Cursor × StatementCache × World S
  finish_close c sc w = (
    false,
    record c { connection = none; emiter = none; exectrace = none; rowtrace = none },
    sc,
    leave_connection c.connection c.id w,
  )

  unfoldable pub close_internal :
      Cursor → Force → StatementCache → World S → Option (Bool × Cursor × StatementCache × World S)
  close_internal c report_error sc w = resetcursor c true sc (record w { exc = none }) >>= λ r.
      some (finish_close r.1 r.2 (record r.3 { exc = w.exc }))
  close_internal c f sc w = resetcursor c (forced f) sc w >>= λ r.
      some (if r.0 == sqlite_ok then finish_close r.1 r.2 r.3 else (true, r.1, r.2, r.3))

  -- `APSWCursor_close`: the value, `none` for NULL, with the object, the cache and the world.
  unfoldable pub close :
      Cursor
      → Bool
      → StatementCache
      → World S
      → Option (Option (Unit {0}) × Cursor × StatementCache × World S)
  close c force sc w =
      if c.inuse
      then some (none, c, sc, threading_violation w)
      else if not (is_some c.connection)
      then some (some tt, c, sc, w)
      else (close_internal c (force_of force) sc w >>= λ r.
          some ((if occurred r.3 then none else some tt), r.1, r.2, r.3))

  -- `APSWCursor_dealloc`.
  unfoldable pub dealloc : Cursor → StatementCache → World S → Option (StatementCache × World S)
  dealloc c sc w = close_internal c report_error sc (record w { exc = none }) >>= λ r.
      some (r.2, record (if occurred r.3 then write_unraisable r.3 else r.3) { exc = w.exc })
