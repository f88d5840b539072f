-- ===== src/Vtable.antt =====
-- The callbacks of a virtual table and of its cursors (src/vtable.c).
pub mod Update
pub mod Told
pub mod Changes
pub mod Report
pub mod Scan
pub mod Tests
use Prim.Native.String.{String}
use apsw.Prelude.{
  ℕ, Bool, true, false, Option, none, some, List, [], ◌∷◌, ◌++◌, if◌then◌else◌, ◌⊎◌, inl, inr, not,
  ◌==◌, ◌&&◌, ◌||◌,
}
use apsw.Prelude.Int.{ℤ, pos}
use apsw.Errors.{Exn}
use apsw.World.{World, raise, occurred, write_unraisable}
use apsw.Cursor.{int_value}
use apsw.Cursor.Binding.{fits_int64}
use apsw.Cursor.Execute.{Column, column_null, column_integer, column_text}
use apsw.Functions.{
  PyObject, plain, object, Context, FunctionApi, by_exception, set_context_result, convert_all,
  given_args,
}
use apsw.Hooks.Answers.{set_world_exc, answered, int_of, on_int, is_zero, is_true_strict}
use apsw.Hooks.Callbacks.{text_or_null}
use apsw.Vfs.File.{sqlite_msg}

-- The methods that are called, by their names in Python.
pub data Name : Type 0 where
  begin sync commit rollback : Name
  destroy disconnect open_cursor rename : Name
  savepoint_method release_method rollback_to_method : Name
  filter eof column column_no_change next close rowid : Name
  update_delete_row update_insert_row update_change_row : Name

-- What is called: a method of an object, whether it has it, `PyNumber_Long`, the
-- number that `PyLong_AsLongLong` takes an object for, and what `FunctionApi` has.
-- `no_change` is the object `apsw.no_change`, which `is_no_change` knows.
pub record VtableApi (S : Type 0) : Type 0 where
  pub functions : FunctionApi S
  pub has_method : S → PyObject → Name → Bool
  pub method : S → PyObject → Name → List PyObject → (PyObject ⊎ Exn) × S
  pub number_long : S → PyObject → (ℤ ⊎ Exn) × S
  pub number_index : S → PyObject → (ℤ ⊎ Exn) × S
  pub no_change : PyObject
  pub is_no_change : PyObject → Bool

-- `apsw_vtable_cursor`.
pub record VtableCursor : Type 0 where
  pub cursor : PyObject
  pub use_no_change : Bool

module _ {S : Type 0} where
  -- The code for what a call leaves, whose object does not matter.
  unfoldable pub code_of : Option PyObject × World S → ℕ × World S
  code_of (some v, w) = (0, w)
  code_of (none, w) = (sqlite_msg w, w)

  -- The code for the exception that there is.
  unfoldable pub fail_with : World S → ℕ × World S
  fail_with w = (sqlite_msg w, w)

  -- The end of `CHAIN_EXC`.
  unfoldable pub chain_code : Option Exn → ℕ × World S → ℕ × World S
  chain_code saved (res, w) = (res, record w { exc = raise w.exc saved })

module _ {S : Type 0} (api : VtableApi S) where
  unfoldable pub call_method : PyObject → Name → List PyObject → World S → Option PyObject × World S
  call_method o name vargs w = answered (api.method w.db o name vargs) w

  -- A method that the object need not have.
  unfoldable pub call_optional : PyObject → Name → List PyObject → World S → ℕ × World S
  call_optional o name vargs w =
      if api.has_method w.db o name then code_of (call_method o name vargs w) else (0, w)

  -- `apswvtabTransactionMethod`, for `xBegin`, `xSync`, `xCommit` and `xRollback`.
  unfoldable pub transaction_method : PyObject → Name → World S → ℕ × World S
  transaction_method vtable name w =
      chain_code w.exc (call_optional vtable name [] (record w { exc = none }))

  -- `apswvtabDestroyOrDisconnect`: the code, and whether the table is freed.
  unfoldable pub end_table : Name → Bool → ℕ × World S → ℕ × Bool × World S
  end_table name is_disconnect (res, w) =
      (res, res == 0 || is_disconnect, if occurred w then write_unraisable w else w)

  unfoldable pub x_destroy : PyObject → World S → ℕ × Bool × World S
  x_destroy vtable w =
      end_table destroy false
        (chain_code w.exc (code_of (call_method vtable destroy [] (record w { exc = none }))))

  unfoldable pub x_disconnect : PyObject → World S → ℕ × Bool × World S
  x_disconnect vtable w =
      end_table disconnect true
        (chain_code w.exc (call_optional vtable disconnect [] (record w { exc = none })))

  -- `apswvtabOpen`, with memory for the cursor.
  unfoldable pub opened : Bool → Option PyObject × World S → ℕ × Option VtableCursor × World S
  opened no_change (none, w) = (sqlite_msg w, none, w)
  opened no_change (some o, w) = (0, some (record { cursor = o; use_no_change = no_change }), w)

  unfoldable pub x_open : PyObject → Bool → World S → ℕ × Option VtableCursor × World S
  x_open vtable no_change w =
      by_exception w.exc (λ e. (sqlite_msg w, none, w))
        (opened no_change (call_method vtable open_cursor [] w))

  -- `apswvtabFilter`; the values of the constraints are converted first.
  unfoldable pub x_filter : VtableCursor → ℤ → Option (List ℕ) → List Column → World S → ℕ × World S
  x_filter c idx_num idx_str argv w =
      by_exception w.exc (λ e. fail_with w)
        (given_args (convert_all api.functions argv) (λ e. fail_with (set_world_exc e w))
          (λ values.
            given_args
              (convert_all api.functions (column_integer idx_num ∷ text_or_null idx_str ∷ []))
              (λ e. fail_with (set_world_exc e w))
              (λ index. code_of (call_method c.cursor filter (index ++ values) w))))

  -- The truth of what `Eof` gives, or the code of an exception.
  unfoldable pub eof_result : Option PyObject × World S → ℕ × World S
  eof_result (none, w) = fail_with w
  eof_result (some v, w) =
      on_int (int_of v) (fail_with (is_true_strict 0 v w).1) (λ n. (if is_zero n then 0 else 1, w))

  -- `apswvtabEof`.
  unfoldable pub x_eof : VtableCursor → World S → ℕ × World S
  x_eof c w = by_exception w.exc (λ e. fail_with w) (eof_result (call_method c.cursor eof [] w))

  -- The end of `apswvtabColumn`: no exception is success.
  unfoldable pub column_code : Context S → ℕ × Context S
  column_code c = by_exception c.world.exc (λ e. (sqlite_msg c.world, c)) (0, c)

  unfoldable pub column_result : Bool → Option PyObject × World S → Context S → ℕ × Context S
  column_result nc (none, w) c = (sqlite_msg w, record c { world = w })
  column_result nc (some v, w) c =
      if nc && api.is_no_change v
      then column_code (record c { world = w })
      else column_code (set_context_result api.functions v (record c { world = w })).1

  -- `apswvtabColumn`; the flag is `sqlite3_vtab_nochange`.
  unfoldable pub x_column : VtableCursor → Bool → ℤ → Context S → ℕ × Context S
  x_column cur unchanged ncolumn c =
      let nc = cur.use_no_change && unchanged in
      column_result nc
        (call_method cur.cursor (if nc then column_no_change else column)
          (plain (int_value ncolumn) ∷ []) c.world)
        c

  -- `apswvtabNext`.
  unfoldable pub x_next : VtableCursor → World S → ℕ × World S
  x_next c w = code_of (call_method c.cursor next [] w)

  -- `apswvtabClose`: the code is that of the exception after the chaining.
  unfoldable pub close_code : Option Exn → Option PyObject × World S → ℕ × World S
  close_code saved (v, w) = code_of (v, record w { exc = raise w.exc saved })

  unfoldable pub x_close : VtableCursor → World S → ℕ × World S
  x_close c w = close_code w.exc (call_method c.cursor close [] (record w { exc = none }))

  -- The number of a row: an `int` of 64 bits, or an exception; the row identifier is `none` where
  -- SQLite gets an error.
  unfoldable pub rowid_number : (ℤ ⊎ Exn) × S → World S → ℕ × Option ℤ × World S
  rowid_number (inr e, d) w =
      let w' = set_world_exc e (record w { db = d }) in (sqlite_msg w', none, w')
  rowid_number (inl n, d) w =
      let w' = record w { db = d } in
      if fits_int64 n
      then (0, some n, w')
      else let w'' = set_world_exc api.functions.int_error w' in (sqlite_msg w'', none, w'')

  unfoldable pub rowid_result : Option PyObject × World S → ℕ × Option ℤ × World S
  rowid_result (none, w) = (sqlite_msg w, none, w)
  rowid_result (some v, w) = rowid_number (api.number_long w.db v) w

  -- `apswvtabRowid`.
  unfoldable pub x_rowid : VtableCursor → World S → ℕ × Option ℤ × World S
  x_rowid c w =
      by_exception w.exc (λ e. (sqlite_msg w, none, w))
        (rowid_result (call_method c.cursor rowid [] w))

  -- `apswvtabRename`: an exception from before is an error too.
  unfoldable pub x_rename : PyObject → Option (List ℕ) → World S → ℕ × World S
  x_rename vtable name w =
      by_exception w.exc (λ e. fail_with w)
        (if api.has_method w.db vtable rename
          then given_args (convert_all api.functions (text_or_null name ∷ []))
              (λ e. fail_with (set_world_exc e w))
              (λ vargs. code_of (call_method vtable rename vargs w))
          else (0, w))

  -- `apswvtabSavepoint`, `apswvtabRelease` and `apswvtabRollbackTo`: with an exception from before
  -- the method is not called, and the result is success.
  unfoldable pub nested_transaction : PyObject → Name → ℤ → World S → ℕ × World S
  nested_transaction vtable name level w =
      by_exception w.exc (λ e. (0, w)) (call_optional vtable name (plain (int_value level) ∷ []) w)
