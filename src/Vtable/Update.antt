-- ===== src/Vtable/Update.antt =====
-- Changing the rows of a virtual table (`apswvtabUpdate` of src/vtable.c).
use apsw.Prelude.{
  ℕ, Bool, true, false, Option, none, some, List, [], ◌∷◌, ◌++◌, if◌then◌else◌, ◌⊎◌, inl, ◌&&◌,
}
use apsw.Prelude.Int.{ℤ}
use apsw.Errors.{Exn, sqlite_error}
use apsw.World.{World}
use apsw.Cursor.Execute.{
  Column, column_null, column_integer, column_float, column_text, column_blob,
}
use apsw.Functions.{PyObject, by_exception, convert_value, convert_all, join_arg, given_args}
use apsw.Hooks.Answers.{set_world_exc}
use apsw.Vfs.File.{sqlite_msg}
use apsw.Vtable.{
  update_delete_row, update_insert_row, update_change_row, VtableApi, code_of, call_method,
  rowid_number,
}

-- A value for a column, with the flag `sqlite3_value_nochange`.
pub record Field : Type 0 where
  pub unchanged : Bool
  pub value : Column

-- The arguments: one, of the row to delete, or the old and the new number of the row and the values.
pub data Change : Type 0 where
  delete_row : Column → Change
  change_row : Column → Column → List Field → Change

-- `sqlite3_value_type` is `SQLITE_NULL`.
abbrev pub is_null : Column → Bool
is_null column_null = true
is_null (column_integer n) = false
is_null (column_float d) = false
is_null (column_text t) = false
is_null (column_blob b) = false

module _ {S : Type 0} (api : VtableApi S) where
  -- The code, the number of a new row where there is one, and the world.
  abbrev pub Changed : Type 0
  Changed = ℕ × Option ℤ × World S

  unfoldable pub convert_field : Bool → Field → PyObject ⊎ Exn
  convert_field use_no_change f =
      if use_no_change && f.unchanged
      then inl api.no_change
      else convert_value api.functions f.value

  unfoldable pub convert_fields : Bool → List Field → List PyObject ⊎ Exn
  convert_fields use_no_change [] = inl []
  convert_fields use_no_change (f ∷ fs) =
      join_arg (convert_field use_no_change f) (convert_fields use_no_change fs)

  abbrev pub update_fails : World S → Changed
  update_fails w = (sqlite_msg w, none, w)

  -- Without a number of a row.
  abbrev pub no_rowid : ℕ × World S → Changed
  no_rowid r = (r.0, none, r.1)

  -- Where SQLite has no number for the new row, the method gives it.
  unfoldable pub inserted : Column → Option PyObject × World S → Changed
  inserted new (none, w) = update_fails w
  inserted new (some o, w) =
      if is_null new then rowid_number api (api.number_index w.db o) w else (0, none, w)

  unfoldable pub insert_row : PyObject → Column → List PyObject → World S → Changed
  insert_row vtable new columns w =
      given_args (convert_all api.functions (new ∷ [])) (λ e. update_fails (set_world_exc e w))
        (λ ids. inserted new (call_method api vtable update_insert_row (ids ++ columns) w))

  unfoldable pub move_row : PyObject → Column → Column → List PyObject → World S → Changed
  move_row vtable old new columns w =
      given_args (convert_all api.functions (old ∷ new ∷ []))
        (λ e. update_fails (set_world_exc e w))
        (λ ids. no_rowid (code_of (call_method api vtable update_change_row (ids ++ columns) w)))

  unfoldable pub change : PyObject → Bool → Change → World S → Changed
  change vtable use_no_change (delete_row old) w =
      given_args (convert_all api.functions (old ∷ [])) (λ e. update_fails (set_world_exc e w))
        (λ ids. no_rowid (code_of (call_method api vtable update_delete_row ids w)))
  change vtable use_no_change (change_row old new fields) w =
      given_args (convert_fields use_no_change fields) (λ e. update_fails (set_world_exc e w))
        (λ columns.
          if is_null old
          then insert_row vtable new columns w
          else move_row vtable old new columns w)

  -- `apswvtabUpdate`, with memory for the tuple of the columns.
  unfoldable pub x_update : PyObject → Bool → Change → World S → Changed
  x_update vtable use_no_change args w =
      by_exception w.exc (λ e. (sqlite_error, none, w)) (change vtable use_no_change args w)
