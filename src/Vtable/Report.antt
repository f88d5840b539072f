-- ===== src/Vtable/Report.antt =====
-- What the callbacks of a virtual table tell SQLite (src/vtable.c).
use apsw.Prelude.{true, false, ℕ, ◌≡◌, refl, Bool, Option, none, List, []}
use apsw.Prelude.Int.{ℤ}
use apsw.World.{World}
use apsw.Cursor.Execute.{Column}
use apsw.Functions.{PyObject, Context}
use apsw.Vtable.Update.{Change, x_update}
use apsw.Vtable.{
  Name, VtableApi, VtableCursor, transaction_method, x_open, x_filter, x_column, x_next, x_close,
  x_rowid, x_rename, x_destroy, x_disconnect, nested_transaction,
}
use apsw.Vtable.Told.{
  Tells, TellsOf, Ends, x_destroy-Ends, x_disconnect-Ends, under_clean, code_of-Tells,
  chain_code-Tells, call_method-Told, call_optional-Tells, x_filter-Tells, opened-Tells,
  close_code-Tells, rowid_result-Tells, column_result-Tells, x_rename-Tells,
}
use apsw.Vtable.Changes.{change-Tells}

module _ {S : Type 0} (api : VtableApi S) where
  -- The callbacks are asked where there is no exception. Of the transactions on a table, its renaming,
  -- the changes to its rows, the opening of a cursor and all that a cursor does but xEof, whatever
  -- the methods of Python do: the code is success exactly where no exception is left. Of the end
  -- of a table, xDestroy and xDisconnect, no exception is left: the code is success and the hook for
  -- unraisable exceptions gets none, or it is the code of the one exception that the hook gets;
  -- xDestroy frees the table on success only, and xDisconnect always.
  pub code-Tells :
      (table : PyObject) (c : VtableCursor) (name : Name) (level n : ℤ) (str : Option (List ℕ))
      (argv : List Column) (args : Change) (no_change unchanged : Bool) (k : Context S)
      → k.world.exc ≡ none
      → let w = k.world in
        TellsOf (transaction_method api table name w)
        × TellsOf (nested_transaction api table name level w)
        × TellsOf (x_rename api table str w)
        × Tells (x_open api table no_change w).0 (x_open api table no_change w).2
        × Tells (x_update api table no_change args w).0 (x_update api table no_change args w).2
        × TellsOf (x_filter api c n str argv w)
        × Tells (x_column api c unchanged n k).0 (x_column api c unchanged n k).1.world
        × Tells (x_rowid api c w).0 (x_rowid api c w).2
        × TellsOf (x_next api c w)
        × TellsOf (x_close api c w)
        × Ends false w.unraised (x_destroy api table w)
        × Ends true w.unraised (x_disconnect api table w)
  unfolding x_update transaction_method nested_transaction x_open x_column x_rowid x_next x_close
  code-Tells table c name level n str argv args no_change unchanged k q = (
    chain_code-Tells _ _ q (call_optional-Tells api table name [] _ refl),
    under_clean TellsOf _ _ _ q (call_optional-Tells api table name _ k.world q),
    x_rename-Tells api table str k.world q,
    under_clean {A = ℕ × Option VtableCursor × World S} (λ r. Tells r.0 r.2) _ _ _ q
        (opened-Tells api no_change _ (call_method-Told api table _ [] k.world q)),
    under_clean {A = ℕ × Option ℤ × World S} (λ r. Tells r.0 r.2) _ _ _ q
        (change-Tells api table no_change args k.world q),
    x_filter-Tells api c n str argv k.world q,
    column_result-Tells api _ _ k (call_method-Told api c.cursor _ _ k.world q),
    under_clean {A = ℕ × Option ℤ × World S} (λ r. Tells r.0 r.2) _ _ _ q
        (rowid_result-Tells api _ (call_method-Told api c.cursor _ [] k.world q)),
    code_of-Tells _ (call_method-Told api c.cursor _ [] k.world q),
    close_code-Tells api _ _ q (call_method-Told api c.cursor _ [] _ refl),
    x_destroy-Ends api table k.world q,
    x_disconnect-Ends api table k.world q,
  )
