-- ===== src/Backup.antt =====
-- Online backups (src/backup.c, and `Connection_backup` of src/connection.c). A method returns its
-- value, `none` for NULL, with the object and the world after it.
pub mod Agreed
pub mod Close
pub mod Flags
pub mod Making
pub mod Open
pub mod RoundTrip
pub mod Tests
use apsw.Prelude.{
  ℕ, Bool, true, false, Option, none, some, List, [], ◌∷◌, ◌==◌, if◌then◌else◌, ◌&&◌, ◌||◌, not,
}
use apsw.Prelude.Int.{ℤ, pos}
use apsw.Errors.{Exn, ExcClass, sqlite_ok, sqlite_error, sqlite_done}
use apsw.World.{
  World, Conn, Call, sqlite_call, set_exc, occurred, err_format, threading_violation,
  write_unraisable, remove_dependent, add_dependent, set_inuse,
}
use apsw.Blob.{Force, raise_error, ignore_error, report_error, force_of}
use Prim.Native.String.{String}

-- What is called of SQLite. `init_handle` is the handle that `sqlite3_backup_init` gives, and the
-- code of `backup_init` is `sqlite3_extended_errcode` after it. The last three are Python's exceptions
-- where there is no memory for the object, for a weak reference to it and for the entry of a
-- connection's list.
pub record BackupApi (S : Type 0) : Type 0 where
  pub backup_init : S → ℕ → String → ℕ → String → ℕ × Option Exn × S
  pub init_handle : S → ℕ → String → ℕ → String → Option ℕ
  pub backup_step : S → ℕ → ℤ → ℕ × Option Exn × S
  pub backup_finish : S → ℕ → ℕ × Option Exn × S
  pub backup_remaining : S → ℕ → ℤ
  pub backup_pagecount : S → ℕ → ℤ
  pub object_error : S → Option Exn
  pub reference_error : S → ℕ → Option Exn
  pub append_error : S → ℕ → Option Exn

-- `id` tells the object from others; `dest` and `source` are connections.
pub record Backup : Type 0 where
  pub id : ℕ
  pub dest : Option ℕ
  pub source : Option ℕ
  pub backup : Option ℕ
  pub done : Bool
  pub inuse : Bool

module _ {S : Type 0} (api : BackupApi S) where
  abbrev pub Ret {ℓ} : Type ℓ → Type ℓ
  Ret A = Option A × Backup × World S

  -- `APSWBackup_init`: the destination is in use until the backup is closed.
  unfoldable pub backup_init : ℕ → ℕ → ℕ → ℕ → World S → Backup × World S
  backup_init id dest source h w = (
    record {
      id = id;
      dest = some dest;
      source = some source;
      backup = some h;
      done = false;
      inuse = false;
    },
    set_inuse dest true w,
  )

  -- What a close does with an error code; the flag says that it set an exception.
  unfoldable pub close_error : Force → ℕ → World S → World S × Bool
  close_error raise_error res w = if res == sqlite_ok then (w, false) else (set_exc res w, true)
  close_error ignore_error res w = (w, false)
  close_error report_error res w = if res == sqlite_ok then (w, false) else (
    record (write_unraisable (set_exc res (record w { exc = none }))) { exc = w.exc },
    false,
  )

  -- The two connections as a close leaves them.
  unfoldable pub free_dest : Option ℕ → ℕ → World S → World S
  free_dest none id w = w
  free_dest (some d) id w = remove_dependent d (some id) (set_inuse d false w)

  unfoldable pub free_source : Option ℕ → ℕ → World S → World S
  free_source none id w = w
  free_source (some s) id w = remove_dependent s (some id) w

  -- `APSWBackup_close_internal`.
  unfoldable pub close_handle : Option ℕ → Backup → Force → World S → Bool × Backup × World S
  close_handle none b force w = (false, b, w)
  close_handle (some h) b force w =
      let (res, w') = sqlite_call (Call.backup_finish h) (λ d. api.backup_finish d h) w in
      let (w'', setexc) = close_error force res w' in
      (
        setexc,
        record b { backup = none; dest = none; source = none },
        free_source b.source b.id (free_dest b.dest b.id w''),
      )

  unfoldable pub close_internal : Backup → Force → World S → Bool × Backup × World S
  close_internal b force w = close_handle b.backup b force w

  -- `APSWBackup_dealloc`.
  unfoldable pub dealloc : Backup → World S → World S
  dealloc b w = (close_internal b report_error w).2

  -- `CHECK_USE`, then the rest of the method.
  unfoldable pub unless_used {ℓ} : {A : Type ℓ} → Backup → World S → Ret A → Ret A
  unless_used b w rest = if b.inuse then (none, b, threading_violation w) else rest

  -- A connection that is there and has been closed.
  unfoldable pub is_gone : Option ℕ → World S → Bool
  is_gone none w = false
  is_gone (some c) w = not (w.conns c).open_db

  -- `CHECK_BACKUP_CLOSED`, then the rest of the method on the handle.
  unfoldable pub unless_closed {ℓ} :
      {A : Type ℓ} → Option ℕ → Backup → World S → (ℕ → Ret A) → Ret A
  unless_closed none b w rest = (
    none,
    b,
    err_format ExcClass.connection_closed
        "The backup is finished or the source or destination databases have been closed" w,
  )
  unless_closed (some h) b w rest =
      if is_gone b.dest w || is_gone b.source w
      then (
        none,
        b,
        err_format ExcClass.connection_closed
            "The backup is finished or the source or destination databases have been closed" w,
      )
      else rest h

  -- What `APSWBackup_step` makes of the result code.
  unfoldable pub step_result : Backup → ℕ → World S → Ret Bool
  step_result b res w =
      if occurred w
      then (none, b, w)
      else if res == sqlite_done
      then (some true, record b { done = true }, w)
      else if res == sqlite_ok
      then (some b.done, b, w)
      else (none, b, set_exc res w)

  unfoldable pub step_open : Backup → ℤ → World S → ℕ → Ret Bool
  step_open b npages w h =
      let (res, w') = sqlite_call (Call.backup_step h) (λ d. api.backup_step d h npages) w in
      step_result b res w'

  -- `APSWBackup_step`.
  unfoldable pub step : Backup → ℤ → World S → Ret Bool
  step b npages w = unless_used b w (unless_closed b.backup b w (step_open b npages w))

  abbrev finish_close {ℓ} : {A : Type ℓ} → A → Bool × Backup × World S → Ret A
  finish_close value (setexc, b, w) = ((if setexc then none else some value), b, w)

  -- `APSWBackup_finish`, `APSWBackup_close` and `APSWBackup_exit`. The flag of `exit` is that an
  -- exception ends the block.
  unfoldable pub finish : Backup → World S → Ret (Unit {0})
  finish b w = unless_used b w (finish_close tt (close_internal b raise_error w))

  unfoldable pub close : Backup → Bool → World S → Ret (Unit {0})
  close b force w = unless_used b w (finish_close tt (close_internal b (force_of force) w))

  unfoldable pub exit : Backup → Bool → World S → Ret Bool
  exit b raising w = unless_used b w (finish_close false (close_internal b (force_of raising) w))

  -- `APSWBackup_get_remaining` and `APSWBackup_get_page_count`.
  unfoldable pub remaining : Backup → World S → Ret ℤ
  remaining b w =
      unless_used b w
        (some (elim b.backup [ none ↦ pos 0 | some h ↦ api.backup_remaining w.db h ]), b, w)

  unfoldable pub page_count : Backup → World S → Ret ℤ
  page_count b w =
      unless_used b w
        (some (elim b.backup [ none ↦ pos 0 | some h ↦ api.backup_pagecount w.db h ]), b, w)

  -- `APSWBackup_enter`, which returns the object itself.
  unfoldable pub enter : Backup → World S → Ret (Unit {0})
  enter b w = unless_used b w (unless_closed b.backup b w λ h. (some tt, b, w))

  -- An exception ends the work, or there is none.
  unfoldable pub unless_error : Option Exn → World S → Bool × World S → Bool × World S
  unless_error (some e) w rest = (false, record w { exc = some e })
  unless_error none w rest = rest

  -- `PyWeakref_NewRef` and `PyList_Append`; the flag says that they succeed.
  unfoldable pub add_reference : ℕ → ℕ → World S → Bool × World S
  add_reference con id w =
      unless_error (api.reference_error w.db con) w
        (unless_error (api.append_error w.db con) w (true, add_dependent con id w))

  -- The object is on the source's list, or it is dropped.
  unfoldable pub on_source : Backup → ℕ → Bool × World S → Option Backup × World S
  on_source b source (false, w) = (none, set_inuse source false (dealloc b w))
  on_source b source (true, w) = (some b, set_inuse source false w)

  unfoldable pub on_dest : Backup → ℕ → Bool × World S → Option Backup × World S
  on_dest b source (false, w) = (none, set_inuse source false (dealloc b w))
  on_dest b source (true, w) = on_source b source (add_reference source b.id w)

  -- `_PyObject_New`, and the lists; without an object the handle is finished.
  unfoldable pub make_object : ℕ → ℕ → ℕ → ℕ → Option Exn → World S → Option Backup × World S
  make_object id dest source h (some e) w = (
    none,
    set_inuse source false
        (sqlite_call (Call.backup_finish h) (λ d. api.backup_finish d h)
          (record w { exc = some e })).1,
  )
  make_object id dest source h none w =
      let (b, w') = backup_init id dest source h w in on_dest b source (add_reference dest id w')

  -- `assert(result ? (PyErr_Occurred() == NULL) : (PyErr_Occurred() != NULL))`.
  unfoldable pub result_agrees : Option Backup × World S → Bool
  result_agrees (some b, w) = not (occurred w)
  result_agrees (none, w) = occurred w

  -- `Connection_backup` from `sqlite3_backup_init` on; the source is in use.
  unfoldable pub start : ℕ → ℕ → ℕ → Option ℕ → ℕ → World S → Option Backup × World S
  start id dest source none res w =
      (none, set_inuse source false (set_exc (if res == sqlite_ok then sqlite_error else res) w))
  start id dest source (some h) res w = make_object id dest source h (api.object_error w.db) w

  unfoldable pub check_source : ℕ → ℕ → String → ℕ → String → World S → Option Backup × World S
  check_source id dest name source sname w =
      if not (w.conns source).open_db
      then (none, err_format ExcClass.value_error "source connection is closed!" w)
      else if (w.conns source).inuse
      then (
        none,
        err_format ExcClass.threading_violation
            "source connection is in concurrent use in another thread" w,
      )
      else if source == dest
      then (
        none,
        err_format ExcClass.value_error
            "source and destination are the same which sqlite3_backup doesn't allow" w,
      )
      else let w' = set_inuse source true w in
        let (res, w'') =
          sqlite_call (Call.backup_init dest) (λ d. api.backup_init d dest name source sname) w' in
        start id dest source (api.init_handle w.db dest name source sname) res w''

  -- The refusal of a destination with dependents; its first argument is the list of them.
  unfoldable pub check_dependents :
      List (Option ℕ) → ℕ → ℕ → String → ℕ → String → World S → Option Backup × World S
  check_dependents [] id dest name source sname w = check_source id dest name source sname w
  check_dependents (o ∷ ds) id dest name source sname w = (
    none,
    err_format ExcClass.threading_violation
        "The destination database has outstanding objects open on it.  They must all be closed for the backup to proceed (otherwise corruption would be possible.)"
        w,
  )

  -- `Connection_backup`: the object that it makes, with the number `id`. Every connection has a
  -- database handle of its own.
  unfoldable pub connection_backup : ℕ → ℕ → String → ℕ → String → World S → Option Backup × World S
  connection_backup id dest name source sname w =
      if (w.conns dest).inuse
      then (none, threading_violation w)
      else if not (w.conns dest).open_db
      then (none, err_format ExcClass.connection_closed "The connection has been closed" w)
      else let w' = remove_dependent dest none w in
        check_dependents (w'.conns dest).dependents id dest name source sname w'
