-- ===== src/Connection/Savepoint.antt =====
-- The context manager of a connection: nested savepoints (`Connection_enter`, `Connection_exit` and
-- `connection_trace_and_exec` of src/connection.c). A method returns its value, `none` for NULL,
-- with the object and the world after it.
use apsw.Prelude.{
  ℕ, zero, suc, Bool, true, false, Option, none, some, ◌==◌, if◌then◌else◌, ◌&&◌, ◌||◌, not,
}
use apsw.Errors.{Exn, ExcClass, sqlite_ok}
use apsw.World.{
  World, Call, Command, savepoint, release, rollback_to, sqlite_call, set_exc, occurred, err_format,
  threading_violation, raise, Traced, trace_raises, trace_answers, trace_not_bool, allow,
}

-- What is called of SQLite and Python: the memory for a command's text, its execution, the tracer.
pub record SavepointApi (S : Type 0) : Type 0 where
  pub has_memory : S → Command → Bool
  pub exec : S → Command → ℕ × Option Exn × S
  pub tracer : S → ℕ → Command → Traced × S

-- The fields of the connection that these methods read, with the number of its entry in the world.
pub record Connection : Type 0 where
  pub con : ℕ
  pub savepointlevel : ℕ
  pub exectrace : Option ℕ

-- The results -1, 0 and 1 of `connection_trace_and_exec`.
pub data Outcome : Type 0 where
  no_memory failure success : Outcome

module _ {S : Type 0} (api : SavepointApi S) where
  abbrev pub Ret {ℓ} : Type ℓ → Type ℓ
  Ret A = Option A × Connection × World S

  abbrev pub memory_error : World S → World S
  memory_error w = err_format ExcClass.memory_error "" w

  -- `sqlite3_exec` of a command.
  unfoldable pub run_command : Command → World S → ℕ × World S
  run_command cmd w =
      let (res, w') = sqlite_call (Call.exec cmd) (λ d. api.exec d cmd) w in (res, set_exc res w')

  -- The tracer of `Connection_enter`: the flag says that it allows the command.
  unfoldable pub ask_tracer : Option ℕ → Command → World S → Bool × World S
  ask_tracer none cmd w = (true, w)
  ask_tracer (some t) cmd w = allow (api.tracer w.db t cmd) w

  -- `Connection_enter` from the execution on.
  unfoldable pub push_level : Connection → World S → Ret (Unit {0})
  push_level c w =
      let (res, w') = run_command (savepoint c.savepointlevel) w in
      if not (res == sqlite_ok)
      then (none, c, w')
      else (some tt, record c { savepointlevel = suc c.savepointlevel }, w')

  unfoldable pub enter_open : Connection → World S → Ret (Unit {0})
  enter_open c w =
      if not (api.has_memory w.db (savepoint c.savepointlevel))
      then (none, c, memory_error w)
      else let (allowed, w') = ask_tracer c.exectrace (savepoint c.savepointlevel) w in
        if allowed then push_level c w' else (none, c, w')

  -- `CHECK_USE` and `CHECK_CLOSED`, then the rest of the method.
  unfoldable pub checked {ℓ} : {A : Type ℓ} → Connection → World S → Ret A → Ret A
  checked c w rest =
      if (w.conns c.con).inuse
      then (none, c, threading_violation w)
      else if not (w.conns c.con).open_db
      then (none, c, err_format ExcClass.connection_closed "The connection has been closed" w)
      else rest

  -- `Connection_enter`, which returns the object itself.
  unfoldable pub enter : Connection → World S → Ret (Unit {0})
  enter c w = checked c w (enter_open c w)

  -- The tracer of `connection_trace_and_exec`: the flag says that it returns a value. The exception
  -- that was there is kept, or chained to the tracer's.
  unfoldable pub notify : Traced × S → World S → Bool × World S
  notify (trace_raises e, d) w = (false, record w { db = d; exc = raise (some e) w.exc })
  notify (trace_not_bool e, d) w = (true, record w { db = d })
  notify (trace_answers b, d) w = (true, record w { db = d })

  unfoldable pub tell_tracer : Option ℕ → Command → World S → Bool × World S
  tell_tracer none cmd w = (true, w)
  tell_tracer (some t) cmd w = notify (api.tracer w.db t cmd) w

  -- `connection_trace_and_exec`; the flag is `continue_on_trace_error`.
  unfoldable pub trace_and_exec : Connection → Command → Bool → World S → Outcome × World S
  trace_and_exec c cmd go_on w =
      if not (api.has_memory w.db cmd)
      then (no_memory, memory_error w)
      else let (told, w') = tell_tracer c.exectrace cmd w in
        if not told && not go_on
        then (failure, w')
        else let (res, w'') = run_command cmd w' in
          if occurred w'' || not (res == sqlite_ok) then (failure, w'') else (success, w'')

  -- The last step of `Connection_exit`: the release after a rollback.
  unfoldable pub last_release : Connection → Bool → World S → Ret Bool
  last_release c return_null w =
      let (out, w') = trace_and_exec c (release c.savepointlevel) true w in
      elim out [
        | no_memory ↦ (none, c, w')
        | failure ↦ (none, c, w')
        | success ↦ ((if return_null then none else some false), c, w')
      ]

  unfoldable pub roll_back : Connection → Bool → World S → Ret Bool
  roll_back c return_null w =
      let (out, w') = trace_and_exec c (rollback_to c.savepointlevel) true w in
      elim out [
        | no_memory ↦ (none, c, w')
        | failure ↦ last_release c true w'
        | success ↦ last_release c return_null w'
      ]

  -- `Connection_exit` on the object whose level has been lowered. The flag is that no exception ends
  -- the block.
  unfoldable pub exit_level : Connection → Bool → World S → Ret Bool
  exit_level c false w = roll_back c false w
  exit_level c true w =
      let (out, w') = trace_and_exec c (release c.savepointlevel) false w in
      elim out [
        | no_memory ↦ (none, c, w')
        | success ↦ (some false, c, w')
        | failure ↦ roll_back c true w'
      ]

  unfoldable pub exit_open : ℕ → Connection → Bool → World S → Ret Bool
  exit_open zero c clean w = (some false, c, w)
  exit_open (suc sp) c clean w = exit_level (record c { savepointlevel = sp }) clean w

  -- `Connection_exit`.
  unfoldable pub exit : Connection → Bool → World S → Ret Bool
  exit c clean w = checked c w (exit_open c.savepointlevel c clean w)
