-- ===== src/Connection/Release.antt =====
-- What the end of a block asks of SQLite (src/connection.c).
use apsw.Prelude.{
  ℕ, zero, suc, ◌≡◌, ap, Bool, true, false, Option, none, some, List, [], ◌∷◌, arith,
}
use apsw.World.{World, Call, Command, release, rollback_to, sqlite_call, set_exc-trace}
use apsw.Connection.Savepoint.{
  SavepointApi, Connection, Outcome, no_memory, failure, success, run_command, tell_tracer,
  trace_and_exec, last_release, roll_back, exit_level, exit_open, checked, exit,
}

abbrev pub newest : List Call → Option Call
newest [] = none
newest (c ∷ cs) = some c

module _ {S : Type 0} (api : SavepointApi S) where
  run_command-newest :
      (cmd : Command) (w : World S) → newest (run_command api cmd w).1.trace ≡ some (Call.exec cmd)
  unfolding run_command sqlite_call
  run_command-newest cmd w = ap newest (set_exc-trace (api.exec w.db cmd).0 _)

  -- The newest call, if the command was executed for certain.
  abbrev Executed : Command → Outcome × World S → Type 0
  Executed cmd (no_memory, w) = ⊥
  Executed cmd (failure, w) = newest w.trace ≡ some (Call.exec cmd)
  Executed cmd (success, w) = newest w.trace ≡ some (Call.exec cmd)

  abbrev Succeeded : Command → Outcome × World S → Type 0
  Succeeded cmd (no_memory, w) = ⊥
  Succeeded cmd (failure, w) = Unit
  Succeeded cmd (success, w) = newest w.trace ≡ some (Call.exec cmd)

  trace_and_exec-Executed :
      (c : Connection) (cmd : Command) (w : World S)
      → api.has_memory w.db cmd ≡ true
      → Executed cmd (trace_and_exec api c cmd true w)
  unfolding trace_and_exec
  trace_and_exec-Executed c cmd w enough =
      ground (arith, run_command-newest cmd (tell_tracer api c.exectrace cmd w).1)

  trace_and_exec-Succeeded :
      (c : Connection) (cmd : Command) (w : World S)
      → api.has_memory w.db cmd ≡ true
      → Succeeded cmd (trace_and_exec api c cmd false w)
  unfolding trace_and_exec
  trace_and_exec-Succeeded c cmd w enough =
      ground (arith, run_command-newest cmd (tell_tracer api c.exectrace cmd w).1)

  module _ (sp : ℕ) (enough : (d : S) (cmd : Command) → api.has_memory d cmd ≡ true) where
    newest-last_release :
        (c : Connection) (b : Bool) (w : World S)
        → c.savepointlevel ≡ sp
        → newest (last_release api c b w).2.trace ≡ some (Call.exec (release sp))
    unfolding last_release
    newest-last_release c b w e =
        let cmd = release c.savepointlevel in
        ground (arith, trace_and_exec-Executed c cmd w (enough w.db cmd))

    newest-roll_back :
        (c : Connection) (b : Bool) (w : World S)
        → c.savepointlevel ≡ sp
        → newest (roll_back api c b w).2.trace ≡ some (Call.exec (release sp))
    unfolding roll_back
    newest-roll_back c b w e =
        let cmd = rollback_to c.savepointlevel in
        let w' = (trace_and_exec api c cmd true w).1 in
        ground (
          arith,
          trace_and_exec-Executed c cmd w (enough w.db cmd),
          newest-last_release c b w' e,
          newest-last_release c true w' e,
        )

    newest-exit_level :
        (c : Connection) (clean : Bool) (w : World S)
        → c.savepointlevel ≡ sp
        → newest (exit_level api c clean w).2.trace ≡ some (Call.exec (release sp))
    unfolding exit_level
    newest-exit_level c false w e = newest-roll_back c false w e
    newest-exit_level c true w e =
        let cmd = release c.savepointlevel in
        let w' = (trace_and_exec api c cmd false w).1 in
        ground
          (arith, trace_and_exec-Succeeded c cmd w (enough w.db cmd), newest-roll_back c true w' e)

  newest-exit_open :
      (n sp : ℕ) (c : Connection) (clean : Bool) (w : World S)
      → ((d : S) (cmd : Command) → api.has_memory d cmd ≡ true)
      → n ≡ suc sp
      → newest (exit_open api n c clean w).2.trace ≡ some (Call.exec (release sp))
  unfolding exit_open
  newest-exit_open zero sp c clean w enough e = absurd (ground (arith, e))
  newest-exit_open (suc n) sp c clean w enough e =
      newest-exit_level sp enough (record c { savepointlevel = n }) clean w (ground (arith, e))

  -- Leaving a block, on an open connection that is not in use and with memory for the commands, ends
  -- with RELEASE of the block's savepoint as the last call of SQLite, also if the exec tracer raises,
  -- the first RELEASE fails or the rollback fails: the savepoint is never left behind unasked.
  pub exit_releases :
      (c : Connection) (clean : Bool) (w : World S) (sp : ℕ)
      → (w.conns c.con).inuse ≡ false
      → (w.conns c.con).open_db ≡ true
      → c.savepointlevel ≡ suc sp
      → ((d : S) (cmd : Command) → api.has_memory d cmd ≡ true)
      → newest (exit api c clean w).2.trace ≡ some (Call.exec (release sp))
  unfolding exit checked
  exit_releases c clean w sp free has level enough =
      rw (free, has) (newest-exit_open c.savepointlevel sp c clean w enough level)
