-- ===== src/Connection/Entering.antt =====
-- Entering a block: what SQLite documents of its savepoints, and the level of the connection
-- (src/connection.c).
use apsw.Prelude.{
  ℕ, zero, suc, ◌≡◌, refl, ap, ◌∙◌, Bool, true, false, Option, none, some, List, [], ◌∷◌, ◌==◌,
  if◌then◌else◌, arith, Bool-cases, inl, inr,
}
use apsw.Errors.{sqlite_ok}
use apsw.World.{
  World, Command, savepoint, release, rollback_to, sqlite_call, set_exc-db, Traced, trace_raises,
  trace_answers, trace_not_bool, allow,
}
use apsw.Connection.Savepoint.{
  SavepointApi, Connection, Ret, run_command, ask_tracer, push_level, enter_open, checked, enter,
}

-- What SQLite documents of savepoints, of which `stack` lists those that are open, the newest first:
-- where it succeeds SAVEPOINT adds one, RELEASE of the newest takes it off, and ROLLBACK TO the newest
-- keeps it. Of a command that fails nothing is said: SQLite may roll back the whole transaction. The
-- tracer is a function of Python: that it uses no savepoint is asked of it.
pub record StackLaws {S : Type 0} (api : SavepointApi S) : Type 0 where
  pub stack : S → List ℕ
  pub savepoint_adds :
      (d : S) (n : ℕ)
      → (api.exec d (savepoint n)).0 ≡ 0
      → stack (api.exec d (savepoint n)).2 ≡ n ∷ stack d
  pub release_takes :
      (d : S) (n : ℕ) (rest : List ℕ)
      → stack d ≡ n ∷ rest
      → (api.exec d (release n)).0 ≡ 0
      → stack (api.exec d (release n)).2 ≡ rest
  pub rollback_keeps :
      (d : S) (n : ℕ) (rest : List ℕ)
      → stack d ≡ n ∷ rest
      → (api.exec d (rollback_to n)).0 ≡ 0
      → stack (api.exec d (rollback_to n)).2 ≡ n ∷ rest
  pub tracer_keeps : (d : S) (t : ℕ) (cmd : Command) → stack (api.tracer d t cmd).1 ≡ stack d

-- The numbers below `n`, the largest first.
abbrev pub countdown : ℕ → List ℕ
countdown zero = []
countdown (suc n) = n ∷ countdown n

module _ {S : Type 0} (api : SavepointApi S) (laws : StackLaws api) where
  -- SQLite's savepoints are those of the blocks that are open.
  abbrev pub Aligned : Connection → World S → Type 0
  Aligned c w = laws.stack w.db ≡ countdown c.savepointlevel

  pub run_command-db :
      (cmd : Command) (w : World S) → (run_command api cmd w).1.db ≡ (api.exec w.db cmd).2
  unfolding run_command sqlite_call
  run_command-db cmd w = set_exc-db (api.exec w.db cmd).0 _

  pub run_command-res :
      (cmd : Command) (w : World S) → (run_command api cmd w).0 ≡ (api.exec w.db cmd).0
  unfolding run_command sqlite_call
  run_command-res cmd w = refl

  ask_tracer-stack :
      (t : Option ℕ) (cmd : Command) (w : World S)
      → laws.stack (ask_tracer api t cmd w).1.db ≡ laws.stack w.db
  unfolding ask_tracer
  ask_tracer-stack none cmd w = refl
  ask_tracer-stack (some t) cmd w = go (api.tracer w.db t cmd) (laws.tracer_keeps w.db t cmd)
    where
      go :
          (r : Traced × S)
          → laws.stack r.1 ≡ laws.stack w.db
          → laws.stack (allow r w).1.db ≡ laws.stack w.db
      go (trace_raises e, d) same = unfold allow in same
      go (trace_not_bool e, d) same = unfold allow in same
      go (trace_answers false, d) same = unfold allow in same
      go (trace_answers true, d) same = unfold allow in same

  -- A block that is entered, with the savepoints in step; or an exception.
  abbrev pub IfEntered : Ret api (Unit {0}) → Type 0
  IfEntered (none, c, w) = Unit
  IfEntered (some u, c, w) = Aligned c w

  push_level-IfEntered :
      (c : Connection) (w : World S) → Aligned c w → IfEntered (push_level api c w)
  unfolding push_level
  push_level-IfEntered c w a =
      let n = c.savepointlevel in
      let db = run_command-db (savepoint n) w in
      let res = run_command-res (savepoint n) w in
      elim (Bool-cases ((run_command api (savepoint n) w).0 == sqlite_ok)) [
        | inl e ↦ rw e (
            ap laws.stack db
            ∙ (laws.savepoint_adds w.db n (ground (arith, e, res)) ∙ ap (λ l. n ∷ l) a))
        | inr e ↦ rw e tt
      ]

  allowed-IfEntered :
      (c : Connection) (w : World S) (r : Bool × World S)
      → laws.stack r.1.db ≡ laws.stack w.db
      → Aligned c w
      → IfEntered (if r.0 then push_level api c r.1 else (none, c, r.1))
  allowed-IfEntered c w (true, w') same a = push_level-IfEntered c w' (same ∙ a)
  allowed-IfEntered c w (false, w') same a = tt

  enter_open-IfEntered :
      (c : Connection) (w : World S) → Aligned c w → IfEntered (enter_open api c w)
  unfolding enter_open
  enter_open-IfEntered c w a =
      let cmd = savepoint c.savepointlevel in
      elim (Bool-cases (api.has_memory w.db cmd)) [
        | inl e ↦ rw e (
            allowed-IfEntered c w (ask_tracer api c.exectrace cmd w)
              (ask_tracer-stack c.exectrace cmd w) a)
        | inr e ↦ rw e tt
      ]

  checked-IfEntered :
      (c : Connection) (w : World S) (r : Ret api (Unit {0}))
      → IfEntered r
      → IfEntered (checked api c w r)
  unfolding checked
  checked-IfEntered c w r h = ground arith

  -- Entering a block keeps SQLite's savepoints and the connection's level in step, where it returns.
  pub enter-IfEntered : (c : Connection) (w : World S) → Aligned c w → IfEntered (enter api c w)
  unfolding enter
  enter-IfEntered c w a = checked-IfEntered c w (enter_open api c w) (enter_open-IfEntered c w a)
