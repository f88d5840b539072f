-- ===== src/Connection/Leaving.antt =====
-- Leaving a block, by a release or a rollback (src/connection.c).
use apsw.Prelude.{
  ℕ, zero, suc, ◌≡◌, refl, ap, ◌∙◌, Bool, true, false, Option, none, some, List, ◌∷◌, if◌then◌else◌,
  arith,
}
use apsw.World.{
  World, Command, release, rollback_to, Traced, trace_raises, trace_answers, trace_not_bool,
}
use apsw.Connection.Savepoint.{
  SavepointApi, Connection, Ret, Outcome, no_memory, failure, success, checked, notify, tell_tracer,
  trace_and_exec, last_release, roll_back, exit_level, exit_open, exit,
}
use apsw.Connection.Entering.{StackLaws, countdown, Aligned, run_command-db, run_command-res}

module _ {S : Type 0} (api : SavepointApi S) (laws : StackLaws api) where
  tell_tracer-stack :
      (t : Option ℕ) (cmd : Command) (w : World S)
      → laws.stack (tell_tracer api t cmd w).1.db ≡ laws.stack w.db
  unfolding tell_tracer
  tell_tracer-stack none cmd w = refl
  tell_tracer-stack (some t) cmd w = go (api.tracer w.db t cmd) (laws.tracer_keeps w.db t cmd)
    where
      go :
          (r : Traced × S)
          → laws.stack r.1 ≡ laws.stack w.db
          → laws.stack (notify api r w).1.db ≡ laws.stack w.db
      go (trace_raises e, d) same = unfold notify in same
      go (trace_not_bool e, d) same = unfold notify in same
      go (trace_answers b, d) same = unfold notify in same

  -- What `connection_trace_and_exec` leaves of the savepoints, by its result.
  abbrev pub Releases : ℕ → List ℕ → Outcome × World S → Type 0
  Releases sp rest (no_memory, w) = Unit
  Releases sp rest (failure, w) = Unit
  Releases sp rest (success, w) = laws.stack w.db ≡ rest

  trace_and_exec-Releases :
      (c : Connection) (sp : ℕ) (rest : List ℕ) (go_on : Bool) (w : World S)
      → laws.stack w.db ≡ sp ∷ rest
      → Releases sp rest (trace_and_exec api c (release sp) go_on w)
  unfolding trace_and_exec
  trace_and_exec-Releases c sp rest go_on w a =
      let w' = (tell_tracer api c.exectrace (release sp) w).1 in
      let same = tell_tracer-stack c.exectrace (release sp) w in
      ground (
        arith,
        run_command-res api laws (release sp) w',
        ap laws.stack (run_command-db api laws (release sp) w'),
        laws.release_takes w'.db sp rest (same ∙ a),
      )

  -- A rollback that succeeds leaves the savepoints that a release then finds.
  trace_and_exec-rollback :
      (c : Connection) (sp : ℕ) (rest : List ℕ) (go_on : Bool) (w : World S)
      → laws.stack w.db ≡ sp ∷ rest
      → Releases sp (sp ∷ rest) (trace_and_exec api c (rollback_to sp) go_on w)
  unfolding trace_and_exec
  trace_and_exec-rollback c sp rest go_on w a =
      let w' = (tell_tracer api c.exectrace (rollback_to sp) w).1 in
      let same = tell_tracer-stack c.exectrace (rollback_to sp) w in
      ground (
        arith,
        run_command-res api laws (rollback_to sp) w',
        ap laws.stack (run_command-db api laws (rollback_to sp) w'),
        laws.rollback_keeps w'.db sp rest (same ∙ a),
      )

  -- A value that is returned, with the savepoints in step; or none.
  abbrev pub IfReturned : Ret api Bool → Type 0
  IfReturned (none, c, w) = Unit
  IfReturned (some b, c, w) = Aligned api laws c w

  last_release-IfReturned :
      (c : Connection) (b : Bool) (w : World S)
      → laws.stack w.db ≡ c.savepointlevel ∷ countdown c.savepointlevel
      → IfReturned (last_release api c b w)
  unfolding last_release
  last_release-IfReturned c b w a =
      go (trace_and_exec api c (release c.savepointlevel) true w)
        (trace_and_exec-Releases c c.savepointlevel (countdown c.savepointlevel) true w a)
    where
      go :
          (r : Outcome × World S)
          → Releases c.savepointlevel (countdown c.savepointlevel) r
          → IfReturned (elim r.0 as (λ _. Ret api Bool) [
            | no_memory ↦ (none, c, r.1)
            | failure ↦ (none, c, r.1)
            | success ↦ ((if b then none else some false), c, r.1)
          ])
      go (no_memory, w') h = tt
      go (failure, w') h = tt
      go (success, w') h = ground (arith, h)

  last_release_null : (c : Connection) (w : World S) → (last_release api c true w).0 ≡ none
  unfolding last_release
  last_release_null c w = ground arith

  null-IfReturned : (r : Ret api Bool) → r.0 ≡ none → IfReturned r
  null-IfReturned (none, c, w) e = tt
  null-IfReturned (some b, c, w) e = absurd (ground (arith, e))

  roll_back-IfReturned :
      (c : Connection) (b : Bool) (w : World S)
      → laws.stack w.db ≡ c.savepointlevel ∷ countdown c.savepointlevel
      → IfReturned (roll_back api c b w)
  unfolding roll_back
  roll_back-IfReturned c b w a =
      go (trace_and_exec api c (rollback_to c.savepointlevel) true w)
        (trace_and_exec-rollback c c.savepointlevel (countdown c.savepointlevel) true w a)
    where
      go :
          (r : Outcome × World S)
          → Releases c.savepointlevel (c.savepointlevel ∷ countdown c.savepointlevel) r
          → IfReturned (elim r.0 as (λ _. Ret api Bool) [
            | no_memory ↦ (none, c, r.1)
            | failure ↦ last_release api c true r.1
            | success ↦ last_release api c b r.1
          ])
      go (no_memory, w') h = tt
      go (failure, w') h = null-IfReturned (last_release api c true w') (last_release_null c w')
      go (success, w') h = last_release-IfReturned c b w' h

  roll_back_null : (c : Connection) (w : World S) → (roll_back api c true w).0 ≡ none
  unfolding roll_back
  roll_back_null c w =
      ground
        (arith, last_release_null c (trace_and_exec api c (rollback_to c.savepointlevel) true w).1)

  exit_level-IfReturned :
      (c : Connection) (clean : Bool) (w : World S)
      → laws.stack w.db ≡ c.savepointlevel ∷ countdown c.savepointlevel
      → IfReturned (exit_level api c clean w)
  unfolding exit_level
  exit_level-IfReturned c false w a = roll_back-IfReturned c false w a
  exit_level-IfReturned c true w a =
      go (trace_and_exec api c (release c.savepointlevel) false w)
        (trace_and_exec-Releases c c.savepointlevel (countdown c.savepointlevel) false w a)
    where
      go :
          (r : Outcome × World S)
          → Releases c.savepointlevel (countdown c.savepointlevel) r
          → IfReturned (elim r.0 as (λ _. Ret api Bool) [
            | no_memory ↦ (none, c, r.1)
            | success ↦ (some false, c, r.1)
            | failure ↦ roll_back api c true r.1
          ])
      go (no_memory, w') h = tt
      go (success, w') h = h
      go (failure, w') h = null-IfReturned (roll_back api c true w') (roll_back_null c w')

  exit_open-IfReturned :
      (n : ℕ) (c : Connection) (clean : Bool) (w : World S)
      → c.savepointlevel ≡ n
      → Aligned api laws c w
      → IfReturned (exit_open api n c clean w)
  unfolding exit_open
  exit_open-IfReturned zero c clean w e a = a
  exit_open-IfReturned (suc sp) c clean w e a =
      exit_level-IfReturned (record c { savepointlevel = sp }) clean w (a ∙ ap countdown e)

  checked-IfReturned :
      (c : Connection) (w : World S) (r : Ret api Bool)
      → IfReturned r
      → IfReturned (checked api c w r)
  unfolding checked
  checked-IfReturned c w r h = ground arith

  pub exit-IfReturned :
      (c : Connection) (clean : Bool) (w : World S)
      → Aligned api laws c w
      → IfReturned (exit api c clean w)
  unfolding exit
  exit-IfReturned c clean w a =
      checked-IfReturned c w (exit_open api c.savepointlevel c clean w)
        (exit_open-IfReturned c.savepointlevel c clean w refl a)

  last_release_keeps : (c : Connection) (b : Bool) (w : World S) → (last_release api c b w).1 ≡ c
  unfolding last_release
  last_release_keeps c b w = ground arith

  roll_back_keeps : (c : Connection) (b : Bool) (w : World S) → (roll_back api c b w).1 ≡ c
  unfolding roll_back
  roll_back_keeps c b w =
      let w' = (trace_and_exec api c (rollback_to c.savepointlevel) true w).1 in
      ground (arith, last_release_keeps c true w', last_release_keeps c b w')

  exit_level_keeps :
      (c : Connection) (clean : Bool) (w : World S) → (exit_level api c clean w).1 ≡ c
  unfolding exit_level
  exit_level_keeps c false w = roll_back_keeps c false w
  exit_level_keeps c true w =
      ground
        (arith, roll_back_keeps c true (trace_and_exec api c (release c.savepointlevel) false w).1)

  abbrev pub pred : ℕ → ℕ
  pred zero = zero
  pred (suc n) = n

  pub exit_open_pops :
      (n : ℕ) (c : Connection) (clean : Bool) (w : World S)
      → c.savepointlevel ≡ n
      → (exit_open api n c clean w).1.savepointlevel ≡ pred n
  unfolding exit_open
  exit_open_pops zero c clean w e = e
  exit_open_pops (suc sp) c clean w e =
      ap (λ (k : Connection). k.savepointlevel)
        (exit_level_keeps (record c { savepointlevel = sp }) clean w)

  -- Leaving a block on an open connection that is not in use lowers the level by one, unless it is
  -- 0 already, however it ends.
  pub exit_pops :
      (c : Connection) (clean : Bool) (w : World S)
      → (w.conns c.con).inuse ≡ false
      → (w.conns c.con).open_db ≡ true
      → (exit api c clean w).1.savepointlevel ≡ pred c.savepointlevel
  unfolding exit checked
  exit_pops c clean w free has = rw (free, has) (exit_open_pops c.savepointlevel c clean w refl)
