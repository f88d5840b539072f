-- ===== src/Connection/Nesting.antt =====
-- The nesting of a connection's blocks against the stack of savepoints that SQLite keeps
-- (src/connection.c).
use apsw.Prelude.{
  ℕ, suc, ◌≡◌, refl, Bool, true, false, Option, none, some, List, [], ◌∷◌, is_some, arith,
}
use mathlib.Core.Path.{subst}
use apsw.World.{World}
use apsw.Connection.Savepoint.{
  SavepointApi, Connection, Ret, push_level, enter_open, checked, enter, exit_open, exit,
}
use apsw.Connection.Entering.{StackLaws, countdown, Aligned, IfEntered, enter-IfEntered}
use apsw.Connection.Leaving.{IfReturned, exit-IfReturned, exit_open_pops, pred}

module _ {S : Type 0} (api : SavepointApi S) (laws : StackLaws api) where
  -- Entering a block, or leaving one, with or without an exception.
  pub data Op : Type 0 where
    enters : Op
    exits : Bool → Op

  abbrev pub perform : Op → Connection → World S → Bool × Connection × World S
  perform enters c w = let r = enter api c w in (is_some r.0, r.1, r.2)
  perform (exits clean) c w = let r = exit api c clean w in (is_some r.0, r.1, r.2)

  -- The operations in order, as long as each returns.
  abbrev pub run : List Op → Connection → World S → Option (Connection × World S)
  run [] c w = some (c, w)
  run (o ∷ os) c w =
      let (ok, c', w') = perform o c w in elim ok [ false ↦ none | true ↦ run os c' w' ]

  -- The abstract view: the number of blocks that are open; leaving with none open does nothing.
  abbrev pub depth : List Op → ℕ → ℕ
  depth [] n = n
  depth (enters ∷ os) n = depth os (suc n)
  depth (exits clean ∷ os) n = depth os (pred api laws n)

  abbrev pub one_depth : Op → ℕ → ℕ
  one_depth enters n = suc n
  one_depth (exits clean) n = pred api laws n

  enter_open_adds :
      (c : Connection) (w : World S)
      → is_some (enter api c w).0 ≡ true
      → (enter api c w).1.savepointlevel ≡ suc c.savepointlevel
  unfolding enter checked enter_open push_level
  enter_open_adds c w ok = ground (arith, ok)

  checked_pops :
      (c : Connection) (w : World S) (r : Ret api Bool) (n : ℕ)
      → r.1.savepointlevel ≡ n
      → is_some (checked api c w r).0 ≡ true
      → (checked api c w r).1.savepointlevel ≡ n
  unfolding checked
  checked_pops c w r n e ok = ground (arith, e, ok)

  returned-Aligned :
      (r : Ret api Bool) → IfReturned api laws r → is_some r.0 ≡ true → Aligned api laws r.1 r.2
  returned-Aligned (none, c, w) h ok = absurd (ground (arith, ok))
  returned-Aligned (some b, c, w) h ok = h

  entered-Aligned :
      (r : Ret api (Unit {0}))
      → IfEntered api laws r
      → is_some r.0 ≡ true
      → Aligned api laws r.1 r.2
  entered-Aligned (none, c, w) h ok = absurd (ground (arith, ok))
  entered-Aligned (some u, c, w) h ok = h

  perform-Aligned :
      (o : Op) (c : Connection) (w : World S)
      → Aligned api laws c w
      → (perform o c w).0 ≡ true
      → Aligned api laws (perform o c w).1 (perform o c w).2
        × ((perform o c w).1.savepointlevel ≡ one_depth o c.savepointlevel)
  perform-Aligned enters c w a ok =
      (entered-Aligned (enter api c w) (enter-IfEntered api laws c w a) ok, enter_open_adds c w ok)
  perform-Aligned (exits clean) c w a ok = (
    returned-Aligned (exit api c clean w) (exit-IfReturned api laws c clean w a) ok,
    unfold exit in
        checked_pops c w (exit_open api c.savepointlevel c clean w) (pred api laws c.savepointlevel)
          (exit_open_pops api laws c.savepointlevel c clean w refl) ok,
  )

  -- What a run that returns ends with, if there were `n` open blocks before.
  abbrev pub Nested : List Op → ℕ → Option (Connection × World S) → Type 0
  Nested os n none = Unit
  Nested os n (some (c, w)) =
      (c.savepointlevel ≡ depth os n) × (laws.stack w.db ≡ countdown (depth os n))

  Nested-step :
      (o : Op) (os : List Op) (n : ℕ) (r : Option (Connection × World S))
      → Nested os (one_depth o n) r
      → Nested (o ∷ os) n r
  Nested-step enters os n r h = h
  Nested-step (exits clean) os n r h = h

  -- After any sequence of blocks that are entered and left, each of which returns, the level of the
  -- connection and the savepoints of SQLite are those of the blocks that are still open, the newest
  -- first, whichever blocks ended in an exception; leaving with none open does nothing. SQLite does
  -- what it documents of savepoint commands that succeed, the exec tracer opens and releases no
  -- savepoint, and the two were in step before. What a block does between is not part of the run,
  -- and nothing is said after a command that fails.
  pub run-Nested :
      (os : List Op) (c : Connection) (w : World S)
      → Aligned api laws c w
      → Nested os c.savepointlevel (run os c w)
  run-Nested [] c w a = (refl, a)
  run-Nested (o ∷ os) c w a = go (perform o c w) (perform-Aligned o c w a) (run-Nested os)
    where
      go :
          (r : Bool × Connection × World S)
          → (r.0 ≡ true
              → Aligned api laws r.1 r.2 × (r.1.savepointlevel ≡ one_depth o c.savepointlevel))
          → ((c' : Connection) (w' : World S)
              → Aligned api laws c' w'
              → Nested os c'.savepointlevel (run os c' w'))
          → Nested (o ∷ os) c.savepointlevel (elim r.0 as (λ _. Option (Connection × World S)) [
            | false ↦ none
            | true ↦ run os r.1 r.2
          ])
      go (false, c', w') h ih = tt
      go (true, c', w') h ih =
          let (a', e) = h refl in
          Nested-step o os c.savepointlevel (run os c' w')
            (subst (λ n. Nested os n (run os c' w')) e (ih c' w' a'))
