-- ===== src/Connection/Tests.antt =====
-- Connections at concrete inputs (src/connection.c).
use apsw.Prelude.{
  ℕ, ◌≡◌, refl, true, false, Option, none, some, List, [], ◌∷◌, arith, ◌==◌, if◌then◌else◌,
}
use apsw.Errors.{Exn}
use apsw.World.{World, Call, Command, savepoint, release, rollback_to, trace_answers}
use apsw.Connection.Savepoint.{SavepointApi, Connection, exit}
use apsw.Connection.Entering.{StackLaws}
use apsw.Connection.Nesting.{enters, exits, run, run-Nested, Nested}
use apsw.Connection.Release.{newest, exit_releases}

-- A SQLite that is the stack of its savepoints: RELEASE of another than the newest fails.
abbrev take_off : ℕ → List ℕ → ℕ × Option Exn × List ℕ
take_off n [] = (1, none, [])
take_off n (m ∷ rest) = if n == m then (0, none, rest) else (1, none, m ∷ rest)

abbrev execute : List ℕ → Command → ℕ × Option Exn × List ℕ
execute d (savepoint n) = (0, none, n ∷ d)
execute d (release n) = take_off n d
execute d (rollback_to n) = (0, none, d)

abbrev stacked : SavepointApi (List ℕ)
stacked = record {
  has_memory = λ d cmd. true;
  exec = execute;
  tracer = λ d t cmd. (trace_answers true, d);
}

take_off_takes :
    (d : List ℕ) (n : ℕ) (rest : List ℕ)
    → d ≡ n ∷ rest
    → (take_off n d).0 ≡ 0
    → (take_off n d).2 ≡ rest
take_off_takes [] n rest e ok = absurd (ground (arith, e))
take_off_takes (m ∷ ms) n rest e ok = ground (arith, e)

abbrev stacked_laws : StackLaws stacked
stacked_laws = record {
  stack = λ d. d;
  savepoint_adds = λ d n e. refl;
  release_takes = take_off_takes;
  rollback_keeps = λ d n rest e ok. e;
  tracer_keeps = λ d t cmd. refl;
}

abbrev start : World (List ℕ)
start = record {
  db = [];
  exc = none;
  trace = [];
  conns = λ i. record { open_db = true; inuse = false; dependents = [] };
  unraised = [];
}

-- With a tracer, and no block open.
abbrev idle : Connection
idle = record { con = 0; savepointlevel = 0; exectrace = some 7 }

-- In the second of two blocks.
abbrev inner : Connection
inner = record { con = 0; savepointlevel = 2; exectrace = none }

run-Nested_example :
    Nested stacked stacked_laws
      (enters ∷ enters ∷ exits false ∷ exits true ∷ [])
      0
      (run stacked stacked_laws (enters ∷ enters ∷ exits false ∷ exits true ∷ []) idle start)
run-Nested_example =
    run-Nested stacked stacked_laws (enters ∷ enters ∷ exits false ∷ exits true ∷ []) idle start
      refl

-- In two blocks, with their savepoints.
abbrev deep : World (List ℕ)
deep = record start { db = 1 ∷ 0 ∷ [] }

exit_releases_example :
    newest (exit stacked inner false deep).2.trace ≡ some (Call.exec (release 1))
exit_releases_example = exit_releases stacked inner false deep 1 refl refl refl (λ d cmd. refl)
