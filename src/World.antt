-- ===== src/World.antt =====
-- What the modelled code calls and shares: the Python error indicator, the calls of SQLite in
-- order (newest first), the exceptions that the hook for unraisable ones got (newest first) and the connections (src/util.c, src/exceptions.c). `S` is SQLite's own
-- state, which only the functions given for its calls read.
use apsw.Prelude.{
  arith, ◌≡◌, ◌+◌, ℕ, Bool, Option, none, some, List, [], ◌∷◌, ◌++◌, ◌==◌, if◌then◌else◌, ◌&&◌, not,
  false, true, is_some,
}
use apsw.Prelude.Int.{ℤ}
use apsw.Errors.{Exn, ExcClass, raised, make_exception, sqlite_ok}
use Prim.Native.String.{String}

-- What is bound to a parameter of a statement: by which of the functions `sqlite3_bind_*`. A `double`
-- is known by its bits.
pub data Bound : Type 0 where
  bind_null : Bound
  bind_int64 : ℤ → Bound
  bind_double : ℕ → Bound
  bind_text64 bind_blob64 : List ℕ → Bound
  bind_zeroblob64 : ℤ → Bound

-- The SQL of a savepoint, with the number in its name.
pub data Command : Type 0 where
  savepoint release rollback_to : ℕ → Command

-- A call of SQLite, with the handle and the arguments that the theorems speak of.
pub data Call : Type 0 where
  prepare_made : Option ℕ → Call
  reset finalize clear_bindings explain : Option ℕ → Call
  blob_read blob_write : ℕ → ℤ → ℤ → Call
  blob_close blob_reopen : ℕ → Call
  backup_init backup_step backup_finish : ℕ → Call
  step : Option ℕ → Call
  bind : ℕ → Bound → Call
  exec : Command → Call
  data_count : ℕ → Call

-- Of a connection: its database handle is there, a call is going on, and its dependents, a weak
-- reference each with `none` for one whose object is gone.
pub record Conn : Type 0 where
  pub open_db : Bool
  pub inuse : Bool
  pub dependents : List (Option ℕ)

-- How a call of an exec tracer ends: an exception, a truth value, or a value that is no `bool`, with
-- the exception that `PyObject_IsTrueStrict` makes of it.
pub data Traced : Type 0 where
  trace_raises : Exn → Traced
  trace_answers : Bool → Traced
  trace_not_bool : Exn → Traced

pub record World (S : Type 0) : Type 0 where
  pub db : S
  pub exc : Option Exn
  pub trace : List Call
  pub conns : ℕ → Conn
  pub unraised : List Exn

abbrev pub to_hook : Option Exn → List Exn → List Exn
to_hook none es = es
to_hook (some e) es = e ∷ es

-- The later exception stands.
abbrev pub raise : Option Exn → Option Exn → Option Exn
raise none old = old
raise (some e) old = some e

-- The loop of `Connection_remove_dependent`: the dead references up to the object go, and its own.
unfoldable pub remove_from : Option ℕ → List (Option ℕ) → List (Option ℕ)
remove_from o [] = []
remove_from o (none ∷ ds) = remove_from o ds
remove_from o (some d ∷ ds) =
    if (elim o [ none ↦ false | some x ↦ d == x ]) then ds else some d ∷ remove_from o ds

abbrev pub update {ℓ} : {A : Type ℓ} → (ℕ → A) → ℕ → A → ℕ → A
update f i v j = if i == j then v else f j

-- How often an object stands among the dependents.
abbrev pub listed : ℕ → List (Option ℕ) → ℕ
listed x [] = 0
listed x (none ∷ ds) = listed x ds
listed x (some d ∷ ds) = (if d == x then 1 else 0) + listed x ds

module _ {S : Type 0} where
  abbrev pub occurred : World S → Bool
  occurred w = is_some w.exc

  abbrev pub err_format : ExcClass → String → World S → World S
  err_format cls msg w = record w { exc = some (raised cls msg) }

  -- A call of SQLite: the result code, the exception of a callback that ran inside it, the new
  -- state.
  unfoldable pub sqlite_call : Call → (S → ℕ × Option Exn × S) → World S → ℕ × World S
  sqlite_call c f w =
      let r = f w.db in (r.0, record w { db = r.2; exc = raise r.1 w.exc; trace = c ∷ w.trace })

  -- `SET_EXC`.
  unfoldable pub set_exc : ℕ → World S → World S
  set_exc res w =
      if not (res == sqlite_ok) && not (occurred w)
      then record w { exc = some (make_exception res) }
      else w

  -- `CHECK_USE` on an object that is in use: the exception that is there stands.
  unfoldable pub threading_violation : World S → World S
  threading_violation w =
      if occurred w
      then w
      else err_format ExcClass.threading_violation
          "You are trying to use the same object concurrently in two threads or re-entrantly within the same thread which is not allowed."
          w

  -- `apsw_write_unraisable`: the exception goes to a hook, and is cleared.
  unfoldable pub write_unraisable : World S → World S
  write_unraisable w = record w { exc = none; unraised = to_hook w.exc w.unraised }

  -- A connection's flag that a call on it is going on.
  unfoldable pub set_inuse : ℕ → Bool → World S → World S
  set_inuse con flag w = record w {
    conns = update w.conns con (record (w.conns con) { inuse = flag });
  }

  -- `PyList_Append` on the dependents of a connection.
  unfoldable pub add_dependent : ℕ → ℕ → World S → World S
  add_dependent con o w =
      let c = w.conns con in
      record w {
        conns = update w.conns con (record c { dependents = c.dependents ++ (some o ∷ []) });
      }

  -- `Connection_remove_dependent`.
  unfoldable pub remove_dependent : ℕ → Option ℕ → World S → World S
  remove_dependent con o w =
      let c = w.conns con in
      record w { conns = update w.conns con (record c { dependents = remove_from o c.dependents }) }

  pub set_exc-trace : (res : ℕ) (w : World S) → (set_exc res w).trace ≡ w.trace
  unfolding set_exc
  set_exc-trace res w = ground arith

  pub set_exc-db : (res : ℕ) (w : World S) → (set_exc res w).db ≡ w.db
  unfolding set_exc
  set_exc-db res w = ground arith

  -- The end of a tracer that can prevent what it is told of: the flag says that it does not.
  unfoldable pub allow : Traced × S → World S → Bool × World S
  allow (trace_raises e, d) w = (false, record w { db = d; exc = some e })
  allow (trace_not_bool e, d) w = (false, record w { db = d; exc = some e })
  allow (trace_answers false, d) w = (
    false,
    err_format ExcClass.trace_abort "Aborted by false/null return value of exec tracer"
        (record w { db = d }),
  )
  allow (trace_answers true, d) w = (true, record w { db = d })
