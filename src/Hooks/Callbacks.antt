-- ===== src/Hooks/Callbacks.antt =====
-- The callbacks that SQLite calls for a connection's hooks (src/connection.c). `none` is a call through
-- a null pointer.
use mathlib.Core.Option
use apsw.Prelude.{ℕ, Option, none, some, List, [], ◌∷◌, if◌then◌else◌}
use apsw.Prelude.Int.{ℤ, pos}
use apsw.Errors.{Exn}
use apsw.World.{World, raise, write_unraisable, occurred}
use apsw.Cursor.Execute.{Column, column_null, column_integer, column_text}
use apsw.Functions.{PyObject, object, FunctionApi, by_exception, convert_all, given_args}
use apsw.Hooks.{HookFields, Hooked}
use apsw.Hooks.Setters.{has_bit}
use apsw.Hooks.Answers.{
  set_world_exc, answered, call_hook, truth_or, sqlite_deny, authorizer_result, wal_result,
  vacuum_result,
}

abbrev pub vacuum_args : List ℕ → ℕ → ℕ → ℕ → List Column
vacuum_args schema pages free size =
    column_text schema
    ∷ column_integer (pos pages)
    ∷ column_integer (pos free)
    ∷ column_integer (pos size)
    ∷ []

-- `convertutf8string` of a text that may be a null pointer.
abbrev pub text_or_null : Option (List ℕ) → Column
text_or_null none = column_null
text_or_null (some t) = column_text t

module _ {S : Type 0} where
  -- The call of the trace hook, whose exception goes to the hook for those that cannot be raised.
  unfoldable pub told_trace : Option PyObject × World S → World S
  told_trace (none, w) = write_unraisable w
  told_trace (some v, w) = w

  -- `CHAIN_EXC` around the call.
  unfoldable pub chain_before : Option Exn → Option PyObject × World S → Option PyObject × World S
  chain_before saved (v, w) = (v, record w { exc = raise w.exc saved })

module _ {S : Type 0} (api : FunctionApi S) where
  -- A callback whose answer does not matter.
  unfoldable pub for_effect : Option ℕ → Option PyObject → List Column → World S → Option (World S)
  for_effect hook first args w = Option.map (λ f. (call_hook api f first args w).1) hook

  unfoldable pub updatecb : HookFields → ℤ → List ℕ → List ℕ → ℤ → World S → Option (World S)
  updatecb x updatetype databasename tablename rowid w =
      by_exception w.exc (λ e. some w)
        (for_effect x.updatehook none
          (column_integer updatetype
            ∷ column_text databasename
            ∷ column_text tablename
            ∷ column_integer rowid
            ∷ [])
          w)

  unfoldable pub rollbackhookcb : HookFields → World S → Option (World S)
  rollbackhookcb x w =
      by_exception w.exc (λ e. some (write_unraisable w)) (for_effect x.rollbackhook none [] w)

  unfoldable pub profilecb : HookFields → List ℕ → ℤ → World S → Option (World S)
  profilecb x statement runtime w =
      by_exception w.exc (λ e. some w)
        (for_effect x.profile none (column_text statement ∷ column_integer runtime ∷ []) w)

  -- The dictionary of the values, which is not made where one of them cannot be converted, and the call
  -- of the hook on it, where the mask selects the event.
  unfoldable pub traced : HookFields → ℕ → List Column → World S → Option (World S)
  traced x code values w =
      if has_bit x.tracemask code
      then given_args (convert_all api values) (λ e. some (set_world_exc e w))
          (λ param.
            Option.map (λ f. told_trace (answered (api.vectorcall w.db f param) w)) x.tracehook)
      else some w

  -- `tracehook_cb`, for an event and the values that go into the dictionary.
  unfoldable pub tracehook_callback : HookFields → ℕ → List Column → World S → Option (World S)
  tracehook_callback x code values w = by_exception w.exc (λ e. some w) (traced x code values w)

  unfoldable pub commithookcb : HookFields → World S → Option (ℕ × World S)
  commithookcb x w =
      by_exception w.exc (λ e. some (1, w))
        (Option.map (λ f. truth_or 1 (call_hook api f none [] w)) x.commithook)

  unfoldable pub walhookcb : Hooked → List ℕ → ℤ → World S → Option (ℤ × World S)
  walhookcb h dbname npages w =
      Option.map
        (λ f. wal_result api (
          call_hook api f (some (object h.con)) (column_text dbname ∷ column_integer npages ∷ [])
            w))
        h.fields.walhook

  unfoldable pub progresshandlercb : HookFields → World S → Option (ℕ × World S)
  progresshandlercb x w =
      by_exception w.exc (λ e. some (1, w))
        (Option.map (λ f. truth_or 1 (call_hook api f none [] w)) x.progresshandler)

  unfoldable pub authorizercb :
      HookFields
      → ℤ
      → Option (List ℕ)
      → Option (List ℕ)
      → Option (List ℕ)
      → Option (List ℕ)
      → World S
      → Option (ℤ × World S)
  authorizercb x operation paramone paramtwo databasename triggerview w =
      by_exception w.exc (λ e. some (sqlite_deny, w))
        (Option.map
          (λ f. authorizer_result api (
            call_hook api f none
              (column_integer operation
                ∷ text_or_null paramone
                ∷ text_or_null paramtwo
                ∷ text_or_null databasename
                ∷ text_or_null triggerview
                ∷ [])
              w))
          x.authorizer)

  -- `autovacuum_pages_cb` on the callable that it is given.
  unfoldable pub autovacuum_pages_cb : ℕ → List ℕ → ℕ → ℕ → ℕ → World S → ℕ × World S
  autovacuum_pages_cb f schema pages free size w = vacuum_result api (
      chain_before w.exc
        (call_hook api f none (vacuum_args schema pages free size) (record w { exc = none })))

  -- The exception of before goes to the hook for those that cannot be raised, and the call is made.
  unfoldable pub collationneeded_cb : Hooked → List ℕ → World S → Option (World S)
  collationneeded_cb h name w =
      for_effect h.fields.collationneeded (some (object h.con)) (column_text name ∷ [])
        (if occurred w then write_unraisable w else w)

  unfoldable pub busyhandlercb : HookFields → ℤ → World S → Option (ℕ × World S)
  busyhandlercb x ncall w =
      Option.map (λ f. truth_or 0 (call_hook api f none (column_integer ncall ∷ []) w))
        x.busyhandler
