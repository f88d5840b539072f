-- ===== src/Functions/Window.antt =====
-- Window functions (`get_window_function_context`, `cbw_step`, `cbw_final`, `cbw_value` and
-- `cbw_inverse` of src/connection.c).
use mathlib.Core.Option
use apsw.Prelude.{
  ℕ, Bool, true, false, Option, none, some, List, [], ◌∷◌, if◌then◌else◌, ◌⊎◌, inl, inr, not,
}
use Prim.Native.String.{String}
use apsw.Errors.{Exn}
use apsw.World.{raise}
use apsw.Cursor.Execute.{Column}
use apsw.Functions.{
  PyObject, Context, Made, FunctionApi, set_result, result_error, set_exception, set_context_result,
  with_args, call_python, by_exception, raised_in,
}
use apsw.Functions.Aggregate.{with_value}
use apsw.Functions.Parts.{
  wfc_uninit, wfc_ok, wfc_error, Window, empty, WindowParts, holding, window_parts_of,
}

module _ {S : Type 0} where
  -- The label `error`, with its assertion: `none` where there is no exception.
  unfoldable pub failed : String → Window → Context S → Option (Window × Context S)
  failed msg a c = if raised_in c then some (a, set_result (result_error (some msg)) c) else none

  -- The end of a callback that gives no result.
  unfoldable pub no_result :
      String → Window → Option PyObject × Context S → Option (Window × Context S)
  no_result msg a (none, c) = failed msg a c
  no_result msg a (some v, c) = some (a, c)

  -- The result, or that it cannot be set.
  unfoldable pub checked_result : String → Window → Bool × Context S → Option (Window × Context S)
  checked_result msg a (true, c) = some (a, c)
  checked_result msg a (false, c) = failed msg a c

  -- `CHAIN_EXC`: a new exception stands, and the old one is its context.
  unfoldable pub chained : Option Exn → Bool × Window × Context S → Bool × Window × Context S
  chained saved (got, a, c) =
      (got, a, record c { world = record c.world { exc = raise c.world.exc saved } })

  -- `assert(res || PyErr_Occurred())`: `none` where it fails.
  unfoldable pub asserted : Bool × Window × Context S → Option (Bool × Window × Context S)
  asserted (true, a, c) = some (true, a, c)
  asserted (false, a, c) = if raised_in c then some (false, a, c) else none

module _ {S : Type 0} (api : FunctionApi S) where
  unfoldable pub keep_window : WindowParts ⊎ Exn → S → Context S → Bool × Window × Context S
  keep_window (inl p) d c = (true, holding p, record c { world = record c.world { db = d } })
  keep_window (inr e) d c =
      (false, empty wfc_error, record c { world = record c.world { db = d; exc = some e } })

  -- What the factory left.
  unfoldable pub store_window : (Made ⊎ Exn) × S → Context S → Bool × Window × Context S
  store_window (inr e, d) c = keep_window (inr e) d c
  store_window (inl m, d) c = keep_window (window_parts_of m) d c

  -- `get_window_function_context_wrapped`; the flag is whether the pointer that it returns is there.
  unfoldable pub get_wrapped : ℕ → Window → Context S → Bool × Window × Context S
  get_wrapped f a c =
      if not (api.aggregate_memory c.world.db)
      then (false, a, set_exception api.memory_error c)
      else elim a.state [
        | wfc_ok ↦ (true, a, c)
        | wfc_error ↦ (false, a, c)
        | wfc_uninit ↦ store_window (api.factory c.world.db f) c
      ]

  -- `get_window_function_context`.
  unfoldable pub get_window_function_context :
      ℕ → Window → Context S → Option (Bool × Window × Context S)
  get_window_function_context f a c =
      asserted
        (chained c.world.exc (get_wrapped f a (record c { world = record c.world { exc = none } })))

  -- A callback on a row; `none` is a call through a null pointer or a failed assertion.
  unfoldable pub on_row :
      String
      → (Window → Option ℕ)
      → List Column
      → Bool × Window × Context S
      → Option (Window × Context S)
  on_row msg func argv (false, a, c) = failed msg a c
  on_row msg func argv (true, a, c) = with_args api argv c (failed msg a) (λ vargs.
      Option.bind (func a)
        (λ g. no_result msg a (call_python api g (with_value a.aggvalue vargs) c)))

  -- `cbw_step`.
  unfoldable pub cbw_step : ℕ → List Column → Window → Context S → Option (Window × Context S)
  cbw_step f argv a c =
      let msg : String = "Python exception on window function 'step'" in
      by_exception c.world.exc (λ e. failed msg a c)
        (Option.bind (get_window_function_context f a c) (on_row msg Window.stepfunc argv))

  -- `cbw_inverse`.
  unfoldable pub cbw_inverse : ℕ → List Column → Window → Context S → Option (Window × Context S)
  cbw_inverse f argv a c =
      let msg : String = "Python exception on window function 'inverse'" in
      by_exception c.world.exc (λ e. failed msg a c)
        (Option.bind (get_window_function_context f a c) (on_row msg Window.inversefunc argv))

  unfoldable pub give_result :
      String → Window → Option PyObject × Context S → Option (Window × Context S)
  give_result msg a (none, c) = failed msg a c
  give_result msg a (some v, c) = checked_result msg a (set_context_result api v c)

  unfoldable pub for_value : String → Bool × Window × Context S → Option (Window × Context S)
  for_value msg (false, a, c) = failed msg a c
  for_value msg (true, a, c) =
      Option.bind a.valuefunc
        (λ g. give_result msg a (call_python api g (with_value a.aggvalue []) c))

  -- `cbw_value`.
  unfoldable pub cbw_value : ℕ → Window → Context S → Option (Window × Context S)
  cbw_value f a c =
      let msg : String = "Python exception on window function 'value'" in
      by_exception c.world.exc (λ e. failed msg a c)
        (Option.bind (get_window_function_context f a c) (for_value msg))

  -- The last call; `clear_window_function_context` where the pointer is there.
  unfoldable pub for_final : String → Bool × Window × Context S → Option (Window × Context S)
  for_final msg (false, a, c) = failed msg a c
  for_final msg (true, a, c) =
      by_exception c.world.exc (λ e. failed msg (empty wfc_error) c)
        (Option.bind a.finalfunc
          (λ g. give_result msg (empty wfc_error) (call_python api g (with_value a.aggvalue []) c)))

  -- `cbw_final`.
  unfoldable pub cbw_final : ℕ → Window → Context S → Option (Window × Context S)
  cbw_final f a c =
      Option.bind (get_window_function_context f a c)
        (for_final "Python exception on window function 'final' or earlier")

-- A call of SQLite for a window.
pub data WindowCall : Type 0 where
  step_call inverse_call : List Column → WindowCall
  value_call final_call : WindowCall

module _ {S : Type 0} (api : FunctionApi S) where
  unfoldable pub window_call : ℕ → WindowCall → Window → Context S → Option (Window × Context S)
  window_call f (step_call argv) a c = cbw_step api f argv a c
  window_call f (inverse_call argv) a c = cbw_inverse api f argv a c
  window_call f value_call a c = cbw_value api f a c
  window_call f final_call a c = cbw_final api f a c

  unfoldable pub window_calls :
      ℕ → List WindowCall → Window → Context S → Option (Window × Context S)
  window_calls f [] a c = some (a, c)
  window_calls f (call ∷ calls) a c =
      Option.bind (window_call f call a c) (λ r. window_calls f calls r.0 r.1)

-- `xFinal` is the last call, if it is made.
abbrev pub ends_with_final : List WindowCall → Bool
ends_with_final [] = true
ends_with_final (final_call ∷ []) = true
ends_with_final (final_call ∷ _ ∷ _) = false
ends_with_final (step_call argv ∷ calls) = ends_with_final calls
ends_with_final (inverse_call argv ∷ calls) = ends_with_final calls
ends_with_final (value_call ∷ calls) = ends_with_final calls
