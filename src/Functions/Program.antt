-- ===== src/Functions/Program.antt =====
-- The calls of an aggregate function for a group of rows, and the program of Python that they stand for
-- (src/connection.c).
use mathlib.Core.Option
use apsw.Prelude.{ℕ, Option, none, some, List, [], ◌∷◌, ◌⊎◌, inl, inr}
use apsw.Errors.{Exn}
use apsw.Cursor.Execute.{Column}
use apsw.Functions.{PyObject, Context, Made, FunctionApi, convert_all, given_args}
use apsw.Functions.Aggregate.{
  Aggregate, Parts, parts_of, with_value, cbdispatch_step, cbdispatch_final,
}

module _ {S : Type 0} (api : FunctionApi S) where
  -- SQLite's calls for a group: one for each row, and the last.
  unfoldable pub run_group :
      ℕ → List (List Column) → Aggregate → Context S → Option (Aggregate × Context S)
  run_group f [] a c = some (cbdispatch_final api f a c)
  run_group f (row ∷ rows) a c =
      Option.bind (cbdispatch_step api f row a c) (λ r. run_group f rows r.0 r.1)

  -- What is left of a call where its object does not matter.
  unfoldable pub exception_of : (PyObject ⊎ Exn) × S → Option Exn × S
  exception_of (inl v, d) = (none, d)
  exception_of (inr e, d) = (some e, d)

  unfoldable pub python_step : Parts → List Column → S → Option Exn × S
  python_step p row d =
      given_args (convert_all api row) (λ e. (some e, d))
        (λ vargs. exception_of (api.vectorcall d p.step (with_value p.value vargs)))

  unfoldable pub after_step : Option Exn × S → (S → Option Exn × S) → Option Exn × S
  after_step (none, d) rest = rest d
  after_step (some e, d) rest = (some e, d)

  -- The steps up to the first exception.
  unfoldable pub python_steps : Parts → List (List Column) → S → Option Exn × S
  python_steps p [] d = (none, d)
  python_steps p (row ∷ rows) d = after_step (python_step p row d) (python_steps p rows)

  unfoldable pub python_final : Parts → Option Exn × S → (PyObject ⊎ Exn) × S
  python_final p (some e, d) = (inr e, d)
  python_final p (none, d) = api.vectorcall d p.final (with_value p.value [])

  unfoldable pub python_parts : Parts ⊎ Exn → List (List Column) → S → (PyObject ⊎ Exn) × S
  python_parts (inr e) rows d = (inr e, d)
  python_parts (inl p) rows d = python_final p (python_steps p rows d)

  unfoldable pub python_made : (Made ⊎ Exn) × S → List (List Column) → (PyObject ⊎ Exn) × S
  python_made (inr e, d) rows = (inr e, d)
  python_made (inl m, d) rows = python_parts (parts_of api.attribute_error m) rows d

  -- The aggregate as a program of Python: the factory, the step function for each row, the final
  -- function, up to the first exception.
  unfoldable pub python_aggregate : ℕ → List (List Column) → S → (PyObject ⊎ Exn) × S
  python_aggregate f rows d = python_made (api.factory d f) rows
