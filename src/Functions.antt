-- ===== src/Functions.antt =====
-- SQL functions written in Python (src/connection.c): the values that pass between SQLite and the
-- functions, and the result that is set on SQLite's context.
pub mod Scalar
pub mod Aggregate
pub mod Program
pub mod Fold
pub mod Parts
pub mod Window
pub mod Sound
pub mod Report
pub mod Register
pub mod Ownership
pub mod Tests
use Prim.Native.String.{String}
use apsw.Prelude.{
  ℕ, Bool, true, false, Option, none, some, List, [], ◌∷◌, if◌then◌else◌, ◌⊎◌, inl, inr, is_some,
}
use apsw.Prelude.Int.{ℤ, negsuc}
use apsw.Errors.{Exn, ExcClass}
use apsw.World.{World, raise, err_format}
use apsw.Cursor.{
  Value, none_value, int_value, float_value, str_value, buffer_value, zeroblob_value, other_value,
}
use apsw.Cursor.Binding.{fits_int64}
use apsw.Cursor.Execute.{
  Column, column_null, column_integer, column_float, column_text, column_blob,
}

-- A Python object: a value that SQLite has a type for, or some other one.
pub data PyObject : Type 0 where
  plain : Value → PyObject
  object : ℕ → PyObject

-- A call of `sqlite3_result_*` on the context of a function.
pub data ResultCall : Type 0 where
  result_null : ResultCall
  result_int64 : ℤ → ResultCall
  result_double : ℕ → ResultCall
  result_text result_blob : List ℕ → ResultCall
  result_zeroblob : ℤ → ResultCall
  result_error : Option String → ResultCall
  result_error_code : ℕ → ResultCall

-- The calls so far on the context, the newest first, and the world.
pub record Context (S : Type 0) : Type 0 where
  pub calls : List ResultCall
  pub world : World S

-- Something that a factory hands over: the object, and the function that calls it if it is callable.
pub record Member : Type 0 where
  pub item : PyObject
  pub callable : Option ℕ

-- What a factory returns: a tuple, a list, or an object by its attributes; the attribute gives its
-- value, or Python's exception.
pub data Made : Type 0 where
  made_tuple made_list : List Member → Made
  made_object : Member ⊎ Exn → Member ⊎ Exn → Member ⊎ Exn → Member ⊎ Exn → Made

-- What is called of Python and SQLite: a callable on its arguments, a factory, the memory of an
-- aggregate, UTF-8 and Python's exceptions: for
-- values that cannot be converted, for a list that has no attribute `step`. A call that gives no
-- object raises.
pub record FunctionApi (S : Type 0) : Type 0 where
  pub vectorcall : S → ℕ → List PyObject → (PyObject ⊎ Exn) × S
  pub factory : S → ℕ → (Made ⊎ Exn) × S
  pub aggregate_memory : S → Bool
  pub memory_error : Exn
  pub attribute_error : Exn
  pub is_utf8 : List ℕ → Bool
  pub decode_error : Exn
  pub int_error : Exn
  pub str_error : Exn
  pub buffer_error : Exn

-- What follows by whether there is an exception.
unfoldable pub by_exception {ℓ} : {A : Type ℓ} → Option Exn → (Exn → A) → A → A
by_exception none f a = a
by_exception (some e) f a = f e

-- An argument before those that follow; the first that fails decides.
unfoldable pub join_arg : PyObject ⊎ Exn → List PyObject ⊎ Exn → List PyObject ⊎ Exn
join_arg (inr e) rest = inr e
join_arg (inl a) (inr e) = inr e
join_arg (inl a) (inl vargs) = inl (a ∷ vargs)

unfoldable pub given_args {ℓ} :
    {A : Type ℓ} → List PyObject ⊎ Exn → (Exn → A) → (List PyObject → A) → A
given_args (inr e) failed go = failed e
given_args (inl vargs) failed go = go vargs

module _ {S : Type 0} where
  abbrev pub raised_in : Context S → Bool
  raised_in c = is_some c.world.exc

  abbrev pub set_result : ResultCall → Context S → Context S
  set_result r c = record c { calls = r ∷ c.calls }

  abbrev pub set_exception : Exn → Context S → Context S
  set_exception e c = record c { world = record c.world { exc = some e } }

module _ {S : Type 0} (api : FunctionApi S) where
  -- A value of a type that SQLite does not have.
  unfoldable pub unsupported : Context S → Bool × Context S
  unsupported c = (
    false,
    set_result (result_error (some "Bad return type from python function callback")) (record c {
      world =
          err_format ExcClass.type_error "Value from Python is not supported by SQLite." c.world;
    }),
  )

  -- `set_context_result`; the flag is its result.
  unfoldable pub set_context_result : PyObject → Context S → Bool × Context S
  set_context_result (plain none_value) c = (true, set_result result_null c)
  set_context_result (plain (int_value v)) c =
      if fits_int64 v then (true, set_result (result_int64 v) c) else (
        false,
        set_result (result_error (some "python integer overflow")) (set_exception api.int_error c),
      )
  set_context_result (plain (float_value d)) c = (true, set_result (result_double d) c)
  set_context_result (plain (str_value (some t))) c = (true, set_result (result_text t) c)
  set_context_result (plain (str_value none)) c = (
    false,
    set_result (result_error (some "Unicode conversions failed")) (set_exception api.str_error c),
  )
  set_context_result (plain (buffer_value (some b))) c = (true, set_result (result_blob b) c)
  set_context_result (plain (buffer_value none)) c = (
    false,
    set_result (result_error (some "PyObject_GetBufferContiguous failed"))
        (set_exception api.buffer_error c),
  )
  set_context_result (plain (zeroblob_value n)) c = (true, set_result (result_zeroblob n) c)
  set_context_result (plain other_value) c = unsupported c
  set_context_result (object o) c = unsupported c

  -- `convert_value_to_pyobject` of an argument; a text that is not UTF-8 is Python's exception.
  unfoldable pub convert_value : Column → PyObject ⊎ Exn
  convert_value column_null = inl (plain none_value)
  convert_value (column_integer n) = inl (plain (int_value n))
  convert_value (column_float d) = inl (plain (float_value d))
  convert_value (column_text t) =
      if api.is_utf8 t then inl (plain (str_value (some t))) else inr api.decode_error
  convert_value (column_blob b) = inl (plain (buffer_value (some b)))

  -- The loop of `getfunctionargs`.
  unfoldable pub convert_all : List Column → List PyObject ⊎ Exn
  convert_all [] = inl []
  convert_all (v ∷ vs) = join_arg (convert_value v) (convert_all vs)

  -- `getfunctionargs`, with what follows where it succeeds.
  unfoldable pub with_args {ℓ} :
      {A : Type ℓ} → List Column → Context S → (Context S → A) → (List PyObject → A) → A
  with_args argv c failed go =
      given_args (convert_all argv)
        (λ e.
          failed (
            set_result (result_error (some "convert_value_to_pyobject failed"))
              (set_exception e c)))
        go

  -- What `PyObject_Vectorcall` leaves: the object, or none and the exception.
  unfoldable pub python_result : (PyObject ⊎ Exn) × S → Context S → Option PyObject × Context S
  python_result (inl v, d) c = (some v, record c { world = record c.world { db = d } })
  python_result (inr e, d) c = (none, record c { world = record c.world { db = d; exc = some e } })

  unfoldable pub call_python : ℕ → List PyObject → Context S → Option PyObject × Context S
  call_python f vargs c = python_result (api.vectorcall c.world.db f vargs) c

  -- What a call returned is the result of the function.
  unfoldable pub use_result : Option PyObject × Context S → Context S
  use_result (none, c) = c
  use_result (some v, c) = (set_context_result v c).1
