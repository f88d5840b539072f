-- ===== src/Functions/Scalar.antt =====
-- Scalar functions (`cbdispatch_func` of src/connection.c).
use apsw.Prelude.{ℕ, ◌≡◌, refl, ap, ◌∙◌, true, Option, none, some, List, [], ◌∷◌, inl}
use apsw.Errors.{Exn, make_sqlite_msg_from_py_exception}
use apsw.Cursor.{none_value, int_value, float_value, str_value, buffer_value}
use apsw.Cursor.Binding.{fits_int64}
use apsw.Cursor.Execute.{
  Column, column_null, column_integer, column_float, column_text, column_blob,
}
use apsw.Functions.{
  PyObject, plain, ResultCall, result_null, result_int64, result_double, result_text, result_blob,
  result_error, result_error_code, Context, FunctionApi, set_result, set_context_result,
  convert_value, convert_all, with_args, call_python, by_exception, python_result, use_result,
  join_arg, given_args,
}

module _ {S : Type 0} where
  -- The two calls that tell SQLite of an exception. `MakeSqliteMsgFromPyException` writes a message only
  -- in place of one that is there, and there is none.
  unfoldable pub report_exception : Context S → Context S
  report_exception c =
      by_exception c.world.exc
        (λ e.
          set_result (result_error none)
            (set_result (result_error_code (make_sqlite_msg_from_py_exception e)) c))
        c

  -- An exception that is there before the function is called.
  unfoldable pub prior_error : Exn → Context S → Context S
  prior_error e c =
      set_result (result_error (some "Prior Python Error"))
        (set_result (result_error_code (make_sqlite_msg_from_py_exception e)) c)

module _ {S : Type 0} (api : FunctionApi S) where
  -- `cbdispatch_func`.
  unfoldable pub cbdispatch_func : ℕ → List Column → Context S → Context S
  cbdispatch_func f argv c =
      by_exception c.world.exc (λ e. prior_error e c)
        (report_exception
          (with_args api argv c (λ c'. c') (λ vargs. use_result api (call_python api f vargs c))))

-- The call that gives a value of SQLite back as it is.
abbrev pub result_of : Column → ResultCall
result_of column_null = result_null
result_of (column_integer n) = result_int64 n
result_of (column_float d) = result_double d
result_of (column_text t) = result_text t
result_of (column_blob b) = result_blob b

-- A value that SQLite can hold: an integer of 64 bits, a text that is UTF-8.
abbrev pub IsHeld : {S : Type 0} → FunctionApi S → Column → Type 0
IsHeld api column_null = Unit
IsHeld api (column_integer n) = fits_int64 n ≡ true
IsHeld api (column_float d) = Unit
IsHeld api (column_text t) = api.is_utf8 t ≡ true
IsHeld api (column_blob b) = Unit

-- The function returns its first argument.
abbrev pub ReturnsArg : {S : Type 0} → FunctionApi S → ℕ → S → S → Type 0
ReturnsArg api f d d' = (p : PyObject) → api.vectorcall d f (p ∷ []) ≡ (inl p, d')

-- The object for a value, and that it is passed on as the value.
abbrev pub Passes : {S : Type 0} → FunctionApi S → Column → PyObject → Type 0
Passes {S} api v p =
    (convert_value api v ≡ inl p)
    × ((c : Context S) → set_context_result api p c ≡ (true, set_result (result_of v) c))

by_exception-none {ℓ} :
    {A : Type ℓ} (x : Option Exn) (f : Exn → A) (a : A) → x ≡ none → by_exception x f a ≡ a
unfolding by_exception
by_exception-none x f a q = rw q refl

module _ {S : Type 0} (api : FunctionApi S) where
  passes : (v : Column) → IsHeld api v → (p : PyObject) × Passes api v p
  unfolding convert_value set_context_result
  passes column_null h = (plain none_value, (refl, λ c. refl))
  passes (column_integer n) h = (plain (int_value n), (refl, λ c. rw h refl))
  passes (column_float x) h = (plain (float_value x), (refl, λ c. refl))
  passes (column_text t) h = (plain (str_value (some t)), (rw h refl, λ c. refl))
  passes (column_blob b) h = (plain (buffer_value (some b)), (refl, λ c. refl))

  report_exception-none : (c : Context S) → c.world.exc ≡ none → report_exception c ≡ c
  unfolding report_exception
  report_exception-none c q = by_exception-none _ _ _ q

  -- A Python function that returns its argument gives SQLite the value that it had, which is an integer
  -- of 64 bits or a text in UTF-8 where it is one: the one call on the context of the function sets that
  -- value, and no exception is left.
  pub scalar_identity :
      (f : ℕ) (v : Column) (c : Context S) (d : S)
      → IsHeld api v
      → c.world.exc ≡ none
      → ReturnsArg api f c.world.db d
      → cbdispatch_func api f (v ∷ []) c
        ≡ set_result (result_of v) (record c { world = record c.world { db = d } })
  unfolding cbdispatch_func with_args convert_all join_arg given_args call_python python_result
      use_result
  scalar_identity f v c d h q r =
      by_exception-none _ _ _ q
      ∙ ap report_exception run
      ∙ (ap (λ x. report_exception x.1) (p.1.1 _) ∙ report_exception-none _ q)
    where
      p : (p : PyObject) × Passes api v p
      p = passes v h

      run :
          with_args api (v ∷ []) c (λ c'. c') (λ vargs. use_result api (call_python api f vargs c))
          ≡ (set_context_result api p.0 (record c { world = record c.world { db = d } })).1
      run = rw (p.1.0, r p.0) refl
