-- ===== src/Hooks/Answers.antt =====
-- What a hook of Python answers, as the number that SQLite gets (src/connection.c, src/pyutil.c).
use apsw.Prelude.{
  ℕ, ◌-◌, ◌^◌, Bool, false, Option, none, some, List, if◌then◌else◌, ◌⊎◌, inl, inr, ◌==◌, ltb,
}
use apsw.Prelude.Int.{ℤ, pos, negsuc}
use apsw.Errors.{Exn, ExcClass}
use apsw.World.{World, occurred, err_format}
use apsw.Cursor.{
  none_value, int_value, float_value, str_value, buffer_value, zeroblob_value, other_value,
}
use apsw.Cursor.Execute.{Column}
use apsw.Functions.{PyObject, plain, object, FunctionApi, convert_all, given_args}
use apsw.Functions.Aggregate.{with_value}

-- The number of an object that is an `int`; a `bool` is one.
unfoldable pub int_of : PyObject → Option ℤ
int_of (plain (int_value n)) = some n
int_of (plain none_value) = none
int_of (plain (float_value d)) = none
int_of (plain (str_value t)) = none
int_of (plain (buffer_value b)) = none
int_of (plain (zeroblob_value n)) = none
int_of (plain other_value) = none
int_of (object o) = none

-- What follows by whether there is a number.
unfoldable pub on_int {ℓ} : {A : Type ℓ} → Option ℤ → A → (ℤ → A) → A
on_int none a f = a
on_int (some n) a f = f n

unfoldable pub fits_int : ℤ → Bool
fits_int (pos n) = ltb n (2 ^ 31)
fits_int (negsuc n) = ltb n (2 ^ 31)

abbrev pub is_zero : ℤ → Bool
is_zero (pos n) = n == 0
is_zero (negsuc n) = false

-- An `int` as the `unsigned int` that it is converted to.
abbrev pub unsigned : ℤ → ℕ
unsigned (pos n) = n
unsigned (negsuc n) = 2 ^ 32 - 1 - n

-- `SQLITE_DENY`.
abbrev pub sqlite_deny : ℤ
sqlite_deny = pos 1

module _ {S : Type 0} where
  abbrev pub set_world_exc : Exn → World S → World S
  set_world_exc e w = record w { exc = some e }

  -- The results 0, 1 and -1 of `PyObject_IsTrueStrict`, with what takes the place of -1.
  unfoldable pub is_true_strict : ℕ → PyObject → World S → ℕ × World S
  is_true_strict on_error v w =
      on_int (int_of v) (on_error, err_format ExcClass.type_error "Expected a bool" w)
        (λ n. (if is_zero n then 0 else 1, w))

  -- The end of `commithookcb`, `progresshandlercb` and `busyhandlercb`.
  unfoldable pub truth_or : ℕ → Option PyObject × World S → ℕ × World S
  truth_or on_error (none, w) = (on_error, w)
  truth_or on_error (some v, w) = is_true_strict on_error v w

  -- What `PyObject_Vectorcall` leaves.
  unfoldable pub answered : (PyObject ⊎ Exn) × S → World S → Option PyObject × World S
  answered (inl v, d) w = (some v, record w { db = d })
  answered (inr e, d) w = (none, record w { db = d; exc = some e })

module _ {S : Type 0} (api : FunctionApi S) where
  -- The call of a hook, with the object that goes before the arguments, where there is one.
  unfoldable pub call_hook : ℕ → Option PyObject → List Column → World S → Option PyObject × World S
  call_hook f first args w =
      given_args (convert_all api args) (λ e. (none, set_world_exc e w))
        (λ vargs. answered (api.vectorcall w.db f (with_value first vargs)) w)

  -- `PyLong_AsInt`, with what takes the place of -1.
  unfoldable pub as_c_int : ℤ → ℤ → World S → ℤ × World S
  as_c_int on_error n w = if fits_int n then (n, w) else (on_error, set_world_exc api.int_error w)

  -- The end of `authorizercb`: whatever is no number that fits denies.
  unfoldable pub authorizer_result : Option PyObject × World S → ℤ × World S
  authorizer_result (none, w) = (sqlite_deny, w)
  authorizer_result (some v, w) =
      on_int (int_of v)
        (sqlite_deny, err_format ExcClass.type_error "Authorizer must return a number" w)
        (λ n. as_c_int sqlite_deny n w)

  -- The end of `walhookcb`.
  unfoldable pub wal_result : Option PyObject × World S → ℤ × World S
  wal_result (none, w) = (pos 1, w)
  wal_result (some v, w) =
      on_int (int_of v) (pos 1, err_format ExcClass.type_error "wal hook must return a number" w)
        (λ n. as_c_int (negsuc 0) n w)

  abbrev pub not_a_number : World S → World S
  not_a_number w =
      err_format ExcClass.type_error
        "autovacuum_pages callback must return a number that fits in 'int' not %R" w

  -- An exception that is left, whether new or from before, is followed by another.
  unfoldable pub vacuum_number : ℤ × World S → ℕ × World S
  vacuum_number (n, w) = (unsigned n, if occurred w then not_a_number w else w)

  -- The end of `autovacuum_pages_cb`.
  unfoldable pub vacuum_result : Option PyObject × World S → ℕ × World S
  vacuum_result (none, w) = (0, w)
  vacuum_result (some v, w) =
      on_int (int_of v) (0, not_a_number w) (λ n. vacuum_number (as_c_int (negsuc 0) n w))
