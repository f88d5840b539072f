-- ===== src/Functions/Tests.antt =====
-- Functions of Python on concrete rows (src/connection.c).
use mathlib.Core.Option
use apsw.Prelude.{
  Bool-cases, arith, ℕ, ◌+◌, ◌≡◌, refl, true, false, Option, none, some, List, [], ◌∷◌, ◌==◌,
  if◌then◌else◌, ◌⊎◌, inl, inr,
}
use apsw.Prelude.Int.{pos}
use apsw.Errors.{Exn, ExcClass, raised}
use apsw.World.{World}
use apsw.Cursor.{none_value, int_value}
use apsw.Cursor.Binding.{fits_int64}
use apsw.Cursor.Execute.{Column, column_integer, column_text}
use apsw.Functions.{
  PyObject, plain, object, ResultCall, result_int64, Context, Member, made_tuple, FunctionApi,
  set_result, set_context_result, convert_value, convert_all, join_arg, with_args, given_args,
  call_python, python_result, by_exception, use_result,
}
use apsw.Functions.Scalar.{cbdispatch_func, scalar_identity}
use apsw.Functions.Aggregate.{
  call_step, Aggregate, fresh, parts_of, keep_parts, store_made, getaggregatefunctioncontext,
  step_with, cbdispatch_step, call_final, final_with, restored, cbdispatch_final,
}
use apsw.Functions.Program.{run_group}
use apsw.Functions.Parts.{empty, wfc_uninit}
use apsw.Functions.Window.{
  WindowCall, step_call, inverse_call, value_call, final_call, window_calls,
}
use apsw.Functions.Sound.{live_uninit, SoundEnd, Reported}
use apsw.Functions.Report.{window_calls-Sound}
use apsw.Functions.Register.{scalar, Registration, RegisterApi, create_all, no_infos}
use apsw.Functions.Ownership.{RegisterLaws, occurrences, is_info, create_all-refs}

-- Adds the last argument, where it is an `int`; refuses another value.
abbrev add_last : ℕ → List PyObject → (PyObject ⊎ Exn) × ℕ
add_last d (v ∷ plain (int_value (pos n)) ∷ vs) = (inl (plain none_value), d + n)
add_last d vs = (inr (raised ExcClass.type_error "not a number"), d)

abbrev first_arg : ℕ → List PyObject → (PyObject ⊎ Exn) × ℕ
first_arg d [] = (inr (raised ExcClass.type_error "no argument"), d)
first_arg d (v ∷ vs) = (inl v, d)

-- Functions 1, 2 and 3: the identity, the step of a sum and its end; the state is the sum.
abbrev adding : ℕ → ℕ → List PyObject → (PyObject ⊎ Exn) × ℕ
adding d f vargs =
    if f == 1
    then first_arg d vargs
    else if f == 2
    then add_last d vargs
    else (inl (plain (int_value (pos d))), d)

abbrev member : ℕ → Member
member f = record { item = object f; callable = some f }

abbrev sums : FunctionApi ℕ
sums = record {
  vectorcall = adding;
  factory = λ d f. (
    inl (
        made_tuple (
          if f == 5
          then member 0 ∷ member 2 ∷ member 3 ∷ []
          else member 0 ∷ member 2 ∷ member 3 ∷ member 3 ∷ member 2 ∷ [])),
    0,
  );
  aggregate_memory = λ d. true;
  memory_error = raised ExcClass.memory_error "";
  attribute_error = raised ExcClass.type_error "";
  is_utf8 = λ t. true;
  decode_error = raised ExcClass.value_error "";
  int_error = raised ExcClass.overflow_error "";
  str_error = raised ExcClass.value_error "";
  buffer_error = raised ExcClass.value_error "";
}

abbrev start : Context ℕ
start = record {
  calls = [];
  world = record {
    db = 0;
    exc = none;
    trace = [];
    conns = λ i. record { open_db = true; inuse = false; dependents = [] };
    unraised = [];
  };
}

abbrev number_of : ℕ → Column
number_of n = column_integer (pos n)

scalar_identity_example :
    cbdispatch_func sums 1 (number_of 7 ∷ []) start ≡ set_result (result_int64 (pos 7)) start
unfolding fits_int64
scalar_identity_example = scalar_identity sums 1 (number_of 7) start 0 refl refl (λ p. refl)

abbrev rows : List (List Column)
rows = (number_of 4 ∷ []) ∷ (number_of 8 ∷ []) ∷ []

-- The sum of the rows is the result.
abbrev outcome : Option (Aggregate × Context ℕ) → Option (List ResultCall × Option Exn)
outcome r = Option.map (λ s. (s.1.calls, s.1.world.exc)) r

sum_of_rows : outcome (run_group sums 5 rows fresh start) ≡ some (result_int64 (pos 12) ∷ [], none)
unfolding run_group Option.bind cbdispatch_step by_exception step_with getaggregatefunctioncontext
    store_made keep_parts parts_of call_step with_args given_args convert_all join_arg convert_value
    call_python python_result cbdispatch_final fits_int64 call_final final_with restored
    set_context_result use_result
sum_of_rows = refl

abbrev frame : List WindowCall
frame =
    step_call (number_of 4 ∷ [])
    ∷ value_call
    ∷ inverse_call (column_text (1 ∷ []) ∷ [])
    ∷ final_call
    ∷ []

window_calls-Sound_example : SoundEnd (window_calls sums 6 frame (empty wfc_uninit) start)
unfolding Reported
window_calls-Sound_example =
    window_calls-Sound sums 6 frame (empty wfc_uninit) start refl (live_uninit none) tt

-- SQLite holds one function and the destructor is called for the one that it had; a second
-- registration of many is refused.
abbrev old_of : Option ℕ → List ℕ
old_of none = []
old_of (some y) = y ∷ []

abbrev registry : RegisterApi (Option ℕ)
registry = record {
  has_memory = λ d. true;
  register = λ d reg info. if reg.flags == 9 then (21, none, d) else (0, none, info);
  destroyed = λ d reg info. if reg.flags == 9 then old_of info else old_of d;
}

abbrev empty_registry : World (Option ℕ)
empty_registry = record {
  db = none;
  exc = none;
  trace = [];
  conns = start.world.conns;
  unraised = [];
}

balance_parts :
    (d info : Option ℕ) (x : ℕ)
    → (occurrences x (old_of d) + occurrences x (old_of info)
        ≡ occurrences x (old_of d) + is_info x info)
      × (occurrences x (old_of info) + occurrences x (old_of d)
          ≡ occurrences x (old_of d) + is_info x info)
balance_parts d none x = (refl, omega arith)
balance_parts d (some y) x = (omega arith, omega arith)

registry_balance :
    (d : Option ℕ) (reg : Registration) (info : Option ℕ) (x : ℕ)
    → occurrences x (old_of (registry.register d reg info).2)
        + occurrences x (registry.destroyed d reg info)
      ≡ occurrences x (old_of d) + is_info x info
registry_balance d reg info x = elim (Bool-cases (reg.flags == 9)) [
  | inl q ↦ rw q (balance_parts d info x).0
  | inr q ↦ rw q (balance_parts d info x).1
]

abbrev registry_laws : RegisterLaws registry
registry_laws = record { held = old_of; balance = registry_balance }

abbrev plain_reg : Registration
plain_reg = record { kind = scalar; name = 102 ∷ []; numargs = pos 1; flags = 1 }

abbrev registrations : List (Registration × Option ℕ)
registrations =
    (plain_reg, some 3) ∷ (record plain_reg { flags = 9 }, some 4) ∷ (plain_reg, some 5) ∷ []

-- The third object, number 2, is the one that SQLite holds.
create_all-refs_example :
    (create_all registry 0 registrations no_infos empty_registry).0.refs 2
    ≡ occurrences 2 (old_of (create_all registry 0 registrations no_infos empty_registry).1.db)
create_all-refs_example =
    create_all-refs registry registry_laws 0 registrations empty_registry 2 refl
