-- ===== src/Hooks/Tests.antt =====
-- Hooks of Python on concrete connections (src/connection.c).
use apsw.Prelude.{
  ℕ, ◌^◌, ◌≤◌, ◌≡◌, refl, true, false, none, some, List, [], ◌∷◌, ◌==◌, if◌then◌else◌, ◌⊎◌, inl,
  inr, is_some, arith,
}
use apsw.Prelude.Int.{pos}
use apsw.Errors.{Exn, ExcClass, raised}
use apsw.World.{World, occurred}
use apsw.Cursor.{int_value}
use apsw.Functions.{PyObject, plain, FunctionApi, convert_all, convert_value, join_arg, given_args}
use apsw.Hooks.{HookFields, Hooked, SettingApi}
use apsw.Hooks.Answers.{is_zero, sqlite_deny, answered, call_hook, fits_int}
use apsw.Hooks.Callbacks.{
  commithookcb, progresshandlercb, authorizercb, busyhandlercb, walhookcb, autovacuum_pages_cb,
}
use apsw.Hooks.Kept.{sets_update, sets_busy, sets_timeout, sets_trace, sets_profile}
use apsw.Hooks.Events.{
  on_update, on_busy, on_trace, on_profile, Act, sets, happens, run_acts, no_hooks, no_callbacks,
}
use apsw.Hooks.Null.{no_null_hook}
use apsw.Hooks.Refusal.{FailsSafe, exception_refuses, exception_gives_up, vacuum_overflow}

-- SQLite takes every setting.
abbrev settings : SettingApi (Unit {0})
settings = record { tell = λ d s. (0, none, d) }

abbrev hook_error : Exn
hook_error = raised ExcClass.runtime_error "no"

-- Hook 1 says yes, hook 2 gives a number that is too large, any other raises.
abbrev answer : ℕ → (PyObject ⊎ Exn) × Unit {0}
answer f =
    if f == 1
    then (inl (plain (int_value (pos 1))), tt)
    else if f == 2
    then (inl (plain (int_value (pos (2 ^ 31)))), tt)
    else (inr hook_error, tt)

abbrev hooks_api : FunctionApi (Unit {0})
hooks_api = record {
  vectorcall = λ d f vargs. answer f;
  factory = λ d f. (inr hook_error, tt);
  aggregate_memory = λ d. true;
  memory_error = hook_error;
  attribute_error = hook_error;
  is_utf8 = λ t. true;
  decode_error = hook_error;
  int_error = raised ExcClass.overflow_error "";
  str_error = hook_error;
  buffer_error = hook_error;
}

abbrev calm : World (Unit {0})
calm = record {
  db = tt;
  exc = none;
  trace = [];
  conns = λ i. record { open_db = true; inuse = false; dependents = [] };
  unraised = [];
}

abbrev acts : List Act
acts =
    sets (sets_update (some 1))
    ∷ happens (on_update (pos 18) (109 ∷ []) (116 ∷ []) (pos 5))
    ∷ sets (sets_busy (some 3))
    ∷ happens (on_busy (pos 0))
    ∷ sets (sets_timeout (pos 10))
    ∷ happens (on_busy (pos 1))
    ∷ sets (sets_trace 1 (some 1))
    ∷ happens (on_trace 1 [])
    ∷ sets (sets_profile (some 3))
    ∷ happens (on_profile (115 ∷ []) (pos 9))
    ∷ []

no_null_hook_example :
    is_some (
      run_acts settings hooks_api acts
        (record { con = 0; fields = no_hooks; registered = no_callbacks })
        calm)
    ≡ true
no_null_hook_example = no_null_hook settings hooks_api acts 0 calm

-- Hooks that raise or give a number that is too large.
abbrev raising : HookFields
raising = record no_hooks {
  commithook = some 3;
  progresshandler = some 3;
  authorizer = some 2;
  busyhandler = some 3;
  walhook = some 2;
}

exception_refuses_example :
    FailsSafe (λ n. n ≡ 1) (commithookcb hooks_api raising calm)
    × FailsSafe (λ n. n ≡ 1) (progresshandlercb hooks_api raising calm)
    × FailsSafe
        (λ n. n ≡ sqlite_deny)
        (authorizercb hooks_api raising (pos 20) (some (116 ∷ [])) none none none calm)
exception_refuses_example =
    exception_refuses hooks_api raising calm 3 3 2 (pos 20) (some (116 ∷ [])) none none none refl
      refl refl

abbrev raising_con : Hooked
raising_con = record { con = 0; fields = raising; registered = no_callbacks }

exception_gives_up_example :
    FailsSafe (λ n. n ≡ 0) (busyhandlercb hooks_api raising (pos 4) calm)
    × FailsSafe (λ n. is_zero n ≡ false) (walhookcb hooks_api raising_con (109 ∷ []) (pos 7) calm)
exception_gives_up_example =
    exception_gives_up hooks_api raising_con calm 3 2 (pos 4) (pos 7) (109 ∷ []) refl refl refl

vacuum_overflow_example :
    (5 ≤ (autovacuum_pages_cb hooks_api 2 (109 ∷ []) 100 5 4096 calm).0)
    × (occurred (autovacuum_pages_cb hooks_api 2 (109 ∷ []) 100 5 4096 calm).1 ≡ true)
unfolding call_hook convert_all convert_value join_arg given_args answered fits_int
vacuum_overflow_example =
    vacuum_overflow hooks_api 2 (109 ∷ []) 100 5 4096 calm calm (pos (2 ^ 31)) refl refl
      (omega arith)
