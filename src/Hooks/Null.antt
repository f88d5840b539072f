-- ===== src/Hooks/Null.antt =====
-- Setting hooks and calling them: no callback calls through a null pointer (src/connection.c).
use mathlib.Core.Option
use native.Mathlib.Nat.{zero-div}
use apsw.Prelude.{
  ℕ, ◌%◌, ◌==◌, ◌≡◌, refl, ap, sym, ◌∙◌, true, Option, none, some, List, [], ◌∷◌, ◌⊎◌, inl, inr,
  is_some, arith, Bool-cases, sum_cases,
}
use apsw.Errors.{Exn}
use apsw.World.{World}
use apsw.Cursor.Execute.{Column}
use apsw.Functions.{FunctionApi, by_exception, convert_all, given_args}
use apsw.Hooks.{TraceCallback, profile_cb, tracehook_cb, Hooked, SettingApi}
use apsw.Hooks.Setters.{has_bit}
use apsw.Hooks.Callbacks.{
  for_effect, traced, tracehook_callback, updatecb, rollbackhookcb, profilecb, commithookcb,
  walhookcb, progresshandlercb, authorizercb, collationneeded_cb, busyhandlercb,
}
use apsw.Hooks.Backed.{
  IsTraced, update_slot, rollback_slot, commit_slot, wal_slot, progress_slot, authorizer_slot,
  collation_slot, busy_slot, trace_slot, mask_slot, BacksSlot, IsBacked,
}
use apsw.Hooks.Kept.{set_hook-IsBacked}
use apsw.Hooks.Events.{
  Event, on_update, on_rollback, on_commit, on_progress, on_profile, on_trace, on_wal, on_authorize,
  on_vacuum, on_collation, on_busy, has_profile, has_callback, Act, sets, happens, call_back,
  run_acts, no_hooks, no_callbacks,
}

is_some-map :
    {A B : Type 0} (f : A → B) (o : Option A) → is_some o ≡ true → is_some (Option.map f o) ≡ true
is_some-map f none q = absurd (ground (arith, q))
is_some-map f (some a) q = refl

is_some-by_exception :
    {A : Type 0} (x : Option Exn) (f : Exn → Option A) (o : Option A)
    → ((e : Exn) → is_some (f e) ≡ true)
    → is_some o ≡ true
    → is_some (by_exception x f o) ≡ true
unfolding by_exception
is_some-by_exception none f o q q' = q'
is_some-by_exception (some e) f o q q' = q e

profile_there :
    (t : Option TraceCallback) (f : Option ℕ)
    → IsTraced t f
    → has_profile t ≡ true
    → is_some f ≡ true
unfolding IsTraced
profile_there none f h q = absurd (ground (arith, q))
profile_there (some profile_cb) f h q = h
profile_there (some (tracehook_cb mask)) f h q = absurd (ground (arith, q))

no_bit : (code : ℕ) → has_bit 0 code ≡ true → ⊥
unfolding has_bit
no_bit code q = absurd (ground (arith, sym (ap (λ n. n % 2 == 1) (zero-div code)) ∙ q))

module _ {S : Type 0} (api : FunctionApi S) where
  trace_there :
      (h : Hooked) (code : ℕ) (values : List Column) (w : World S)
      → (h.fields.tracemask ≡ 0) ⊎ (is_some h.fields.tracehook ≡ true)
      → is_some (traced api h.fields code values w) ≡ true
  unfolding traced given_args
  trace_there h code values w m = elim (Bool-cases (has_bit h.fields.tracemask code)) [
    | inr q ↦ rw q refl
    | inl q ↦ elim (sum_cases (convert_all api values)) [
      | inr (e, bad) ↦ rw (q, bad) refl
      | inl (param, good) ↦ rw (q, good) (is_some-map _ _ (there m q))
    ]
  ]
    where
      there :
          (h.fields.tracemask ≡ 0) ⊎ (is_some h.fields.tracehook ≡ true)
          → has_bit h.fields.tracemask code ≡ true
          → is_some h.fields.tracehook ≡ true
      there (inr has) q = has
      there (inl zero) q = absurd (no_bit code (ap (λ m. has_bit m code) (sym zero) ∙ q))

  call_back-returns :
      (e : Event) (h : Hooked) (w : World S)
      → IsBacked h
      → has_callback e h.registered ≡ true
      → is_some (call_back api e h w) ≡ true
  unfolding call_back has_callback BacksSlot updatecb rollbackhookcb profilecb commithookcb
      walhookcb progresshandlercb authorizercb collationneeded_cb busyhandlercb for_effect
      tracehook_callback
  call_back-returns (on_update typ db table rowid) h w b q =
      is_some-by_exception _ _ _ (λ e. refl) (is_some-map _ _ (b update_slot q))
  call_back-returns on_rollback h w b q =
      is_some-by_exception _ _ _ (λ e. refl) (is_some-map _ _ (b rollback_slot q))
  call_back-returns on_commit h w b q =
      is_some-map _ _ (is_some-by_exception _ _ _ (λ e. refl) (is_some-map _ _ (b commit_slot q)))
  call_back-returns on_progress h w b q =
      is_some-map _ _ (is_some-by_exception _ _ _ (λ e. refl) (is_some-map _ _ (b progress_slot q)))
  call_back-returns (on_profile sql time) h w b q =
      is_some-by_exception _ _ _ (λ e. refl) (is_some-map _ _ (profile_there _ _ (b trace_slot) q))
  call_back-returns (on_trace code values) h w b q =
      is_some-by_exception _ _ _ (λ e. refl) (trace_there h code values w (b mask_slot))
  call_back-returns (on_wal db pages) h w b q = is_some-map _ _ (is_some-map _ _ (b wal_slot q))
  call_back-returns (on_authorize op one two db trigger) h w b q =
      is_some-map _ _
        (is_some-by_exception _ _ _ (λ e. refl) (is_some-map _ _ (b authorizer_slot q)))
  call_back-returns (on_vacuum schema pages free size) h w b q = is_some-map _ _ q
  call_back-returns (on_collation name) h w b q = is_some-map _ _ (b collation_slot q)
  call_back-returns (on_busy ncall) h w b q = is_some-map _ _ (is_some-map _ _ (b busy_slot q))

is_some-bind :
    {A B : Type 0} (o : Option A) (f : A → Option B)
    → is_some o ≡ true
    → ((a : A) → is_some (f a) ≡ true)
    → is_some (Option.bind o f) ≡ true
unfolding Option.bind
is_some-bind none f q q' = absurd (ground (arith, q))
is_some-bind (some a) f q q' = q' a

new_connection-IsBacked :
    (con : ℕ) → IsBacked (record { con = con; fields = no_hooks; registered = no_callbacks })
unfolding BacksSlot IsTraced
new_connection-IsBacked con update_slot = λ q. q
new_connection-IsBacked con rollback_slot = λ q. q
new_connection-IsBacked con commit_slot = λ q. q
new_connection-IsBacked con wal_slot = λ q. q
new_connection-IsBacked con progress_slot = λ q. q
new_connection-IsBacked con authorizer_slot = λ q. q
new_connection-IsBacked con collation_slot = λ q. q
new_connection-IsBacked con busy_slot = λ q. q
new_connection-IsBacked con trace_slot = tt
new_connection-IsBacked con mask_slot = inl refl

module _ {S : Type 0} (settings : SettingApi S) (api : FunctionApi S) where
  run_acts-returns :
      (acts : List Act) (h : Hooked) (w : World S)
      → IsBacked h
      → is_some (run_acts settings api acts h w) ≡ true
  unfolding run_acts
  run_acts-returns [] h w b = refl
  run_acts-returns (sets m ∷ acts) h w b =
      run_acts-returns acts _ _ (set_hook-IsBacked settings m h w b)
  run_acts-returns (happens e ∷ acts) h w b = elim (Bool-cases (has_callback e h.registered)) [
    | inr q ↦ rw q (run_acts-returns acts h w b)
    | inl q ↦ rw q (
        is_some-bind (call_back api e h w) _ (call_back-returns api e h w b q)
          (λ w'. run_acts-returns acts h w' b))
  ]

  -- From a connection without hooks, whatever methods set hooks and whatever events SQLite has a callback
  -- for, in any order, with every answer of SQLite and of Python, exceptions and refused settings
  -- included: no callback calls through a null pointer.
  pub no_null_hook :
      (acts : List Act) (con : ℕ) (w : World S)
      → is_some (
          run_acts settings api acts
            (record { con = con; fields = no_hooks; registered = no_callbacks })
            w)
        ≡ true
  no_null_hook acts con w = run_acts-returns acts _ w (new_connection-IsBacked con)
