-- ===== src/Hooks/Refusal.antt =====
-- What the hooks tell SQLite when there is an exception (src/connection.c).
use mathlib.Core.Path.{subst}
use apsw.Prelude.{
  ℕ, ◌^◌, ◌<◌, ◌≤◌, ◌≡◌, refl, ap, true, false, Option, none, some, List, [], ◌⊎◌, inl, inr,
  is_some, arith, Bool-cases, Option-cases, sum_cases,
}
use apsw.Prelude.Int.{ℤ, negsuc}
use apsw.Errors.{Exn}
use apsw.World.{World, occurred}
use apsw.Cursor.Execute.{Column}
use apsw.Cursor.{int_value}
use apsw.Functions.{PyObject, plain, FunctionApi, by_exception, convert_all, given_args}
use apsw.Hooks.{HookFields, Hooked}
use apsw.Hooks.Answers.{
  int_of, on_int, fits_int, is_zero, sqlite_deny, is_true_strict, truth_or, answered, call_hook,
  as_c_int, authorizer_result, wal_result, vacuum_number, vacuum_result,
}
use apsw.Hooks.Callbacks.{
  commithookcb, walhookcb, progresshandlercb, authorizercb, chain_before, vacuum_args,
  autovacuum_pages_cb, busyhandlercb,
}

-- A value of a callback with no exception left, or one that refuses.
abbrev pub Safe : {A S : Type 0} → (A → Type 0) → A × World S → Type 0
Safe IsRefusal r = (occurred r.1 ≡ false) ⊎ IsRefusal r.0

-- The callback returns, and safely.
abbrev pub FailsSafe : {A S : Type 0} → (A → Type 0) → Option (A × World S) → Type 0
FailsSafe {A} {S} IsRefusal out = (r : A × World S) × (out ≡ some r) × Safe IsRefusal r

-- A call that gives an object leaves the exception as it was.
KeepsExc : {S : Type 0} → Option Exn → Option PyObject × World S → Type 0
KeepsExc x (none, w) = Unit
KeepsExc x (some v, w) = w.exc ≡ x

no_exception : (x : Option Exn) → x ≡ none → is_some x ≡ false
no_exception x q = rw q refl

module _ {S : Type 0} (api : FunctionApi S) where
  answered-KeepsExc : (r : (PyObject ⊎ Exn) × S) (w : World S) → KeepsExc w.exc (answered r w)
  unfolding KeepsExc answered
  answered-KeepsExc (inl v, d) w = refl
  answered-KeepsExc (inr e, d) w = tt

  call_hook-KeepsExc :
      (f : ℕ) (first : Option PyObject) (args : List Column) (w : World S)
      → KeepsExc w.exc (call_hook api f first args w)
  unfolding KeepsExc call_hook given_args
  call_hook-KeepsExc f first args w = elim (sum_cases (convert_all api args)) [
    | inr (e, bad) ↦ rw bad tt
    | inl (vargs, good) ↦ rw good (answered-KeepsExc (api.vectorcall _ _ _) w)
  ]

  truth_or-Safe :
      (n : ℕ) (r : Option PyObject × World S) → KeepsExc none r → Safe (λ m. m ≡ n) (truth_or n r)
  unfolding KeepsExc truth_or is_true_strict on_int
  truth_or-Safe n (none, w) h = inr refl
  truth_or-Safe n (some v, w) h = elim (Option-cases (int_of v)) [
    | inl q ↦ rw q (inr refl)
    | inr (m, q) ↦ rw q (inl (no_exception w.exc h))
  ]

  as_c_int-Safe : (e n : ℤ) (w : World S) → w.exc ≡ none → Safe (λ m. m ≡ e) (as_c_int api e n w)
  unfolding as_c_int
  as_c_int-Safe e n w h = elim (Bool-cases (fits_int n)) [
    | inl q ↦ rw q (inl (no_exception w.exc h))
    | inr q ↦ rw q (inr refl)
  ]

  authorizer_result-Safe :
      (r : Option PyObject × World S)
      → KeepsExc none r
      → Safe (λ m. m ≡ sqlite_deny) (authorizer_result api r)
  unfolding KeepsExc authorizer_result on_int
  authorizer_result-Safe (none, w) h = inr refl
  authorizer_result-Safe (some v, w) h = elim (Option-cases (int_of v)) [
    | inl q ↦ rw q (inr refl)
    | inr (m, q) ↦ rw q (as_c_int-Safe sqlite_deny m w h)
  ]

  wal_result-Safe :
      (r : Option PyObject × World S)
      → KeepsExc none r
      → Safe (λ m. is_zero m ≡ false) (wal_result api r)
  unfolding KeepsExc wal_result on_int
  wal_result-Safe (none, w) h = inr refl
  wal_result-Safe (some v, w) h = elim (Option-cases (int_of v)) [
    | inl q ↦ rw q (inr refl)
    | inr (m, q) ↦ rw q (elim (as_c_int-Safe (negsuc 0) m w h) [
      | inl clean ↦ inl clean
      | inr code ↦ inr (ap is_zero code)
    ])
  ]

  by_exception-FailsSafe :
      {A : Type 0} (IsRefusal : A → Type 0) (x : Option Exn) (a : A) (w : World S) (r : A × World S)
      → IsRefusal a
      → (x ≡ none → Safe IsRefusal r)
      → FailsSafe IsRefusal (by_exception x (λ e. some (a, w)) (some r))
  unfolding by_exception
  by_exception-FailsSafe IsRefusal none a w r refuses safe = (r, refl, safe refl)
  by_exception-FailsSafe IsRefusal (some e) a w r refuses safe = ((a, w), refl, inr refuses)

  clean_call :
      (f : ℕ) (first : Option PyObject) (args : List Column) (w : World S)
      → w.exc ≡ none
      → KeepsExc none (call_hook api f first args w)
  clean_call f first args w q =
      subst (λ x. KeepsExc x (call_hook api f first args w)) q (call_hook-KeepsExc f first args w)

  -- Where an exception is left, by the hook, by its answer, by an argument or from before: a commit is
  -- turned into a rollback, a long statement is interrupted and the authorizer denies.
  pub exception_refuses :
      (x : HookFields) (w : World S) (f g a : ℕ) (operation : ℤ)
      (one two db trigger : Option (List ℕ))
      → x.commithook ≡ some f
      → x.progresshandler ≡ some g
      → x.authorizer ≡ some a
      → FailsSafe (λ n. n ≡ 1) (commithookcb api x w)
        × FailsSafe (λ n. n ≡ 1) (progresshandlercb api x w)
        × FailsSafe (λ n. n ≡ sqlite_deny) (authorizercb api x operation one two db trigger w)
  unfolding commithookcb progresshandlercb authorizercb
  exception_refuses x w f g a operation one two db trigger commits progresses authorizes = (
    rw commits
        (by_exception-FailsSafe _ _ _ w _ refl (λ q. truth_or-Safe 1 _ (clean_call f none [] w q))),
    rw progresses
        (by_exception-FailsSafe _ _ _ w _ refl (λ q. truth_or-Safe 1 _ (clean_call g none [] w q))),
    rw authorizes (
        by_exception-FailsSafe _ _ _ w _ refl
          (λ q. authorizer_result-Safe _ (clean_call a none _ w q))),
  )

  -- Where there is no exception before and one is left: the busy handler gives up, and the hook for
  -- the write-ahead log gives an error code.
  pub exception_gives_up :
      (h : Hooked) (w : World S) (f g : ℕ) (ncall npages : ℤ) (dbname : List ℕ)
      → h.fields.busyhandler ≡ some f
      → h.fields.walhook ≡ some g
      → w.exc ≡ none
      → FailsSafe (λ n. n ≡ 0) (busyhandlercb api h.fields ncall w)
        × FailsSafe (λ n. is_zero n ≡ false) (walhookcb api h dbname npages w)
  unfolding busyhandlercb walhookcb
  exception_gives_up h w f g ncall npages dbname busy wal q = (
    rw busy (_, refl, truth_or-Safe 0 _ (clean_call f none _ w q)),
    rw wal (_, refl, wal_result-Safe _ (clean_call g _ _ w q)),
  )

  -- A number that is no C `int` as the answer of the hook for automatic vacuums leaves an exception, and SQLite
  -- gets a number that is not less than that of the free pages, not zero: all free pages go.
  pub vacuum_overflow :
      (f : ℕ) (schema : List ℕ) (pages free size : ℕ) (w w' : World S) (n : ℤ)
      → call_hook api f none (vacuum_args schema pages free size) (record w { exc = none })
        ≡ (some (plain (int_value n)), w')
      → fits_int n ≡ false
      → free < 2 ^ 32
      → (free ≤ (autovacuum_pages_cb api f schema pages free size w).0)
        × (occurred (autovacuum_pages_cb api f schema pages free size w).1 ≡ true)
  unfolding autovacuum_pages_cb vacuum_result chain_before vacuum_number as_c_int on_int int_of
  vacuum_overflow f schema pages free size w w' n answer large small =
      rw (answer, large) (omega (arith, small), refl)
