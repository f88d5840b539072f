-- ===== src/Vtable/Told.antt =====
-- Parts of the callbacks of a virtual table: their code says whether there is an exception
-- (src/vtable.c).
use apsw.Prelude.{
  ℕ, ◌<◌, ◌≡◌, refl, ap, ◌∙◌, Bool, true, false, Option, none, some, List, [], ◌∷◌, ◌++◌, ◌⊎◌, inl,
  inr, ◌&&◌, ◌||◌, ◌==◌, is_some, arith, Bool-cases, Option-cases, sum_cases,
}
use apsw.Prelude.Int.{ℤ}
use apsw.Errors.{Exn, make_sqlite_msg_from_py_exception}
use apsw.Errors.RoundTrip.{make_sqlite_msg_pos}
use apsw.Vfs.File.{sqlite_msg}
use apsw.World.{World, occurred, raise, write_unraisable}
use apsw.Vfs.Report.{sqlite_msg_pos}
use apsw.Cursor.Binding.{fits_int64}
use apsw.Cursor.Execute.{Column, column_integer}
use apsw.Functions.{PyObject, Context, by_exception, convert_all, given_args}
use apsw.Hooks.Answers.{set_world_exc, answered}
use apsw.Hooks.Callbacks.{text_or_null}
use apsw.Vtable.{
  Name, VtableApi, VtableCursor, code_of, fail_with, chain_code, call_method, call_optional, opened,
  end_table, destroy, disconnect, x_destroy, x_disconnect, x_filter, column_code, column_result,
  close_code, rowid_number, rowid_result, x_rename,
}

-- Success and no exception, or the code of an error and an exception.
abbrev pub Tells : {S : Type 0} → ℕ → World S → Type 0
Tells code w = ((code ≡ 0) × (w.exc ≡ none)) ⊎ ((0 < code) × (occurred w ≡ true))

-- The end of a table, with the exceptions that the hook got before it: no exception is left, the
-- table is freed on success or `always`, and the hook gets the exception that the code is of.
abbrev pub Ends : {S : Type 0} → Bool → List Exn → ℕ × Bool × World S → Type 0
Ends always before (code, freed, w) =
    (w.exc ≡ none)
    × (freed ≡ (code == 0 || always))
    × (((code ≡ 0) × (w.unraised ≡ before))
        ⊎ ((e : Exn) × (0 < code)
            × (code ≡ make_sqlite_msg_from_py_exception e)
            × (w.unraised ≡ e ∷ before)))

-- What a call leaves: an object and no exception, or an exception.
unfoldable pub Told : {S : Type 0} → Option PyObject × World S → Type 0
Told (some v, w) = w.exc ≡ none
Told (none, w) = occurred w ≡ true

pub under_clean :
    {A : Type 0} (P : A → Type 0) (x : Option Exn) (f : Exn → A) (a : A)
    → x ≡ none
    → P a
    → P (by_exception x f a)
unfolding by_exception
under_clean P x f a q h = rw q h

raised_stays : (a b : Option Exn) → is_some a ≡ true → is_some (raise a b) ≡ true
raised_stays none b h = absurd (ground (arith, h))
raised_stays (some e) b h = refl

module _ {S : Type 0} where
  -- The code and the world of a callback.
  abbrev pub TellsOf : ℕ × World S → Type 0
  TellsOf r = Tells r.0 r.1

  pub fail_with-Tells : (w : World S) → occurred w ≡ true → Tells (fail_with w).0 (fail_with w).1
  unfolding fail_with
  fail_with-Tells w h = inr (sqlite_msg_pos w, h)

  pub code_of-Tells : (r : Option PyObject × World S) → Told r → Tells (code_of r).0 (code_of r).1
  unfolding Told code_of
  code_of-Tells (some v, w) h = inl (refl, h)
  code_of-Tells (none, w) h = inr (sqlite_msg_pos w, h)

  pub answered-Told : (r : (PyObject ⊎ Exn) × S) (w : World S) → w.exc ≡ none → Told (answered r w)
  unfolding Told answered
  answered-Told (inl v, d) w q = q
  answered-Told (inr e, d) w q = refl

  pub chain_code-Tells :
      (x : Option Exn) (r : ℕ × World S)
      → x ≡ none
      → Tells r.0 r.1
      → Tells (chain_code x r).0 (chain_code x r).1
  unfolding chain_code
  chain_code-Tells x (res, w) q (inl (zero, cleared)) = inl (zero, ap (λ e. raise e x) cleared ∙ q)
  chain_code-Tells x (res, w) q (inr (error, left)) = inr (error, raised_stays w.exc x left)

module _ {S : Type 0} (api : VtableApi S) where
  ended-Ends :
      (name : Name) (always : Bool) (r : (PyObject ⊎ Exn) × S) (x : Option Exn) (w : World S)
      → x ≡ none
      → w.exc ≡ none
      → Ends always w.unraised (end_table api name always (chain_code x (code_of (answered r w))))
  unfolding end_table chain_code code_of answered write_unraisable sqlite_msg
  ended-Ends name always (inl v, d) x w q clean = rw (q, clean) (refl, refl, inl (refl, refl))
  ended-Ends name always (inr e, d) x w q clean =
      (refl, refl, inr (e, make_sqlite_msg_pos e, refl, refl))

  absent-Ends :
      (name : Name) (always : Bool) (x : Option Exn) (w : World S)
      → x ≡ none
      → w.exc ≡ none
      → Ends always w.unraised (end_table api name always (chain_code x (0, w)))
  unfolding end_table chain_code
  absent-Ends name always x w q clean = rw (q, clean) (refl, refl, inl (refl, refl))

  pub x_destroy-Ends :
      (table : PyObject) (w : World S)
      → w.exc ≡ none
      → Ends false w.unraised (x_destroy api table w)
  unfolding x_destroy call_method
  x_destroy-Ends table w q =
      ended-Ends destroy false (api.method w.db table destroy []) w.exc (record w { exc = none }) q
        refl

  pub x_disconnect-Ends :
      (table : PyObject) (w : World S)
      → w.exc ≡ none
      → Ends true w.unraised (x_disconnect api table w)
  unfolding x_disconnect call_optional call_method
  x_disconnect-Ends table w q = elim (Bool-cases (api.has_method w.db table disconnect)) [
    | inl h ↦ rw h (
        ended-Ends disconnect true (api.method w.db table disconnect []) w.exc
          (record w { exc = none }) q refl)
    | inr h ↦ rw h (absent-Ends disconnect true w.exc (record w { exc = none }) q refl)
  ]

  pub call_method-Told :
      (o : PyObject) (name : Name) (vargs : List PyObject) (w : World S)
      → w.exc ≡ none
      → Told (call_method api o name vargs w)
  unfolding call_method
  call_method-Told o name vargs w q = answered-Told (api.method w.db o name vargs) w q

  pub call_optional-Tells :
      (o : PyObject) (name : Name) (vargs : List PyObject) (w : World S)
      → w.exc ≡ none
      → Tells (call_optional api o name vargs w).0 (call_optional api o name vargs w).1
  unfolding call_optional
  call_optional-Tells o name vargs w q = elim (Bool-cases (api.has_method w.db o name)) [
    | inl h ↦ rw h (code_of-Tells _ (call_method-Told o name vargs w q))
    | inr h ↦ rw h (inl (refl, q))
  ]

  -- Arguments that are converted, and what is done with them.
  pub given-Tells :
      (args : List Column) (w : World S) (go : List PyObject → ℕ × World S)
      → ((vargs : List PyObject) → Tells (go vargs).0 (go vargs).1)
      → Tells
          (given_args (convert_all api.functions args) (λ e. fail_with (set_world_exc e w)) go).0
          (given_args (convert_all api.functions args) (λ e. fail_with (set_world_exc e w)) go).1
  unfolding given_args
  given-Tells args w go h = elim (sum_cases (convert_all api.functions args)) [
    | inr (e, bad) ↦ rw bad (fail_with-Tells _ refl)
    | inl (vargs, good) ↦ rw good (h vargs)
  ]

  pub x_filter-Tells :
      (c : VtableCursor) (n : ℤ) (str : Option (List ℕ)) (argv : List Column) (w : World S)
      → w.exc ≡ none
      → Tells (x_filter api c n str argv w).0 (x_filter api c n str argv w).1
  unfolding x_filter
  x_filter-Tells c n str argv w q = under_clean TellsOf _ _ _ q (
      given-Tells argv w _ (λ values.
        given-Tells (column_integer n ∷ text_or_null str ∷ []) w _
          (λ index. code_of-Tells _ (call_method-Told c.cursor _ (index ++ values) w q))))

  pub opened-Tells :
      (nc : Bool) (r : Option PyObject × World S)
      → Told r
      → Tells (opened api nc r).0 (opened api nc r).2
  unfolding opened Told
  opened-Tells nc (some o, w) h = inl (refl, h)
  opened-Tells nc (none, w) h = inr (sqlite_msg_pos w, h)

  pub close_code-Tells :
      (x : Option Exn) (r : Option PyObject × World S)
      → x ≡ none
      → Told r
      → TellsOf (close_code api x r)
  unfolding close_code Told
  close_code-Tells x (some v, w) q h = code_of-Tells _ (ap (λ e. raise e x) h ∙ q)
  close_code-Tells x (none, w) q h = code_of-Tells _ (raised_stays w.exc x h)

  pub rowid_number-Tells :
      (r : (ℤ ⊎ Exn) × S) (w : World S)
      → w.exc ≡ none
      → Tells (rowid_number api r w).0 (rowid_number api r w).2
  unfolding rowid_number
  rowid_number-Tells (inr e, d) w q = inr (sqlite_msg_pos _, refl)
  rowid_number-Tells (inl n, d) w q = elim (Bool-cases (fits_int64 n)) [
    | inl h ↦ rw h (inl (refl, q))
    | inr h ↦ rw h (inr (sqlite_msg_pos _, refl))
  ]

  pub rowid_result-Tells :
      (r : Option PyObject × World S) → Told r → Tells (rowid_result api r).0 (rowid_result api r).2
  unfolding rowid_result Told
  rowid_result-Tells (some v, w) h = rowid_number-Tells (api.number_long w.db v) w h
  rowid_result-Tells (none, w) h = inr (sqlite_msg_pos w, h)

  pub column_code-Tells : (c : Context S) → Tells (column_code api c).0 (column_code api c).1.world
  unfolding column_code by_exception
  column_code-Tells c = elim (Option-cases c.world.exc) [
    | inl q ↦ rw q (inl (refl, refl))
    | inr (e, q) ↦ rw q (inr (sqlite_msg_pos _, refl))
  ]

  pub column_result-Tells :
      (nc : Bool) (r : Option PyObject × World S) (c : Context S)
      → Told r
      → Tells (column_result api nc r c).0 (column_result api nc r c).1.world
  unfolding column_result Told
  column_result-Tells nc (none, w) c h = inr (sqlite_msg_pos w, h)
  column_result-Tells nc (some v, w) c h = elim (Bool-cases (nc && api.is_no_change v)) [
    | inl q ↦ rw q (column_code-Tells _)
    | inr q ↦ rw q (column_code-Tells _)
  ]

  pub x_rename-Tells :
      (o : PyObject) (name : Option (List ℕ)) (w : World S)
      → w.exc ≡ none
      → TellsOf (x_rename api o name w)
  unfolding x_rename
  x_rename-Tells o name w q =
      under_clean TellsOf _ _ _ q (elim (Bool-cases (api.has_method w.db o Name.rename)) [
        | inl h ↦ rw h (
            given-Tells (text_or_null name ∷ []) w _
              (λ vargs. code_of-Tells _ (call_method-Told o _ vargs w q)))
        | inr h ↦ rw h (inl (refl, q))
      ])
