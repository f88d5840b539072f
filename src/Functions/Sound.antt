-- ===== src/Functions/Sound.antt =====
-- The parts of the callbacks of a window function: what each leaves of the context, and that it reports
-- an exception (src/connection.c).
use mathlib.Core.Option
use apsw.Prelude.{
  ℕ, ◌≡◌, refl, ap, ◌∙◌, Bool, true, false, Option, none, some, List, [], ◌∷◌, ◌⊎◌, inl, inr,
  Bool-cases, if◌then◌else◌, arith, sum_cases,
}
use Prim.Native.String.{String}
use apsw.Errors.{Exn}
use apsw.World.{World, raise}
use apsw.Cursor.{
  none_value, int_value, float_value, str_value, buffer_value, zeroblob_value, other_value,
}
use apsw.Cursor.Binding.{fits_int64}
use apsw.Cursor.Execute.{Column}
use apsw.Functions.{
  PyObject, plain, object, ResultCall, result_error, Context, Made, FunctionApi, set_context_result,
  unsupported, convert_all, with_args, given_args, call_python, python_result, by_exception,
  set_exception,
}
use apsw.Functions.Parts.{
  wfc_uninit, wfc_ok, wfc_error, Window, empty, WindowParts, holding, window_parts_of,
}
use apsw.Functions.Window.{
  failed, no_result, chained, asserted, keep_window, store_window, get_wrapped,
  get_window_function_context, on_row, checked_result, give_result, for_value, for_final,
}

-- The contexts that the callbacks leave and find.
pub data IsConsistent : Window → Type 0 where
  consistent_uninit : IsConsistent (empty wfc_uninit)
  consistent_error : IsConsistent (empty wfc_error)
  consistent_ok : (p : WindowParts) → IsConsistent (holding p)

pub data IsError : ResultCall → Type 0 where
  is_error : (msg : Option String) → IsError (result_error msg)

-- An exception is reported: the newest call on the context is an error.
unfoldable pub Reported : Option Exn → List ResultCall → Type 0
Reported none k = Unit
Reported (some e) [] = ⊥
Reported (some e) (r ∷ k) = IsError r

-- The context between the calls, and the exception: an error was raised, and stays.
pub data Live : Window → Option Exn → Type 0 where
  live_uninit : (x : Option Exn) → Live (empty wfc_uninit) x
  live_error : (e : Exn) → Live (empty wfc_error) (some e)
  live_ok : (p : WindowParts) (x : Option Exn) → Live (holding p) x

-- What a callback leaves: a live context, and an exception only with a report of it.
unfoldable pub Sound : {S : Type 0} → Option (Window × Context S) → Type 0
Sound none = ⊥
Sound (some (a, c)) = Live a c.world.exc × Reported c.world.exc c.calls

-- What the last call leaves.
unfoldable pub SoundEnd : {S : Type 0} → Option (Window × Context S) → Type 0
SoundEnd none = ⊥
SoundEnd (some (a, c)) = IsConsistent a × Reported c.world.exc c.calls

Live-IsConsistent : (a : Window) (x : Option Exn) → Live a x → IsConsistent a
Live-IsConsistent a _ (live_uninit x) = consistent_uninit
Live-IsConsistent a _ (live_error e) = consistent_error
Live-IsConsistent a _ (live_ok p x) = consistent_ok p

pub Sound-SoundEnd : {S : Type 0} → (r : Option (Window × Context S)) → Sound r → SoundEnd r
unfolding Sound SoundEnd
Sound-SoundEnd none h = h
Sound-SoundEnd (some (a, c)) h = (Live-IsConsistent a c.world.exc h.0, h.1)

-- What asking for the context leaves of it, and of the exception: no failed assertion.
pub Got : {S : Type 0} → Option Exn → Option (Bool × Window × Context S) → Type 0
Got x none = ⊥
Got x (some (true, a, c)) = ((p : WindowParts) × (a ≡ holding p)) × (c.world.exc ≡ x)
Got x (some (false, a, c)) = (e : Exn) × (c.world.exc ≡ some e) × Live a (some e)

module _ {S : Type 0} (api : FunctionApi S) (f : ℕ) where
  abbrev Kept : Option Exn → Bool × Window × Context S → Type 0
  Kept x g = Got x (asserted (chained x g))

  missing-Kept :
      (x : Option Exn) (e : Exn) (a : Window) (c : Context S)
      → raise c.world.exc x ≡ some e
      → Live a (some e)
      → Kept x (false, a, c)
  unfolding Got chained asserted
  missing-Kept x e a c q h = rw q (e, refl, h)

  there-Kept :
      (x : Option Exn) (p : WindowParts) (c : Context S)
      → c.world.exc ≡ none
      → Kept x (true, holding p, c)
  unfolding Got chained asserted
  there-Kept x p c q = ((p, refl), ap (λ e. raise e x) q)

  keep_window-Kept :
      (x : Option Exn) (r : WindowParts ⊎ Exn) (d : S) (c : Context S)
      → c.world.exc ≡ none
      → Kept x (keep_window api r d c)
  unfolding keep_window
  keep_window-Kept x (inl p) d c q = there-Kept x p _ q
  keep_window-Kept x (inr e) d c q = missing-Kept x e _ _ refl (live_error e)

  store_window-Kept :
      (x : Option Exn) (r : (Made ⊎ Exn) × S) (c : Context S)
      → c.world.exc ≡ none
      → Kept x (store_window api r c)
  unfolding store_window
  store_window-Kept x (inr e, d) c q = keep_window-Kept x (inr e) d c q
  store_window-Kept x (inl m, d) c q = keep_window-Kept x (window_parts_of m) d c q

  any-Live : (a : Window) (x : Option Exn) (e : Exn) → Live a x → Live a (some e)
  any-Live a _ e (live_uninit x) = live_uninit (some e)
  any-Live a _ e (live_error e') = live_error e
  any-Live a _ e (live_ok p x) = live_ok p (some e)

  get_wrapped-Kept :
      (a : Window) (x : Option Exn)
      → Live a x
      → (c : Context S) → c.world.exc ≡ none
      → Kept x (get_wrapped api f a c)
  unfolding get_wrapped
  get_wrapped-Kept a x h c q = elim (Bool-cases (api.aggregate_memory c.world.db)) [
    | inr m ↦ rw m (
        missing-Kept x api.memory_error a (set_exception api.memory_error c) refl
          (any-Live a x api.memory_error h))
    | inl m ↦ rw m (by_state h)
  ]
    where
      by_state :
          {a : Window} {x : Option Exn}
          → Live a x
          → Kept x (elim a.state as (λ _. Bool × Window × Context S) [
            | wfc_ok ↦ (true, a, c)
            | wfc_error ↦ (false, a, c)
            | wfc_uninit ↦ store_window api (api.factory c.world.db f) c
          ])
      by_state (live_uninit x) = store_window-Kept x (api.factory c.world.db f) c q
      by_state (live_error e) =
          missing-Kept (some e) e (empty wfc_error) c (ap (λ z. raise z (some e)) q) (live_error e)
      by_state (live_ok p x) = there-Kept x p c q

  pub get-Got :
      (a : Window) (c : Context S)
      → Live a c.world.exc
      → Got c.world.exc (get_window_function_context api f a c)
  unfolding get_window_function_context
  get-Got a c h = get_wrapped-Kept a c.world.exc h _ refl

  pub failed-Sound :
      (a : Window) (msg : String) (c : Context S) (e : Exn)
      → c.world.exc ≡ some e
      → Live a (some e)
      → Sound (failed msg a c)
  unfolding Sound failed Reported
  failed-Sound a msg c e q h = rw q (h, is_error _)

  none-Reported : (x : Option Exn) (k : List ResultCall) → x ≡ none → Reported x k
  unfolding Reported
  none-Reported x k q = rw q tt

  no_result-Sound :
      (p : WindowParts) (msg : String) (r : (PyObject ⊎ Exn) × S) (c : Context S)
      → c.world.exc ≡ none
      → Sound (no_result msg (holding p) (python_result api r c))
  unfolding Sound no_result python_result
  no_result-Sound p msg (inl v, d) c q = (live_ok p _, none-Reported _ _ q)
  no_result-Sound p msg (inr e, d) c q = failed-Sound (holding p) msg _ e refl (live_ok p _)

  pub on_row-Sound :
      (msg : String) (func : Window → Option ℕ) (argv : List Column)
      (g : Option (Bool × Window × Context S))
      → ((p : WindowParts) → (n : ℕ) × (func (holding p) ≡ some n))
      → Got none g
      → Sound (Option.bind g (on_row api msg func argv))
  unfolding Got on_row with_args given_args call_python Option.bind Sound
  on_row-Sound msg func argv none there h = h
  on_row-Sound msg func argv (some (false, a, c)) there (e, q, live) = failed-Sound a msg c e q live
  on_row-Sound msg func argv (some (true, a, c)) there ((p, is_ok), q) =
      rw is_ok (elim (sum_cases (convert_all api argv)) [
        | inr (e, bad) ↦ rw bad (failed-Sound _ msg _ e refl (live_ok p _))
        | inl (vargs, good) ↦
            rw (good, (there p).1) (no_result-Sound p msg (api.vectorcall _ _ _) c q)
      ])

  abbrev pick : Bool → Context S → Context S → Bool × Context S
  pick b c c' = if b then (true, c) else (false, c')

  -- Of a choice that succeeds, the first branch.
  chosen :
      (b : Bool) (c c' : Context S) (w : World S)
      → c.world ≡ w
      → (pick b c c').0 ≡ true
      → (pick b c c').1.world ≡ w
  chosen true c c' w q h = q
  chosen false c c' w q h = absurd (ground (arith, h))

  -- A result that is set leaves the world alone.
  set_context_result-world :
      (v : PyObject) (c : Context S)
      → (set_context_result api v c).0 ≡ true
      → (set_context_result api v c).1.world ≡ c.world
  unfolding set_context_result unsupported
  set_context_result-world (plain none_value) c h = refl
  set_context_result-world (plain (int_value n)) c h = chosen (fits_int64 n) _ _ _ refl h
  set_context_result-world (plain (float_value d)) c h = refl
  set_context_result-world (plain (str_value (some t))) c h = refl
  set_context_result-world (plain (str_value none)) c h = absurd (ground (arith, h))
  set_context_result-world (plain (buffer_value (some b))) c h = refl
  set_context_result-world (plain (buffer_value none)) c h = absurd (ground (arith, h))
  set_context_result-world (plain (zeroblob_value n)) c h = refl
  set_context_result-world (plain other_value) c h = absurd (ground (arith, h))
  set_context_result-world (object o) c h = absurd (ground (arith, h))

  -- A result that is not set leaves an exception.
  set_context_result-raised :
      (v : PyObject) (c : Context S)
      → (set_context_result api v c).0 ≡ false
      → (e : Exn) × ((set_context_result api v c).1.world.exc ≡ some e)
  unfolding set_context_result unsupported
  set_context_result-raised (plain none_value) c h = absurd (ground (arith, h))
  set_context_result-raised (plain (int_value n)) c h = elim (Bool-cases (fits_int64 n)) [
    | inl e ↦ absurd (ground (arith, h, e))
    | inr e ↦ rw e (api.int_error, refl)
  ]
  set_context_result-raised (plain (float_value d)) c h = absurd (ground (arith, h))
  set_context_result-raised (plain (str_value (some t))) c h = absurd (ground (arith, h))
  set_context_result-raised (plain (str_value none)) c h = (api.str_error, refl)
  set_context_result-raised (plain (buffer_value (some b))) c h = absurd (ground (arith, h))
  set_context_result-raised (plain (buffer_value none)) c h = (api.buffer_error, refl)
  set_context_result-raised (plain (zeroblob_value n)) c h = absurd (ground (arith, h))
  set_context_result-raised (plain other_value) c h = (_, refl)
  set_context_result-raised (object o) c h = (_, refl)

  -- What holds of a result that is set, and of the label `error`, holds of the end of a callback.
  give_result-keeps :
      (P : Option (Window × Context S) → Type 0) (a : Window) (msg : String)
      (r : (PyObject ⊎ Exn) × S) (c : Context S)
      → c.world.exc ≡ none
      → ((c' : Context S) → c'.world.exc ≡ none → P (some (a, c')))
      → ((c' : Context S) (e : Exn) → c'.world.exc ≡ some e → P (failed msg a c'))
      → P (give_result api msg a (python_result api r c))
  unfolding give_result python_result
  give_result-keeps P a msg (inr e, d) c q good bad = bad _ e refl
  give_result-keeps P a msg (inl v, d) c q good bad =
      checked (set_context_result api v _)
        (λ ok. ap World.exc (set_context_result-world v _ ok) ∙ q) (set_context_result-raised v _)
    where
      checked :
          (r : Bool × Context S)
          → (r.0 ≡ true → r.1.world.exc ≡ none)
          → (r.0 ≡ false → (e : Exn) × (r.1.world.exc ≡ some e))
          → P (checked_result msg a r)
      checked (true, c') h k = unfold checked_result in good c' (h refl)
      checked (false, c') h k = unfold checked_result in bad c' (k refl).0 (k refl).1

  pub for_value-Sound :
      (msg : String) (g : Option (Bool × Window × Context S))
      → Got none g
      → Sound (Option.bind g (for_value api msg))
  unfolding Got for_value call_python Option.bind Sound
  for_value-Sound msg none h = h
  for_value-Sound msg (some (false, a, c)) (e, q, live) = failed-Sound a msg c e q live
  for_value-Sound msg (some (true, a, c)) ((p, is_ok), q) = rw is_ok (
      give_result-keeps Sound (holding p) msg (api.vectorcall _ _ _) c q
        (λ c' clean. (live_ok p _, none-Reported _ _ clean))
        (λ c' e left. failed-Sound (holding p) msg c' e left (live_ok p _)))

  pub by_exception-Sound :
      (x : Option Exn) (r : Exn → Option (Window × Context S)) (r' : Option (Window × Context S))
      → ((e : Exn) → x ≡ some e → Sound (r e))
      → (x ≡ none → Sound r')
      → Sound (by_exception x r r')
  unfolding by_exception
  by_exception-Sound none r r' h h' = h' refl
  by_exception-Sound (some e) r r' h h' = h e refl

  failed-SoundEnd :
      (msg : String) (c : Context S) (e : Exn)
      → c.world.exc ≡ some e
      → SoundEnd (failed msg (empty wfc_error) c)
  failed-SoundEnd msg c e q =
      Sound-SoundEnd _ (failed-Sound (empty wfc_error) msg c e q (live_error e))

  by_exception-SoundEnd :
      (x : Option Exn) (r : Exn → Option (Window × Context S)) (r' : Option (Window × Context S))
      → ((e : Exn) → x ≡ some e → SoundEnd (r e))
      → (x ≡ none → SoundEnd r')
      → SoundEnd (by_exception x r r')
  unfolding by_exception
  by_exception-SoundEnd none r r' h h' = h' refl
  by_exception-SoundEnd (some e) r r' h h' = h e refl

  pub for_final-SoundEnd :
      (x : Option Exn) (msg : String) (g : Option (Bool × Window × Context S))
      → Got x g
      → SoundEnd (Option.bind g (for_final api msg))
  unfolding Got for_final call_python Option.bind SoundEnd
  for_final-SoundEnd x msg none h = h
  for_final-SoundEnd x msg (some (false, a, c)) (e, q, live) =
      Sound-SoundEnd _ (failed-Sound a msg c e q live)
  for_final-SoundEnd x msg (some (true, a, c)) ((p, is_ok), q) = rw is_ok (
      by_exception-SoundEnd _ _ _ (λ e left. failed-SoundEnd msg c e left)
        (λ clean.
          give_result-keeps SoundEnd (empty wfc_error) msg (api.vectorcall _ _ _) c clean
            (λ c' quiet. (consistent_error, none-Reported _ _ quiet))
            (λ c' e left. failed-SoundEnd msg c' e left)))
