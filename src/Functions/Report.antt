-- ===== src/Functions/Report.antt =====
-- The callbacks of a window function: they return, and no exception goes unreported (src/connection.c).
use mathlib.Core.Option
use mathlib.Core.Path.{subst}
use apsw.Prelude.{ℕ, ◌≡◌, refl, Option, none, some, List, [], ◌∷◌, true, arith}
use apsw.Functions.{Context, FunctionApi}
use apsw.Functions.Parts.{Window}
use apsw.Functions.Window.{
  get_window_function_context, cbw_step, cbw_inverse, cbw_value, cbw_final, WindowCall, step_call,
  inverse_call, value_call, final_call, window_call, window_calls, ends_with_final,
}
use apsw.Cursor.Execute.{Column}
use apsw.Errors.{Exn}
use apsw.Functions.Sound.{
  Live, Reported, Sound, SoundEnd, Sound-SoundEnd, Got, get-Got, failed-Sound, on_row-Sound,
  for_value-Sound, for_final-SoundEnd, by_exception-Sound,
}

module _ {S : Type 0} (api : FunctionApi S) (f : ℕ) where
  get-clean :
      (a : Window) (c : Context S)
      → Live a c.world.exc
      → c.world.exc ≡ none
      → Got none (get_window_function_context api f a c)
  get-clean a c h q =
      subst (λ x. Got x (get_window_function_context api f a c)) q (get-Got api f a c h)

  stopped :
      (a : Window) (c : Context S) (e : Exn)
      → Live a c.world.exc
      → c.world.exc ≡ some e
      → Live a (some e)
  stopped a c e h q = subst (Live a) q h

  cbw_step-Sound :
      (argv : List Column) (a : Window) (c : Context S)
      → Live a c.world.exc
      → Sound (cbw_step api f argv a c)
  unfolding cbw_step
  cbw_step-Sound argv a c h =
      by_exception-Sound api f _ _ _ (λ e q. failed-Sound api f a _ c e q (stopped a c e h q))
        (λ q. on_row-Sound api f _ _ argv _ (λ p. (p.step, refl)) (get-clean a c h q))

  cbw_inverse-Sound :
      (argv : List Column) (a : Window) (c : Context S)
      → Live a c.world.exc
      → Sound (cbw_inverse api f argv a c)
  unfolding cbw_inverse
  cbw_inverse-Sound argv a c h =
      by_exception-Sound api f _ _ _ (λ e q. failed-Sound api f a _ c e q (stopped a c e h q))
        (λ q. on_row-Sound api f _ _ argv _ (λ p. (p.inverse, refl)) (get-clean a c h q))

  cbw_value-Sound : (a : Window) (c : Context S) → Live a c.world.exc → Sound (cbw_value api f a c)
  unfolding cbw_value
  cbw_value-Sound a c h =
      by_exception-Sound api f _ _ _ (λ e q. failed-Sound api f a _ c e q (stopped a c e h q))
        (λ q. for_value-Sound api f _ _ (get-clean a c h q))

  then-SoundEnd :
      (r : Option (Window × Context S)) (rest : Window × Context S → Option (Window × Context S))
      → Sound r
      → ((s : Window × Context S) → Sound (some s) → SoundEnd (rest s))
      → SoundEnd (Option.bind r rest)
  unfolding Option.bind Sound
  then-SoundEnd none rest h go = elim h [ ]
  then-SoundEnd (some s) rest h go = go s h

  -- Whatever calls of step, inverse and value SQLite makes for a window, in any order, and then one of final
  -- or none, from a new context or one that holds the four functions, with or without memory for the context
  -- and whatever the functions of Python do: each callback returns and no assertion fails, none calls
  -- through a null pointer, the context holds all four functions or nothing, and where an exception is left
  -- the newest call on the context of the function reports an error to SQLite. An exception that is
  -- there at the start has been reported.
  pub window_calls-Sound :
      (calls : List WindowCall) (a : Window) (c : Context S)
      → ends_with_final calls ≡ true
      → Live a c.world.exc
      → Reported c.world.exc c.calls
      → SoundEnd (window_calls api f calls a c)
  unfolding window_calls window_call SoundEnd Sound
  window_calls-Sound [] a c last h r = Sound-SoundEnd (some (a, c)) (h, r)
  window_calls-Sound (final_call ∷ []) a c last h r =
      ended (cbw_final api f a c)
        (unfold cbw_final in for_final-SoundEnd api f _ _ _ (get-Got api f a c h))
    where
      ended :
          (x : Option (Window × Context S))
          → SoundEnd x
          → SoundEnd (Option.bind x (λ y. some (y.0, y.1)))
      ended none k = unfold Option.bind in k
      ended (some y) k = unfold Option.bind in k
  window_calls-Sound (final_call ∷ call ∷ calls) a c last h r = absurd (ground (arith, last))
  window_calls-Sound (step_call argv ∷ calls) a c last h r =
      then-SoundEnd (cbw_step api f argv a c) _ (cbw_step-Sound argv a c h)
        (λ s k. window_calls-Sound calls s.0 s.1 last k.0 k.1)
  window_calls-Sound (inverse_call argv ∷ calls) a c last h r =
      then-SoundEnd (cbw_inverse api f argv a c) _ (cbw_inverse-Sound argv a c h)
        (λ s k. window_calls-Sound calls s.0 s.1 last k.0 k.1)
  window_calls-Sound (value_call ∷ calls) a c last h r =
      then-SoundEnd (cbw_value api f a c) _ (cbw_value-Sound a c h)
        (λ s k. window_calls-Sound calls s.0 s.1 last k.0 k.1)
