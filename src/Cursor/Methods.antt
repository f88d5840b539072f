-- ===== src/Cursor/Methods.antt =====
-- `execute` and `executemany` leave the cursor coherent (src/cursor.c).
use apsw.Prelude.{
  ℕ, ◌≡◌, refl, ap, ◌∙◌, Bool, true, false, Option, none, some, ◌==◌, if◌then◌else◌, ◌&&◌, not,
  is_some, arith,
}
use apsw.Prelude.Int.{pos}
use apsw.Errors.{sqlite_ok}
use apsw.World.{World, occurred, raise}
use apsw.StatementCache.{Statement, StatementCache, Options}
use apsw.StatementCache.Prepare
use apsw.Cursor.{Cursor, Bindings, c_done, is_done, reset_fields}
use apsw.Cursor.Step.{
  Outcome, returned, cache_fault, null_fault, Round, stop, again, round_fault, round_null, run_new,
  step,
}
use apsw.Cursor.Execute.{
  RowApi, on_open, run_first, execute_new, execute, many_item, many_iter, executemany,
}
use apsw.Cursor.Coherent.{
  HandsOff, Queried, Coherent, RoundSafe, Safe, Stepped-Safe, done-Coherent, run_new-RoundSafe,
  resetcursor-Resets, reset_done, Resets,
}
use apsw.Cursor.Rounds.{step-Stepped}

pub if-keeps {ℓ} :
    {A : Type ℓ} (P : A → Type 0) (b : Bool) (x y : A) → P x → P y → P (if b then x else y)
if-keeps P true x y h k = h
if-keeps P false x y h k = k

pub if-Safe :
    {S A : Type 0} (b : Bool) (x y : Outcome S A) → Safe x → Safe y → Safe (if b then x else y)
if-Safe b x y h k = if-keeps Safe b x y h k

module _ {S : Type 0} (api : RowApi S) where
  -- What holds of a refusal and of the rest of a method holds of the method.
  pub on_open-keeps {ℓ} :
      {A : Type ℓ} (P : A → Type 0) (refuse : World S → A) (con : Option ℕ) (c : Cursor)
      (w : World S) (rest : A)
      → ((w' : World S) → P (refuse w'))
      → P rest
      → P (on_open api refuse con c w rest)
  unfolding on_open
  on_open-keeps P refuse none c w rest h k = if-keeps P c.inuse _ _ (h _) (h _)
  on_open-keeps P refuse (some con) c w rest h k =
      if-keeps P c.inuse _ _ (h _) (if-keeps P (not (w.conns con).open_db) _ _ (h _) k)

  pub on_open-Safe :
      {A : Type 0} (con : Option ℕ) (c : Cursor) (sc : StatementCache) (w : World S)
      (r : Outcome S A)
      → Coherent c
      → Safe r
      → Safe (on_open api (returned none c sc) con c w r)
  on_open-Safe con c sc w r h safe =
      on_open-keeps Safe (returned none c sc) con c w r (λ w'. h) safe

  run_first-Safe :
      (off : HandsOff api.exec) (fuel : ℕ) (s : Option Statement) (c : Cursor) (sc : StatementCache)
      (w : World S)
      → Queried c
      → c.status ≡ c_done
      → Safe (run_first api fuel s c sc w)
  unfolding run_first
  run_first-Safe off fuel none c sc w q done = done-Coherent api.exec c (ground (arith, done))
  run_first-Safe off fuel (some s) c sc w q done = go (run_new api.exec false s _ sc w) (
      run_new-RoundSafe api.exec off false s
        (record c { statement = some s; bindingsoffset = pos 0 }) sc w q done refl)
    where
      go :
          (r : Round S)
          → RoundSafe api.exec r
          → Safe (elim r as (λ _. Outcome S (Unit {0})) [
            | stop value c' sc' w' ↦ returned value c' sc' w'
            | again c' sc' w' ↦ step api.exec fuel c' sc' w'
            | round_fault ↦ cache_fault
            | round_null ↦ null_fault
          ])
      go (stop none c' sc' w') h = h
      go (stop (some v) c' sc' w') h = h.0
      go (again c' sc' w') h = Stepped-Safe _ (step-Stepped api.exec off fuel c' sc' w' h.0 h.1)
      go round_fault h = tt
      go round_null h = h

  execute_new-Safe :
      (off : HandsOff api.exec) (fuel : ℕ) (c : Cursor) (sc : StatementCache) (query : ℕ)
      (b : Option Bindings) (options : Options) (w : World S)
      → Queried c
      → c.status ≡ c_done
      → Safe (execute_new api fuel c sc query b options w)
  unfolding execute_new
  execute_new-Safe off fuel c sc query none options w q done =
      done-Coherent api.exec c (ground (arith, done))
  execute_new-Safe off fuel c sc query (some b) options w q done =
      go (Prepare.prepare api.exec.cursor.stmt sc query options w)
    where
      go :
          (r : Option (Option Statement × StatementCache × World S))
          → Safe (elim r as (λ _. Outcome S (Unit {0})) [
            | none ↦ cache_fault
            | some x ↦ run_first api fuel x.0 (record c { bindings = b }) x.1 x.2
          ])
      go none = tt
      go (some (s, sc', w')) = run_first-Safe off fuel s (record c { bindings = b }) sc' w' q done

  reset-Queried : (c x : Cursor) → x ≡ reset_fields api.exec.cursor c → Queried x
  unfolding reset_fields
  reset-Queried c x e there = absurd (ground (arith, there, ap (λ y. is_some y.emiter) e))

  -- After a reset the cursor is done, and there is no iterator.
  after_reset :
      (c : Cursor) (r : Option (ℕ × Cursor × StatementCache × World S))
      (rest : ℕ × Cursor × StatementCache × World S → Outcome S (Unit {0}))
      → Resets api.exec c r
      → ((x : ℕ × Cursor × StatementCache × World S)
          → Queried x.1
          → x.1.status ≡ c_done
          → Safe (rest x))
      → Safe (elim r as (λ _. Outcome S (Unit {0})) [
        | none ↦ cache_fault
        | some x ↦ if not (x.0 == sqlite_ok) then returned none x.1 x.2 x.3 else rest x
      ])
  after_reset c none rest h safe = tt
  after_reset c (some (res, c', sc', w')) rest h safe =
      if-Safe (not (res == sqlite_ok)) _ _
        (done-Coherent api.exec c'
          (ap (λ x. is_done x.status) h ∙ ap is_done (reset_done api.exec c)))
        (safe (res, c', sc', w') (reset-Queried c c' h)
          (ap (λ x. x.status) h ∙ reset_done api.exec c))

  pub execute-Safe :
      (off : HandsOff api.exec) (fuel : ℕ) (c : Cursor) (sc : StatementCache) (query : ℕ)
      (b : Option Bindings) (options : Options) (w : World S)
      → Coherent c
      → Safe (execute api fuel c sc query b options w)
  unfolding execute
  execute-Safe off fuel c sc query b options w h = on_open-Safe c.connection c sc w _ h (
      after_reset c _ _ (resetcursor-Resets api.exec c false sc w)
        (λ x q done. execute_new-Safe off fuel x.1 x.2 query b options x.3 q done))

  many_item-Safe :
      (off : HandsOff api.exec) (fuel : ℕ) (c : Cursor) (sc : StatementCache) (query : ℕ)
      (item : Option ℕ) (options : Options) (w : World S)
      → c.status ≡ c_done
      → Safe (many_item api fuel c sc query item options w)
  unfolding many_item
  many_item-Safe off fuel c sc query none options w done =
      done-Coherent api.exec c (ground (arith, done))
  many_item-Safe off fuel c sc query (some x) options w done = bound (api.exec.as_bindings w.db x)
    where
      first :
          (b : Bindings) (s : Option Statement) (sc' : StatementCache) (w' : World S)
          → Safe (
              run_first api fuel s
                (if is_some s
                  then record c { bindings = b; emoptions = options; emoriginalquery = some query }
                  else record c { bindings = b; emoptions = options })
                sc'
                w')
      first b none sc' w' = unfold run_first in done-Coherent api.exec _ (ground (arith, done))
      first b (some s) sc' w' = run_first-Safe off fuel (some s) _ sc' w' (λ there. refl) done

      prepared :
          (b : Bindings) (r : Option (Option Statement × StatementCache × World S))
          → Safe (elim r as (λ _. Outcome S (Unit {0})) [
            | none ↦ cache_fault
            | some y ↦
                run_first api fuel y.0
                  (if is_some y.0
                    then record c {
                      bindings = b;
                      emoptions = options;
                      emoriginalquery = some query;
                    }
                    else record c { bindings = b; emoptions = options })
                  y.1
                  y.2
          ])
      prepared b none = tt
      prepared b (some (s, sc', w')) = first b s sc' w'

      bound :
          (b : Option Bindings)
          → Safe (elim b as (λ _. Outcome S (Unit {0})) [
            | none ↦ returned none c sc (record w { exc = some api.exec.sequence_error })
            | some y ↦
                elim (Prepare.prepare api.exec.cursor.stmt sc query options w)
                  as (λ _. Outcome S (Unit {0})) [
                    | none ↦ cache_fault
                    | some r ↦
                        run_first api fuel r.0
                          (if is_some r.0
                            then record c {
                              bindings = y;
                              emoptions = options;
                              emoriginalquery = some query;
                            }
                            else record c { bindings = y; emoptions = options })
                          r.1
                          r.2
                  ]
          ])
      bound none = done-Coherent api.exec c (ground (arith, done))
      bound (some b) = prepared b (Prepare.prepare api.exec.cursor.stmt sc query options w)

  many_iter-Safe :
      (off : HandsOff api.exec) (fuel : ℕ) (c : Cursor) (sc : StatementCache) (query : ℕ)
      (iter : Option ℕ) (options : Options) (w : World S)
      → c.status ≡ c_done
      → Safe (many_iter api fuel c sc query iter options w)
  unfolding many_iter
  many_iter-Safe off fuel c sc query none options w done =
      done-Coherent api.exec c (ground (arith, done))
  many_iter-Safe off fuel c sc query (some i) options w done =
      if-Safe
        (not (is_some (api.exec.cursor.iter_next w.db i).0)
          && occurred (record w {
            db = (api.exec.cursor.iter_next w.db i).2;
            exc = raise (api.exec.cursor.iter_next w.db i).1 w.exc;
          }))
        _ _ (done-Coherent api.exec (record c { emiter = some i }) (ground (arith, done)))
        (many_item-Safe off fuel (record c { emiter = some i }) sc query _ options _ done)

  pub executemany-Safe :
      (off : HandsOff api.exec) (fuel : ℕ) (c : Cursor) (sc : StatementCache) (query items : ℕ)
      (options : Options) (w : World S)
      → Coherent c
      → Safe (executemany api fuel c sc query items options w)
  unfolding executemany
  executemany-Safe off fuel c sc query items options w h = on_open-Safe c.connection c sc w _ h (
      after_reset c _ _ (resetcursor-Resets api.exec c false sc w) (λ x q done.
        many_iter-Safe off fuel x.1 x.2 query (api.get_iter x.3.db items).0 options _ done))
