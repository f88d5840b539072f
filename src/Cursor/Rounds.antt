-- ===== src/Cursor/Rounds.antt =====
-- The loop of `APSWCursor_step` on a cursor that has more to do (src/cursor.c).
use apsw.Prelude.{
  ℕ, zero, suc, ◌%◌, ◌≡◌, refl, ap, Bool, true, false, Option, none, some, ◌==◌, if◌then◌else◌, not,
  is_some, arith, Bool-cases, inl, inr,
}
use apsw.Errors.{sqlite_ok, sqlite_row, sqlite_done}
use apsw.World.{World, set_exc, occurred, raise}
use apsw.StatementCache.{Statement, StatementCache, hasmore}
use apsw.StatementCache.Prepare
use apsw.Cursor.{Cursor, c_row, c_done, is_done}
use apsw.Cursor.Step.{
  ExecApi, Outcome, returned, cache_fault, null_fault, Round, stop, again, round_fault, round_null,
  reset_and_stop, take_new, use_item, next_item, next_statement, after_step, vdbe_step, step_round,
  step,
}
use apsw.Cursor.Coherent.{
  HandsOff, Queried, Coherent, Stepped, RoundSafe, done-Coherent, take_new-RoundSafe,
  use_item-RoundSafe, reset_and_stop-RoundSafe,
}

module _ {S : Type 0} (api : ExecApi S) where
  next_item-RoundSafe :
      (off : HandsOff api) (i : Option ℕ) (c : Cursor) (sc : StatementCache) (w : World S)
      → (is_some i ≡ true → is_some c.emoriginalquery ≡ true)
      → c.status ≡ c_done
      → RoundSafe api (next_item api i c sc w)
  unfolding next_item
  next_item-RoundSafe off none c sc w q done = reset_and_stop-RoundSafe api (some tt) c false sc w
  next_item-RoundSafe off (some i) c sc w q done = go (api.cursor.iter_next w.db i).0 (record w {
    db = (api.cursor.iter_next w.db i).2;
    exc = raise (api.cursor.iter_next w.db i).1 w.exc;
  })
    where
      pick :
          (item : Option ℕ) (w' : World S)
          → RoundSafe api (elim item as (λ _. Round S) [
            | none ↦ reset_and_stop api (some tt) c false sc w'
            | some x ↦ use_item api x c sc w'
          ])
      pick none w' = reset_and_stop-RoundSafe api (some tt) c false sc w'
      pick (some x) w' = use_item-RoundSafe api off x c sc w' (q refl) done

      go :
          (item : Option ℕ) (w' : World S)
          → RoundSafe api (
              if occurred w' then stop none c sc w' else elim item as (λ _. Round S) [
                | none ↦ reset_and_stop api (some tt) c false sc w'
                | some x ↦ use_item api x c sc w'
              ])
      go item w' = elim (Bool-cases (occurred w')) [
        | inl e ↦ rw e (done-Coherent api c (ground (arith, done)))
        | inr e ↦ rw e (pick item w')
      ]

  next_statement-RoundSafe :
      (off : HandsOff api) (s : Statement) (c : Cursor) (sc : StatementCache) (w : World S)
      → Queried c
      → c.status ≡ c_done
      → RoundSafe api (next_statement api s c sc w)
  unfolding next_statement
  next_statement-RoundSafe off s c sc w q done = go (Prepare.next api.cursor.stmt sc s w)
    where
      go :
          (r : Option (ℕ × Option Statement × StatementCache × World S))
          → RoundSafe api (elim r as (λ _. Round S) [
            | none ↦ round_fault
            | some x ↦
                let w' = set_exc x.0 x.3 in
                if not (x.0 == sqlite_ok)
                then stop none (record c { statement = x.1 }) x.2 w'
                else take_new api x.1 c x.2 w'
          ])
      go none = tt
      go (some (res, s', sc', w')) = elim (Bool-cases (not (res == sqlite_ok))) [
        | inl e ↦ rw e (done-Coherent api _ (ground (arith, done)))
        | inr e ↦ rw e (take_new-RoundSafe api off s' c sc' _ q done)
      ]

  row-RoundSafe :
      (b : Bool) (c : Cursor) (sc : StatementCache) (w : World S)
      → Queried c
      → is_some c.statement ≡ true
      → RoundSafe api (stop (if b then none else some tt) (record c { status = c_row }) sc w)
  row-RoundSafe true c sc w q has = record { has_statement = λ h. has; has_query = λ h. q }
  row-RoundSafe false c sc w q has =
      (record { has_statement = λ h. has; has_query = λ h. q }, λ e. absurd (ground (arith, e)))

  after_step-RoundSafe :
      (off : HandsOff api) (res : ℕ) (s : Statement) (c : Cursor) (sc : StatementCache)
      (w : World S)
      → Queried c
      → is_some c.statement ≡ true
      → RoundSafe api (after_step api res s c sc w)
  unfolding after_step
  after_step-RoundSafe off res s c sc w q has = elim (Bool-cases (res % 256 == sqlite_row)) [
    | inl e ↦ rw e (row-RoundSafe (occurred w) c sc w q has)
    | inr e ↦ rw e (elim (Bool-cases (res % 256 == sqlite_done)) [
      | inr f ↦ rw f (reset_and_stop-RoundSafe api none _ (occurred w) sc w)
      | inl f ↦ rw f (elim (Bool-cases (occurred w)) [
        | inl g ↦ rw g (done-Coherent api _ refl)
        | inr g ↦ rw g (elim (Bool-cases (hasmore (some s))) [
          | inl h ↦ rw h (next_statement-RoundSafe off s _ sc w q refl)
          | inr h ↦ rw h (next_item-RoundSafe off c.emiter _ sc w q refl)
        ])
      ])
    ])
  ]

  step_round-RoundSafe :
      (off : HandsOff api) (s : Option Statement) (c : Cursor) (sc : StatementCache) (w : World S)
      → Queried c
      → c.statement ≡ s
      → is_some s ≡ true
      → RoundSafe api (step_round api s c sc w)
  unfolding step_round
  step_round-RoundSafe off none c sc w q e has = absurd (ground (arith, has))
  step_round-RoundSafe off (some s) c sc w q e has =
      after_step-RoundSafe off (vdbe_step api s.vdbestatement w).0 s c sc
        (vdbe_step api s.vdbestatement w).1 q (ap is_some e)

  -- A step of a coherent cursor that is not done.
  pub step-Stepped :
      (off : HandsOff api) (n : ℕ) (c : Cursor) (sc : StatementCache) (w : World S)
      → Coherent c
      → is_done c.status ≡ false
      → Stepped (step api n c sc w)
  unfolding step
  step-Stepped off zero c sc w h busy = tt
  step-Stepped off (suc n) c sc w h busy =
      go (step_round api c.statement c sc w)
        (step_round-RoundSafe off c.statement c sc w (h.has_query busy) refl (h.has_statement busy))
        (step-Stepped off n)
    where
      go :
          (r : Round S)
          → RoundSafe api r
          → ((c' : Cursor) (sc' : StatementCache) (w' : World S)
              → Coherent c'
              → is_done c'.status ≡ false
              → Stepped (step api n c' sc' w'))
          → Stepped (elim r as (λ _. Outcome S (Unit {0})) [
            | stop value c' sc' w' ↦ returned value c' sc' w'
            | again c' sc' w' ↦ step api n c' sc' w'
            | round_fault ↦ cache_fault
            | round_null ↦ null_fault
          ])
      go (stop none c' sc' w') r rec = r
      go (stop (some v) c' sc' w') r rec = r
      go (again c' sc' w') r rec = rec c' sc' w' r.0 r.1
      go round_fault r rec = tt
      go round_null r rec = r
