-- ===== src/Cursor/Coherent.antt =====
-- A cursor that has more to do has a statement, and the methods never follow a null pointer
-- (src/cursor.c).
use apsw.Prelude.{
  ℕ, ◌≡◌, ◌≢◌, refl, ap, ◌∙◌, Bool, true, false, Option, none, some, if◌then◌else◌, not, is_some,
  ◌>>=◌, arith, sym, Bool-cases, inl, inr, ◌&&◌,
}
use apsw.Prelude.Int.{ℤ, pos, negsuc}
use apsw.World.{World}
use apsw.StatementCache.{Statement, StatementCache, finalize}
use apsw.StatementCache.Prepare
use apsw.Cursor.{
  Cursor, Bindings, no_bindings, null_bindings, mapping, sequence, c_begin, c_done, is_done,
  reset_fields, resetcursor,
}
use apsw.Cursor.Binding.{dobindings_on, move_offset}
use apsw.Cursor.Step.{
  ExecApi, Outcome, returned, cache_fault, null_fault, assert_fault, no_fuel, Round, stop, again,
  round_fault, round_null, first_some, reset_and_stop, Shown, do_exec_trace, after_trace, run_new,
  take_new, prepare_again, use_item,
}

-- In `executemany` the original query is there.
abbrev pub Queried : Cursor → Type 0
Queried c = is_some c.emiter ≡ true → is_some c.emoriginalquery ≡ true

-- A cursor that is not done has a statement, and in `executemany` the original query.
pub record Coherent (c : Cursor) : Type 0 where
  pub has_statement : is_done c.status ≡ false → is_some c.statement ≡ true
  pub has_query : is_done c.status ≡ false → Queried c

-- What a method leaves: never a null pointer followed; a cursor that is coherent.
abbrev pub Safe : {S A : Type 0} → Outcome S A → Type 0
Safe (returned v c sc w) = Coherent c
Safe cache_fault = Unit
Safe null_fault = ⊥
Safe assert_fault = Unit
Safe no_fuel = Unit

-- After the step of a cursor there is a row, or the end, where it gives a value.
abbrev pub Stepped : {S : Type 0} → Outcome S (Unit {0}) → Type 0
Stepped (returned none c sc w) = Coherent c
Stepped (returned (some v) c sc w) = Coherent c × (c.status ≢ c_begin)
Stepped cache_fault = Unit
Stepped null_fault = ⊥
Stepped assert_fault = Unit
Stepped no_fuel = Unit

pub Stepped-Safe : {S : Type 0} → (r : Outcome S (Unit {0})) → Stepped r → Safe r
Stepped-Safe (returned none c sc w) h = h
Stepped-Safe (returned (some v) c sc w) h = h.0
Stepped-Safe cache_fault h = tt
Stepped-Safe null_fault h = h
Stepped-Safe assert_fault h = tt
Stepped-Safe no_fuel h = tt

module _ {S : Type 0} (api : ExecApi S) where
  -- What a round leaves: never a null pointer followed; a cursor that is coherent; a value only with
  -- a row or at the end; and a new round only for a cursor that is not done.
  abbrev pub RoundSafe : Round S → Type 0
  RoundSafe (stop none c sc w) = Coherent c
  RoundSafe (stop (some v) c sc w) = Coherent c × (c.status ≢ c_begin)
  RoundSafe (again c sc w) = Coherent c × (is_done c.status ≡ false)
  RoundSafe round_fault = Unit
  RoundSafe round_null = ⊥

  -- Binding changes the offset alone.
  abbrev Rebound : Cursor → Option (Bool × Cursor × World S) → Type 0
  Rebound c none = Unit
  Rebound c (some (ok, c', w)) =
      (c'.statement ≡ c.statement)
      × (c'.status ≡ c.status)
      × (c'.emiter ≡ c.emiter)
      × (c'.emoriginalquery ≡ c.emoriginalquery)

  moved-Rebound :
      (c : Cursor) (k : ℕ) (r : Option (Bool × World S))
      → Rebound c (r >>= λ x. some (move_offset api.cursor c k x))
  unfolding move_offset
  moved-Rebound c k none = tt
  moved-Rebound c k (some (ok, w)) = ground arith

  dobindings_on-Rebound :
      (c : Cursor) (s : Statement) (i : ℤ) (b : Bindings) (w : World S)
      → Rebound c (dobindings_on api.cursor c s i b w)
  unfolding dobindings_on
  dobindings_on-Rebound c s (negsuc k) b w = tt
  dobindings_on-Rebound c s (pos k) null_bindings w = (refl, refl, refl, refl)
  dobindings_on-Rebound c s (pos k) no_bindings w = ground arith
  dobindings_on-Rebound c s (pos k) (mapping is_dict m) w = (refl, refl, refl, refl)
  dobindings_on-Rebound c s (pos k) (sequence values) w = moved-Rebound c _ _

  -- A done cursor is coherent.
  pub done-Coherent : (c : Cursor) → is_done c.status ≡ true → Coherent c
  done-Coherent c e = record {
    has_statement = λ h. absurd (ground (arith, e, h));
    has_query = λ h. absurd (ground (arith, e, h));
  }

  -- The exec tracer does not close, run or change the cursor that it is called for.
  abbrev pub HandsOff : Type 0
  HandsOff =
      (t : ℕ) (shown : Shown) (c : Cursor) (sc : StatementCache) (w : World S)
      → (api.exec_trace t shown c sc w).1 ≡ c

  do_exec_trace-same :
      (off : HandsOff) (t : Option ℕ) (c : Cursor) (s : Statement) (saved : ℤ) (sc : StatementCache)
      (w : World S)
      → (do_exec_trace api t c s saved sc w).1 ≡ c
  unfolding do_exec_trace
  do_exec_trace-same off none c s saved sc w = refl
  do_exec_trace-same off (some t) c s saved sc w = off t _ c sc w

  after_trace-RoundSafe :
      (inside : Bool) (c : Cursor) (t : (Bool × World S) × Cursor × StatementCache)
      → t.1 ≡ c
      → Queried c
      → is_done c.status ≡ true
      → is_some c.statement ≡ true
      → RoundSafe (after_trace api inside t)
  unfolding after_trace
  after_trace-RoundSafe inside c ((ok, w), c', sc) same q done has =
      elim (Bool-cases (inside && not (is_done c'.status))) [
        | inl e ↦ rw e tt
        | inr e ↦ rw e (elim (Bool-cases ok) [
          | inr f ↦ rw f (done-Coherent c' (ap (λ x. is_done x.status) same ∙ done))
          | inl f ↦ rw f (
            record {
              has_statement = λ h. ap (λ x. is_some x.statement) same ∙ has;
              has_query = λ h there.
                  ap (λ x. is_some x.emoriginalquery) same
                  ∙ q (ap (λ x. is_some x.emiter) (sym same) ∙ there);
            },
            refl,
          )
        ])
      ]

  pub run_new-RoundSafe :
      (off : HandsOff) (inside : Bool) (s : Statement) (c : Cursor) (sc : StatementCache)
      (w : World S)
      → Queried c
      → c.status ≡ c_done
      → is_some c.statement ≡ true
      → RoundSafe (run_new api inside s c sc w)
  unfolding run_new
  run_new-RoundSafe off inside s c sc w q done has =
      go (dobindings_on api.cursor c s c.bindingsoffset c.bindings w)
        (dobindings_on-Rebound c s c.bindingsoffset c.bindings w)
    where
      go :
          (r : Option (Bool × Cursor × World S))
          → Rebound c r
          → RoundSafe (elim r as (λ _. Round S) [
            | none ↦ round_fault
            | some x ↦
                if not x.0
                then stop none x.1 sc x.2
                else after_trace api inside (
                    do_exec_trace api
                      (first_some x.1.exectrace api.connection_exectrace)
                      x.1
                      s
                      c.bindingsoffset
                      sc
                      x.2)
          ])
      go none h = tt
      go (some (false, c', w')) h = done-Coherent c' (ground (arith, h.1, done))
      go (some (true, c', w')) h =
          after_trace-RoundSafe inside c'
            (do_exec_trace api (first_some c'.exectrace api.connection_exectrace) c' s
              c.bindingsoffset sc w')
            (do_exec_trace-same off _ c' s c.bindingsoffset sc w')
            (λ e. ground (arith, h.2, h.3, e, q (ground (arith, h.2, e))))
            (ground (arith, h.1, done)) (ap is_some h.0 ∙ has)

  pub take_new-RoundSafe :
      (off : HandsOff) (s : Option Statement) (c : Cursor) (sc : StatementCache) (w : World S)
      → Queried c
      → c.status ≡ c_done
      → RoundSafe (take_new api s c sc w)
  unfolding take_new
  take_new-RoundSafe off none c sc w q done = done-Coherent _ (ground (arith, done))
  take_new-RoundSafe off (some s) c sc w q done =
      run_new-RoundSafe off true s (record c { statement = some s }) sc w q done refl

  pub prepare_again-RoundSafe :
      (off : HandsOff) (query : Option ℕ) (c : Cursor) (sc : StatementCache) (w : World S)
      → Queried c
      → is_some query ≡ true
      → c.status ≡ c_done
      → RoundSafe (prepare_again api query c sc w)
  unfolding prepare_again
  prepare_again-RoundSafe off none c sc w q there done = absurd (ground (arith, there))
  prepare_again-RoundSafe off (some query) c sc w q there done =
      go (Prepare.prepare api.cursor.stmt sc query c.emoptions w)
    where
      go :
          (r : Option (Option Statement × StatementCache × World S))
          → RoundSafe (elim r as (λ _. Round S) [
            | none ↦ round_fault
            | some x ↦ take_new api x.0 c x.1 x.2
          ])
      go none = tt
      go (some (s, sc', w')) = take_new-RoundSafe off s c sc' w' q done

  pub use_item-RoundSafe :
      (off : HandsOff) (x : ℕ) (c : Cursor) (sc : StatementCache) (w : World S)
      → is_some c.emoriginalquery ≡ true
      → c.status ≡ c_done
      → RoundSafe (use_item api x c sc w)
  unfolding use_item
  use_item-RoundSafe off x c sc w there done = go (finalize api.cursor.stmt sc c.statement w)
    where
      item :
          (b : Option Bindings) (c' : Cursor) (sc' : StatementCache) (w' : World S)
          → is_some c.emoriginalquery ≡ true
          → c'.status ≡ c_done
          → c'.emoriginalquery ≡ c.emoriginalquery
          → RoundSafe (elim b as (λ _. Round S) [
            | none ↦ stop none c' sc' (record w' { exc = some api.sequence_error })
            | some y ↦ prepare_again api c.emoriginalquery (record c' { bindings = y }) sc' w'
          ])
      item none c' sc' w' has d e = done-Coherent c' (ground (arith, d))
      item (some y) c' sc' w' has d e =
          prepare_again-RoundSafe off c.emoriginalquery (record c' { bindings = y }) sc' w'
            (λ _. ap is_some e ∙ has) has d

      go :
          (r : Option (ℕ × StatementCache × World S))
          → RoundSafe (elim r as (λ _. Round S) [
            | none ↦ round_fault
            | some y ↦
                let c' = record c {
                  statement = none;
                  bindings = no_bindings;
                  bindingsoffset = pos 0;
                } in
                elim (api.as_bindings y.2.db x) as (λ _. Round S) [
                  | none ↦ stop none c' y.1 (record y.2 { exc = some api.sequence_error })
                  | some b ↦
                      prepare_again api c.emoriginalquery (record c' { bindings = b }) y.1 y.2
                ]
          ])
      go none = tt
      go (some (res, sc', w')) = item (api.as_bindings w'.db x) _ sc' w' there done refl

  -- The cursor after a reset has nothing to do.
  abbrev pub Resets : Cursor → Option (ℕ × Cursor × StatementCache × World S) → Type 0
  Resets c none = Unit
  Resets c (some r) = r.1 ≡ reset_fields api.cursor c

  bind-Resets :
      (c : Cursor) {A : Type 0} (m : Option A) (f : A → ℕ) (g : A → StatementCache)
      (h : A → World S)
      → Resets c (m >>= λ a. some (f a, reset_fields api.cursor c, g a, h a))
  bind-Resets c none f g h = tt
  bind-Resets c (some a) f g h = refl

  pub resetcursor-Resets :
      (c : Cursor) (force : Bool) (sc : StatementCache) (w : World S)
      → Resets c (resetcursor api.cursor c force sc w)
  unfolding resetcursor
  resetcursor-Resets c force sc w = bind-Resets c _ _ _ _

  pub reset_done : (c : Cursor) → (reset_fields api.cursor c).status ≡ c_done
  unfolding reset_fields
  reset_done c = refl

  pub reset_and_stop-RoundSafe :
      (v : Option (Unit {0})) (c : Cursor) (force : Bool) (sc : StatementCache) (w : World S)
      → RoundSafe (reset_and_stop api v c force sc w)
  unfolding reset_and_stop
  reset_and_stop-RoundSafe v c force sc w =
      go v (resetcursor api.cursor c force sc w) (resetcursor-Resets c force sc w)
    where
      go :
          (u : Option (Unit {0})) (r : Option (ℕ × Cursor × StatementCache × World S))
          → Resets c r
          → RoundSafe
              (elim r as (λ _. Round S) [ none ↦ round_fault | some x ↦ stop u x.1 x.2 x.3 ])
      go u none h = tt
      go none (some (res, c', sc', w')) h = done-Coherent c' (ground (arith, h, reset_done c))
      go (some u) (some (res, c', sc', w')) h = (
        done-Coherent c' (ground (arith, h, reset_done c)),
        λ e. ground (arith, e, h, reset_done c),
      )
