-- ===== src/Cursor/Rows.antt =====
-- The rows of the last statement come to an end (src/cursor.c).
use apsw.Prelude.{
  ℕ, suc, ◌%◌, ◌≡◌, ◌<◌, ◌⊎◌, refl, sym, ap, ◌∙◌, Bool, true, false, Option, none, some, ◌==◌,
  if◌then◌else◌, arith, Bool-cases, inl, inr,
}
use apsw.Errors.{sqlite_row, sqlite_done}
use apsw.World.{World, occurred}
use apsw.StatementCache.{Statement, StatementCache, hasmore}
use apsw.Cursor.{Cursor, Status, c_begin, c_row, c_done, resetcursor}
use apsw.Cursor.Step.{
  Round, stop, again, round_fault, round_null, reset_and_stop, next_item, after_step,
}
use apsw.Cursor.Attributes.{InfoApi}
use apsw.Cursor.Coherent.{Resets, resetcursor-Resets, reset_done}

-- A cursor on the last statement of its text, without an iterator and a row tracer.
pub record OnLast (c : Cursor) : Type 0 where
  pub no_more : hasmore c.statement ≡ false
  pub no_iterator : c.emiter ≡ none
  pub no_tracer : c.rowtrace ≡ none

module _ {S : Type 0} (api : InfoApi S) (rows : S → ℕ) where
  -- How many rows are left, the one that is there included.
  abbrev pub left : Status → S → ℕ
  left c_begin d = rows d
  left c_row d = suc (rows d)
  left c_done d = 0

  -- A round on the last statement does not lead to another; a value comes with a row, of which there
  -- is one less, or at the end.
  abbrev pub LastRound : ℕ → Round S → Type 0
  LastRound m (stop none c sc w) = Unit
  LastRound m (stop (some v) c sc w) =
      ((c.status ≡ c_row) × OnLast c × (rows w.db < m)) ⊎ (c.status ≡ c_done)
  LastRound m (again c sc w) = ⊥
  LastRound m round_fault = Unit
  LastRound m round_null = Unit

  pub with_status-OnLast : (st : Status) (c : Cursor) → OnLast c → OnLast (record c { status = st })
  with_status-OnLast st c h = record {
    no_more = h.no_more;
    no_iterator = h.no_iterator;
    no_tracer = h.no_tracer;
  }

  reset_and_stop-LastRound :
      (m : ℕ) (v : Option (Unit {0})) (c : Cursor) (force : Bool) (sc : StatementCache)
      (w : World S)
      → LastRound m (reset_and_stop api.row.exec v c force sc w)
  unfolding reset_and_stop
  reset_and_stop-LastRound m v c force sc w =
      go v (resetcursor api.row.exec.cursor c force sc w)
        (resetcursor-Resets api.row.exec c force sc w)
    where
      go :
          (u : Option (Unit {0})) (r : Option (ℕ × Cursor × StatementCache × World S))
          → Resets api.row.exec c r
          → LastRound m
              (elim r as (λ _. Round S) [ none ↦ round_fault | some x ↦ stop u x.1 x.2 x.3 ])
      go u none h = tt
      go none (some x) h = tt
      go (some u) (some (res, c', sc', w')) h =
          inr (ap (λ x. x.status) h ∙ reset_done api.row.exec c)

  next_item-LastRound :
      (m : ℕ) (i : Option ℕ) (c : Cursor) (sc : StatementCache) (w : World S)
      → i ≡ none
      → LastRound m (next_item api.row.exec i c sc w)
  unfolding next_item
  next_item-LastRound m none c sc w e = reset_and_stop-LastRound m (some tt) c false sc w
  next_item-LastRound m (some i) c sc w e = absurd (ground (arith, e))

  row-LastRound :
      (m : ℕ) (b : Bool) (c : Cursor) (sc : StatementCache) (w : World S)
      → OnLast c
      → rows w.db < m
      → LastRound m (stop (if b then none else some tt) (record c { status = c_row }) sc w)
  row-LastRound m true c sc w h lt = tt
  row-LastRound m false c sc w h lt = inl (refl, with_status-OnLast c_row c h, lt)

  pub after_step-LastRound :
      (m res : ℕ) (s : Statement) (c : Cursor) (sc : StatementCache) (w : World S)
      → c.statement ≡ some s
      → OnLast c
      → (res % 256 ≡ 100 → rows w.db < m)
      → LastRound m (after_step api.row.exec res s c sc w)
  unfolding after_step
  after_step-LastRound m res s c sc w e h lt = elim (Bool-cases (res % 256 == sqlite_row)) [
    | inl r ↦ rw r (row-LastRound m (occurred w) c sc w h (lt (ground (arith, r))))
    | inr r ↦ rw r (elim (Bool-cases (res % 256 == sqlite_done)) [
      | inr f ↦ rw f (reset_and_stop-LastRound m none _ (occurred w) sc w)
      | inl f ↦ rw f (elim (Bool-cases (occurred w)) [
        | inl g ↦ rw g tt
        | inr g ↦
            rw (g, ap hasmore (sym e) ∙ h.no_more)
              (next_item-LastRound m c.emiter _ sc w h.no_iterator)
      ])
    ])
  ]
