-- ===== src/Cursor/Reset.antt =====
-- The release of a cursor's statement, and its closing (src/cursor.c).
use apsw.Prelude.{
  ℕ, ◌≡◌, refl, Bool, true, false, Option, none, some, arith, ◌==◌, if◌then◌else◌, ◌&&◌, not, ◌>>=◌,
}
use apsw.Errors.{Exn, ExcClass, raised, sqlite_ok}
use apsw.World.{World, set_exc, occurred, write_unraisable, remove_dependent}
use apsw.StatementCache.{Statement, StatementCache, finalize, hasmore, or_error}
use apsw.StatementCache.Slots.{Inv}
use apsw.StatementCache.Totality.{Kept, FitsOut, Done, finalize-Done}
use apsw.Blob.{force_of}
use apsw.Cursor.{
  CursorApi, Cursor, is_done, forced, release_statement, check_more, check_many, reset_fields,
  resetcursor, leave_connection, finish_close, close_internal, close,
}

module _ {S : Type 0} (api : CursorApi S) where
  release_statement-Done :
      (s : Option Statement) (force : Bool) (sc : StatementCache) (w : World S)
      → Inv sc
      → FitsOut sc s
      → Done api.stmt sc (release_statement api s force sc w)
  unfolding release_statement
  release_statement-Done none force sc w v fits = record { inv = v; max_same = refl }
  release_statement-Done (some s) force sc w v fits =
      go (finalize api.stmt sc (some s) w) (finalize-Done api.stmt sc (some s) w v fits)
    where
      go :
          (r : Option (ℕ × StatementCache × World S))
          → Done api.stmt sc r
          → Done api.stmt sc (
              r >>= λ x.
              let res = or_error api.stmt x.0 x.2 in
              some (
                res,
                x.1,
                (if res == sqlite_ok
                    then x.2
                    else if force && occurred x.2
                    then write_unraisable x.2
                    else set_exc res x.2),
              ))
      go none d = d
      go (some (res, sc', w')) d = d

  -- What a reset ends with: the cache in its invariant, and the cursor without statement, bindings
  -- and iterator; a forced one with the exception that there was before.
  abbrev pub IsReset :
      Cursor
      → Bool
      → StatementCache
      → World S
      → Option (ℕ × Cursor × StatementCache × World S)
      → Type 0
  IsReset c force sc w none = ⊥
  IsReset c force sc w (some (res, c', sc', w')) =
      Kept sc sc' × (c' ≡ reset_fields api c) × (force ≡ true → w'.exc ≡ w.exc)

  -- A reset stays within the arrays of the statement cache and keeps its invariant, drops the
  -- statement, the bindings and the iterator, whatever fails, and a forced one leaves a pending
  -- exception as it was and sets none. The statement may be one that the cache has handed out.
  pub resetcursor-IsReset :
      (c : Cursor) (force : Bool) (sc : StatementCache) (w : World S)
      → Inv sc
      → FitsOut sc c.statement
      → IsReset c force sc w (resetcursor api c force sc w)
  unfolding resetcursor
  resetcursor-IsReset c force sc w v fits =
      let w0 = if force then record w { exc = none } else w in
      go (release_statement api c.statement force sc w0)
        (release_statement-Done c.statement force sc w0 v fits)
    where
      go :
          (r : Option (ℕ × StatementCache × World S))
          → Done api.stmt sc r
          → IsReset c force sc w (
              r >>= λ x.
              let pending = not force && not (is_done c.status) in
              let (res, w') = check_more api (pending && hasmore c.statement) x.0 x.2 in
              let (res', w'') = check_many api pending c.emiter res w' in
              some (
                res',
                reset_fields api c,
                x.1,
                (if force then record w'' { exc = w.exc } else w''),
              ))
      go none d = d
      go (some (res, sc', w')) d = (d, refl, λ e. rw e refl)

  -- The result of a close: its value, whether the cursor still has its connection, and the
  -- exception that is there.
  abbrev pub ClosesWith :
      Option (Unit {0})
      → Option ℕ
      → Option Exn
      → Option (Option (Unit {0}) × Cursor × StatementCache × World S)
      → Type 0
  ClosesWith value con exn none = ⊥
  ClosesWith value con exn (some (value', c', sc', w')) =
      (value' ≡ value) × (c'.connection ≡ con) × (w'.exc ≡ exn)

  -- A plain close of a cursor whose last statement is not finished, with text left after it, whose
  -- statement SQLite takes back without an error, and which is not in `executemany`: it raises
  -- IncompleteExecutionError and leaves the cursor on its connection.
  pub close_incomplete :
      (c : Cursor) (sc sc' : StatementCache) (w w' : World S) (con : ℕ)
      → c.inuse ≡ false
      → c.connection ≡ some con
      → is_done c.status ≡ false
      → hasmore c.statement ≡ true
      → c.emiter ≡ none
      → release_statement api c.statement false sc w ≡ some (sqlite_ok, sc', w')
      → w'.exc ≡ none
      → ClosesWith none
          (some con)
          (some (
            raised ExcClass.incomplete
              "Error: there are still remaining sql statements to execute"))
          (close api c false sc w)
  unfolding close close_internal resetcursor check_more check_many reset_fields force_of
  close_incomplete c sc sc' w w' con free has busy more single rel clean =
      rw (free, has, rel, busy, more, single) (ground arith, refl, ground arith)

  -- A plain close of a cursor in `executemany` whose last statement is not finished, with no text
  -- left after it, whose statement SQLite takes back without an error, and whose iterator has one
  -- more item and raises nothing: it returns None, with no exception, although the cursor stays on
  -- its connection.
  pub close_many_unreported :
      (c : Cursor) (sc sc' : StatementCache) (w w' : World S) (con i x : ℕ) (d : S)
      → c.inuse ≡ false
      → c.connection ≡ some con
      → is_done c.status ≡ false
      → hasmore c.statement ≡ false
      → c.emiter ≡ some i
      → release_statement api c.statement false sc w ≡ some (sqlite_ok, sc', w')
      → w'.exc ≡ none
      → api.iter_next w'.db i ≡ (some x, none, d)
      → ClosesWith (some tt) (some con) none (close api c false sc w)
  unfolding close close_internal resetcursor check_more check_many reset_fields force_of
  close_many_unreported c sc sc' w w' con i x d free has busy more many rel clean next =
      rw (free, has, rel, busy, more, many, next, clean) (refl, refl, refl)

  -- A forced close of a cursor that is not in use, with no exception pending, raises nothing and
  -- returns None; the cursor leaves its connection exactly if the release of its statement gives
  -- no error code.
  pub close_forced :
      (c : Cursor) (sc sc' : StatementCache) (w w' : World S) (con res : ℕ)
      → c.inuse ≡ false
      → c.connection ≡ some con
      → w.exc ≡ none
      → release_statement api c.statement true sc (record w { exc = none }) ≡ some (res, sc', w')
      → ClosesWith
          (some tt)
          (if res == sqlite_ok then none else some con)
          none
          (close api c true sc w)
  unfolding close close_internal resetcursor check_more check_many reset_fields force_of forced
      finish_close leave_connection remove_dependent
  close_forced c sc sc' w w' con res free has clean rel =
      rw (free, has, rel, clean) (ground arith, ground arith, ground arith)
