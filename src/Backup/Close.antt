-- ===== src/Backup/Close.antt =====
-- Closing a backup, its steps, and what it leaves to its connections (src/backup.c).
use apsw.Prelude.{
  ℕ, ◌-◌, ◌≡◌, ◌≢◌, refl, ◌∙◌, ap, Bool, true, false, Option, none, some, ◌∷◌, arith, ◌==◌, not,
  ◌&&◌, ◌||◌, if◌then◌else◌, is_some, bool_eq,
}
use apsw.Prelude.Int.{ℤ}
use apsw.Errors.{Exn, sqlite_ok, sqlite_done}
use apsw.World.{
  World, Call, sqlite_call, set_exc, occurred, remove_dependent, set_inuse, write_unraisable,
  listed, raise,
}
use apsw.Blob.{Force, raise_error, ignore_error, report_error}
use apsw.Blob.Life.{listed-remove_from}
use apsw.Backup.{
  BackupApi, Backup, close_error, free_dest, free_source, close_handle, close_internal, dealloc,
  unless_used, is_gone, unless_closed, step_result, step_open, step, finish, close, exit,
}

module _ {S : Type 0} (api : BackupApi S) where
  -- A closing backup of the object `id` from `s` to `d`, between two worlds: the one call of
  -- SQLite, the destination free again, every other connection's flag as it was, the object off
  -- both lists once, and nothing else of the lists or the handles changed.
  abbrev pub Released : ℕ → ℕ → ℕ → ℕ → World S → World S → Type 0
  Released h id d s w w' =
      (w'.trace ≡ Call.backup_finish h ∷ w.trace)
      × ((c : ℕ) → (w'.conns c).inuse ≡ (if c == d then false else (w.conns c).inuse))
      × ((c : ℕ) → (w'.conns c).open_db ≡ (w.conns c).open_db)
      × ((c x : ℕ)
          → listed x (w'.conns c).dependents ≡ (
              if (c == d || c == s) && x == id
              then listed x (w.conns c).dependents - 1
              else listed x (w.conns c).dependents))

  close_error-keeps :
      (f : Force) (res : ℕ) (w : World S)
      → ((close_error api f res w).0.trace ≡ w.trace)
        × ((close_error api f res w).0.conns ≡ w.conns)
  unfolding close_error write_unraisable set_exc
  close_error-keeps raise_error res w = (ground arith, ground arith)
  close_error-keeps ignore_error res w = (refl, refl)
  close_error-keeps report_error res w = (ground arith, ground arith)

  free-conns :
      (d s id c : ℕ) (w : World S)
      → d ≢ s
      → let k = ((free_source api (some s) id (free_dest api (some d) id w)).conns c) in
        (k.inuse ≡ (if c == d then false else (w.conns c).inuse))
        × (k.open_db ≡ (w.conns c).open_db)
        × ((x : ℕ)
            → listed x k.dependents ≡ (
                if (c == d || c == s) && x == id
                then listed x (w.conns c).dependents - 1
                else listed x (w.conns c).dependents))
  unfolding free_source free_dest remove_dependent set_inuse
  free-conns d s id c w ne = (
    ground arith,
    ground arith,
    λ x. ground (
      arith,
      listed-remove_from x id (w.conns d).dependents,
      listed-remove_from x id (w.conns s).dependents,
    ),
  )

  free-trace :
      (d s : Option ℕ) (id : ℕ) (w : World S)
      → (free_source api s id (free_dest api d id w)).trace ≡ w.trace
  unfolding free_source free_dest remove_dependent set_inuse
  free-trace none none id w = refl
  free-trace none (some s) id w = refl
  free-trace (some d) none id w = refl
  free-trace (some d) (some s) id w = refl

  after_error : (h : ℕ) (f : Force) (w : World S) → World S
  after_error h f w =
      (close_error api f (api.backup_finish w.db h).0
        (sqlite_call (Call.backup_finish h) (λ d. api.backup_finish d h) w).1).0

  after_error-trace :
      (h : ℕ) (f : Force) (w : World S) → (after_error h f w).trace ≡ Call.backup_finish h ∷ w.trace
  unfolding sqlite_call after_error
  after_error-trace h f w = (close_error-keeps f (api.backup_finish w.db h).0 _).0

  after_error-conns : (h : ℕ) (f : Force) (w : World S) → (after_error h f w).conns ≡ w.conns
  unfolding sqlite_call after_error
  after_error-conns h f w = (close_error-keeps f (api.backup_finish w.db h).0 _).1

  -- A backup that is open, on the handle `h`, from `s` to `d`.
  abbrev pub open_backup : ℕ → ℕ → ℕ → ℕ → Bool → Bool → Backup
  open_backup id d s h done inuse = record {
    id = id;
    dest = some d;
    source = some s;
    backup = some h;
    done = done;
    inuse = inuse;
  }

  -- However an open backup is closed, whatever SQLite answers: `sqlite3_backup_finish` is called
  -- once; the destination is no longer in use; the object stands once less on the lists of both
  -- connections; no other flag, list entry or handle changes; and the object has neither handle
  -- nor connections left. The two connections are different ones.
  pub close_internal-Released :
      (id d s h : ℕ) (done inuse : Bool) (f : Force) (w : World S)
      → d ≢ s
      → let r = close_internal api (open_backup id d s h done inuse) f w in
        Released h id d s w r.2 × (r.1.backup ≡ none) × (r.1.dest ≡ none) × (r.1.source ≡ none)
  unfolding close_internal close_handle sqlite_call
  close_internal-Released id d s h done inuse f w ne =
      let v = after_error h f w in
      let same = after_error-conns h f w in
      unfold after_error in
      (
        (
          free-trace (some d) (some s) id v ∙ after_error-trace h f w,
          (λ c.
              (free-conns d s id c v ne).0 ∙ ap (λ k. if c == d then false else (k c).inuse) same),
          (λ c. (free-conns d s id c v ne).1 ∙ ap (λ k. (k c).open_db) same),
          (λ c x.
              (free-conns d s id c v ne).2 x
              ∙ ap
                  (λ k.
                    if (c == d || c == s) && x == id
                    then listed x (k c).dependents - 1
                    else listed x (k c).dependents)
                  same),
        ),
        refl,
        refl,
        refl,
      )

  -- SQLite ends the backup without an error, or there is nothing to end.
  abbrev pub ends_clean : Option ℕ → S → Bool
  ends_clean none d = true
  ends_clean (some h) d = (api.backup_finish d h).0 == sqlite_ok

  -- `finish`, `close` and `exit` of an object that is not in use. A forced close, and the end of a
  -- block that an exception ends, return, whatever SQLite answers; `finish`, a plain close and the
  -- end of a block without one return exactly when SQLite reports no error or there is nothing to
  -- close; and the end of a block returns False, so that it hides no exception.
  pub finish_returns :
      (b : Backup) (flag : Bool) (w : World S)
      → b.inuse ≡ false
      → let clean = ends_clean b.backup w.db in
        (is_some (finish api b w).0 ≡ clean)
        × (is_some (close api b flag w).0 ≡ (flag || clean))
        × ((exit api b flag w).0 ≡ (if flag || clean then some false else none))
  unfolding finish close exit close_internal close_handle close_error sqlite_call unless_used
  finish_returns b flag w free = (ground arith, ground arith, ground arith)

  -- The exception that there is once `sqlite3_backup_finish` has been called, if it is.
  abbrev pub exc_after : Option ℕ → World S → Option Exn
  exc_after none w = w.exc
  exc_after (some h) w = raise (api.backup_finish w.db h).1 w.exc

  free-exc :
      (d s : Option ℕ) (id : ℕ) (w : World S)
      → (free_source api s id (free_dest api d id w)).exc ≡ w.exc
  unfolding free_source free_dest remove_dependent set_inuse
  free-exc none none id w = refl
  free-exc none (some s) id w = refl
  free-exc (some d) none id w = refl
  free-exc (some d) (some s) id w = refl

  report-exc : (res : ℕ) (w : World S) → (close_error api report_error res w).0.exc ≡ w.exc
  unfolding close_error
  report-exc res w = ground arith

  -- The destructor leaves the exception that there is after `sqlite3_backup_finish`, and sets none
  -- of its own.
  pub dealloc_keeps_exc : (b : Backup) (w : World S) → (dealloc api b w).exc ≡ exc_after b.backup w
  unfolding dealloc close_internal close_handle sqlite_call
  dealloc_keeps_exc b w =
      elim b.backup as (λ p. (close_handle api p b report_error w).2.exc ≡ exc_after p w) [
        | none ↦ refl
        | some h ↦ free-exc b.dest b.source b.id _ ∙ report-exc (api.backup_finish w.db h).0 _
      ]

  -- The returned value, if there is one, is the attribute.
  abbrev pub agrees : Option Bool → Bool → Bool
  agrees none done = true
  agrees (some v) done = bool_eq v done

  -- `step` on a backup whose handle is there and whose connections are open: it asks SQLite once;
  -- it returns exactly when no callback raised and SQLite answers OK or DONE; the value is the
  -- attribute `done` afterwards, which is true exactly if this answer or an earlier one was DONE;
  -- and an exception is there exactly when it does not return.
  pub step_exact :
      (b : Backup) (npages : ℤ) (w : World S) (h : ℕ)
      → b.inuse ≡ false
      → b.backup ≡ some h
      → is_gone api b.dest w ≡ false
      → is_gone api b.source w ≡ false
      → w.exc ≡ none
      → let r = step api b npages w in
        let a = api.backup_step w.db h npages in
        (r.2.trace ≡ Call.backup_step h ∷ w.trace)
        × (is_some r.0 ≡ (not (is_some a.1) && (a.0 == sqlite_ok || a.0 == sqlite_done)))
        × (r.1.done ≡ (b.done || (is_some r.0 && a.0 == sqlite_done)))
        × (agrees r.0 r.1.done ≡ true)
        × (occurred r.2 ≡ not (is_some r.0))
  unfolding step step_open step_result sqlite_call unless_used unless_closed set_exc
  step_exact b npages w h free has there1 there2 clean =
      (ground arith, ground arith, ground arith, ground arith, ground arith)
