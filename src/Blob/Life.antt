-- ===== src/Blob/Life.antt =====
-- Closing a blob, using it while a call on it is going on, and its place among the dependents of
-- its connection (src/blob.c, src/connection.c, src/util.c).
use apsw.Prelude.{
  ℕ, ◌-◌, ◌≡◌, refl, ◌∙◌, Bool, true, false, Option, none, some, List, [], ◌∷◌, arith, ◌==◌,
  if◌then◌else◌, is_some,
}
use apsw.World.{
  World, Call, sqlite_call, set_exc, occurred, threading_violation, remove_dependent, remove_from,
  write_unraisable, listed,
}
use apsw.Blob.{
  BlobApi, Blob, Ret, Force, raise_error, ignore_error, report_error, on_open, guarded, close_error,
  close_handle, leave_connection, close_body, close_internal, dealloc, close, read, read_into, seek,
  write, reopen,
}
use apsw.Blob.Session.{Op, perform, reads, reads_into, seeks, writes, reopens, void}

module _ {S : Type 0} (api : BlobApi S) where
  -- The SQLite calls of a close: one of `sqlite3_blob_close`, if there is a handle.
  abbrev pub close_trace : Option ℕ → List Call → List Call
  close_trace none t = t
  close_trace (some h) t = Call.blob_close h ∷ t

  close_error-trace :
      (f : Force) (res : ℕ) (w : World S) → (close_error api f res w).0.trace ≡ w.trace
  unfolding close_error write_unraisable set_exc
  close_error-trace raise_error res w = ground arith
  close_error-trace ignore_error res w = refl
  close_error-trace report_error res w = ground arith

  close_handle-trace :
      (p : Option ℕ) (f : Force) (w : World S)
      → (close_handle api p f w).0.trace ≡ close_trace p w.trace
  unfolding close_handle sqlite_call
  close_handle-trace none f w = refl
  close_handle-trace (some h) f w = close_error-trace f (api.blob_close w.db h).0 _

  leave-trace :
      (c : Option ℕ) (id : ℕ) (w : World S) → (leave_connection api c id w).trace ≡ w.trace
  unfolding leave_connection remove_dependent
  leave-trace none id w = refl
  leave-trace (some con) id w = refl

  close_body-trace :
      (b : Blob) (f : Force) (w : World S)
      → (close_body api b f w).2.trace ≡ close_trace b.p_blob w.trace
  unfolding close_body
  close_body-trace b f w =
      leave-trace b.connection b.id (close_handle api b.p_blob f w).0
      ∙ close_handle-trace b.p_blob f w

  -- However a close ends, it makes one `sqlite3_blob_close` if the handle is there and none if it
  -- is not, and leaves the object without handle and connection, so that a second close makes no
  -- call.
  pub close_internal_once :
      (b : Blob) (f : Force) (w : World S)
      → let r = close_internal api b f w in
        (r.2.trace ≡ close_trace b.p_blob w.trace) × (r.1.p_blob ≡ none) × (r.1.connection ≡ none)
  unfolding close_internal
  close_internal_once b raise_error w =
      (close_body-trace b raise_error w, unfold close_body in refl, unfold close_body in refl)
  close_internal_once b ignore_error w =
      (close_body-trace b ignore_error w, unfold close_body in refl, unfold close_body in refl)
  close_internal_once b report_error w = (
    close_body-trace b report_error (record w { exc = none }),
    unfold close_body in refl,
    unfold close_body in refl,
  )

  -- The destructor leaves a pending exception as it was, and sets none of its own.
  pub dealloc-exc : (b : Blob) (w : World S) → (dealloc api b w).exc ≡ w.exc
  unfolding dealloc close_internal
  dealloc-exc b w = refl

  -- A forced close returns, whatever SQLite answers, and a plain one returns exactly when SQLite
  -- reports no error or there is nothing to close. No call on the object is going on.
  pub close_returns :
      (b : Blob) (force : Bool) (w : World S)
      → b.inuse ≡ false
      → is_some (close api b force w).0 ≡ (
          if force
          then true
          else elim b.p_blob [ none ↦ true | some h ↦ (api.blob_close w.db h).0 == 0 ])
  unfolding close close_internal close_body close_handle close_error sqlite_call
  close_returns b force w free = ground arith

  -- What a method does on an object that is in use: it raises, and touches nothing.
  abbrev pub Refused : {A : Type 0} → Blob → World S → Ret api A → Type 0
  Refused b w r =
      (r.0 ≡ none)
      × (r.1 ≡ b)
      × (r.2.db ≡ w.db)
      × (r.2.trace ≡ w.trace)
      × (r.2.conns ≡ w.conns)
      × (occurred r.2 ≡ true)

  on_open-Refused :
      {A : Type 0} (b : Blob) (w : World S) (body : ℕ → Ret api A)
      → b.inuse ≡ true
      → Refused b w (on_open api b w body)
  unfolding on_open guarded threading_violation
  on_open-Refused b w body used = ground arith

  void-Refused :
      {A : Type 0} (b : Blob) (w : World S) (r : Ret api A)
      → Refused b w r
      → Refused b w (void api r)
  void-Refused b w (none, b', w') h = (refl, h.1, h.2, h.3, h.4, h.5)
  void-Refused b w (some a, b', w') h = absurd (ground (arith, h.0))

  perform-Refused :
      (b : Blob) (op : Op) (w : World S) → b.inuse ≡ true → Refused b w (perform api b op w)
  unfolding perform read read_into seek write reopen
  perform-Refused b (reads len) w used = void-Refused b w _ (on_open-Refused b w _ used)
  perform-Refused b (reads_into buffer at len) w used =
      void-Refused b w _ (on_open-Refused b w _ used)
  perform-Refused b (seeks off whence) w used = on_open-Refused b w _ used
  perform-Refused b (writes bytes) w used = on_open-Refused b w _ used
  perform-Refused b (reopens rowid) w used = on_open-Refused b w _ used

  -- While a call on a blob is going on, a second one, from another thread or a callback, raises
  -- and changes neither the object, SQLite's state nor a connection: this holds of `read`,
  -- `read_into`, `seek`, `write`, `reopen`, and of `close`.
  pub in_use-Refused :
      (b : Blob) (op : Op) (force : Bool) (w : World S)
      → b.inuse ≡ true
      → Refused b w (perform api b op w) × Refused b w (close api b force w)
  in_use-Refused b op force w used =
      (perform-Refused b op w used, unfold close threading_violation in ground arith)

-- Removing a dependent takes one entry of it off the list, if it has one, and keeps the entries
-- of every other live object.
pub listed-remove_from :
    (x o : ℕ) (ds : List (Option ℕ))
    → listed x (remove_from (some o) ds) ≡ (if x == o then listed x ds - 1 else listed x ds)
unfolding remove_from
listed-remove_from x o [] = ground arith
listed-remove_from x o (none ∷ ds) = listed-remove_from x o ds
listed-remove_from x o (some d ∷ ds) = ground (arith, listed-remove_from x o ds)
