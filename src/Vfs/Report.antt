-- ===== src/Vfs/Report.antt =====
-- Exceptions of the Python methods of a file, and the result codes for them (src/vfs.c).
use apsw.Prelude.{ℕ, ◌≡◌, ◌<◌, refl, sym, ap, ◌∙◌, true, Option, none, some, is_some, arith}
use apsw.Errors.{Exn, sqlite_error, make_sqlite_msg_from_py_exception}
use apsw.Errors.RoundTrip.{make_sqlite_msg_pos}
use apsw.World.{World, occurred, raise}
use apsw.Vfs.{Reply, FileObject}
use apsw.Vfs.File.{
  sqlite_msg, done_reply, checked_number, close_reply, x_file_size, x_check_reserved_lock, x_close,
}

-- An exception that a call left was there before, or is new.
raise_occurred : (a b : Option Exn) → b ≡ none → is_some (raise a b) ≡ true → is_some a ≡ true
raise_occurred none b e h = ground (arith, e, h)
raise_occurred (some x) b e h = refl

module _ {S : Type 0} where
  pub sqlite_msg_pos : (w : World S) → 0 < sqlite_msg w
  unfolding sqlite_msg
  sqlite_msg_pos w = go w.exc
    where
      go :
          (e : Option Exn)
          → 0 < elim e as (λ _. ℕ) [
            | none ↦ sqlite_error
            | some x ↦ make_sqlite_msg_from_py_exception x
          ]
      go none = omega arith
      go (some x) = make_sqlite_msg_pos x

  checked_number-pos :
      {A : Type 0} (r : Option A × World S) → occurred r.1 ≡ true → 0 < (checked_number r).0.0
  unfolding checked_number
  checked_number-pos (v, w) e = rw e (sqlite_msg_pos w)

  checked_number-exc : {A : Type 0} (r : Option A × World S) → (checked_number r).1 ≡ r.1
  unfolding checked_number
  checked_number-exc (v, w) = refl

  close_reply-pos :
      (r : Reply × World S) → occurred (close_reply r).1 ≡ true → 0 < (close_reply r).0
  unfolding close_reply
  close_reply-pos r e = rw e (sqlite_msg_pos (done_reply r).1)

  -- An exception is never reported to SQLite as success: where asking for the size of a file, for its
  -- reserved lock, or closing it leaves an exception that was not there, the result code is an error.
  pub exception_is_error :
      (o : FileObject S) (w1 w2 w3 : World S)
      → w1.exc ≡ none
      → w2.exc ≡ none
      → w3.exc ≡ none
      → occurred (x_file_size o w1).1 ≡ true
      → occurred (x_check_reserved_lock o w2).1 ≡ true
      → occurred (x_close o w3).1 ≡ true
      → (0 < (x_file_size o w1).0.0)
        × (0 < (x_check_reserved_lock o w2).0.0)
        × (0 < (x_close o w3).0)
  unfolding x_file_size x_check_reserved_lock x_close
  exception_is_error o w1 w2 w3 q1 q2 q3 h1 h2 h3 = (
    checked_number-pos _ (ap occurred (sym (checked_number-exc _)) ∙ raise_occurred _ w1.exc q1 h1),
    checked_number-pos _ (ap occurred (sym (checked_number-exc _)) ∙ raise_occurred _ w2.exc q2 h2),
    close_reply-pos _ (raise_occurred _ w3.exc q3 h3),
  )
