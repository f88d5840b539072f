-- ===== src/Errors/Tests.antt =====
-- Result codes and exceptions at concrete inputs (src/exceptions.c).
use apsw.Prelude.{◌≡◌, arith, [], ◌∷◌}
use apsw.Prelude.Int.{negsuc}
use apsw.Errors.{Exn, user, number, make_exception, make_sqlite_msg_from_py_exception}
use apsw.Errors.RoundTrip.{code-make_exception}

-- SQLITE_IOERR_READ.
code-make_exception_example : make_sqlite_msg_from_py_exception (make_exception 266) ≡ 266
code-make_exception_example = code-make_exception 266 (omega arith) (omega arith) (omega arith)

-- An exception that derives from the class of SQLITE_BUSY, with an attribute that is negative.
abbrev busy : Exn
busy = user (record { id = 1; derives = 5 ∷ []; extended = number (negsuc 6) })
