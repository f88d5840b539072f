-- ===== src/Errors/RoundTrip.antt =====
-- From a result code to an exception and back (src/exceptions.c).
use apsw.Prelude.{
  ℕ, ◌%◌, ◌^◌, ◌≡◌, ◌≤◌, ◌<◌, refl, Bool, true, false, List, [], ◌∷◌, ltb, ◌&&◌, arith,
}
use apsw.Errors.{
  Exn, sqlite_exn, base_error, exc_descriptors, elem, make_from, make_exception, code_from,
  make_sqlite_msg_from_py_exception,
}

-- Each primary code from 1 to 26 has a row.
elem-descriptors : (c : ℕ) → 0 < c → c ≤ 26 → elem c exc_descriptors ≡ true
elem-descriptors c lo hi = ground arith

abbrev all_pos : List ℕ → Bool
all_pos [] = true
all_pos (c ∷ cs) = ltb 0 c && all_pos cs

make_from-elem :
    (rows : List ℕ) (res : ℕ)
    → elem (res % 256) rows ≡ true
    → make_from rows res ≡ sqlite_exn (res % 256) (res % 256) res
unfolding make_from
make_from-elem [] res h = absurd (ground arith)
make_from-elem (code ∷ rest) res h = ground (arith, make_from-elem rest res)

code_from-elem :
    (rows : List ℕ) (res : ℕ)
    → 0 < res
    → res < 2 ^ 31
    → elem (res % 256) rows ≡ true
    → code_from rows (sqlite_exn (res % 256) (res % 256) res) ≡ res
unfolding code_from
code_from-elem [] res pos_res small h = absurd (ground arith)
code_from-elem (code ∷ rest) res pos_res small h =
    ground (arith, code_from-elem rest res pos_res small)

code_from-miss : (rows : List ℕ) (res : ℕ) → code_from rows (base_error res) ≡ 1
unfolding code_from
code_from-miss [] res = refl
code_from-miss (code ∷ rest) res = code_from-miss rest res

make_from-miss :
    (rows : List ℕ) (res : ℕ) → elem (res % 256) rows ≡ false → make_from rows res ≡ base_error res
unfolding make_from
make_from-miss [] res h = refl
make_from-miss (code ∷ rest) res h = ground (arith, make_from-miss rest res)

-- A positive result code below 2 ^ 31 whose low byte is one of SQLite's primary codes 1 to 26
-- survives the way into a Python exception and back, its extended bits included.
pub code-make_exception :
    (res : ℕ)
    → 0 < res % 256
    → res % 256 ≤ 26
    → res < 2 ^ 31
    → make_sqlite_msg_from_py_exception (make_exception res) ≡ res
unfolding make_sqlite_msg_from_py_exception make_exception
code-make_exception res lo hi small =
    rw (make_from-elem exc_descriptors res (elem-descriptors (res % 256) lo hi))
      (code_from-elem exc_descriptors res (omega arith) small (elem-descriptors (res % 256) lo hi))

not-elem-descriptors : (c : ℕ) → 26 < c → elem c exc_descriptors ≡ false
not-elem-descriptors c lo = ground arith

-- A code whose low byte is above 26 becomes an instance of the base class, and comes back as
-- SQLITE_ERROR.
pub code-make_exception_unknown :
    (res : ℕ) → 26 < res % 256 → make_sqlite_msg_from_py_exception (make_exception res) ≡ 1
unfolding make_sqlite_msg_from_py_exception make_exception
code-make_exception_unknown res lo =
    rw (make_from-miss exc_descriptors res (not-elem-descriptors (res % 256) lo))
      (code_from-miss exc_descriptors res)

code_from-pos : (rows : List ℕ) (e : Exn) → all_pos rows ≡ true → 0 < code_from rows e
unfolding code_from
code_from-pos [] e h = omega arith
code_from-pos (code ∷ rest) e h = ground (arith, code_from-pos rest e)

-- Whatever the exception, user attributes included, the code that SQLite is given is positive, so
-- an exception is never reported as success.
pub make_sqlite_msg_pos : (e : Exn) → 0 < make_sqlite_msg_from_py_exception e
unfolding make_sqlite_msg_from_py_exception
make_sqlite_msg_pos e = code_from-pos exc_descriptors e refl
