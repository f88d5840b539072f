-- ===== src/Errors.antt =====
-- Python exceptions and SQLite result codes (src/exceptions.c): the table of exception classes, the
-- exception made from a result code, and the result code that stands for an exception.
pub mod RoundTrip
pub mod Tests
use apsw.Prelude.{
  ℕ, zero, suc, ◌%◌, ◌^◌, ◌≡◌, Bool, true, false, Option, none, some, List, [], ◌∷◌, ltb, leb, ◌==◌,
  if◌then◌else◌, ◌&&◌, ◌||◌, bool_eq,
}
use apsw.Prelude.Int.{ℤ, pos, negsuc}
use Prim.Native.String.{String}

-- The classes of the exceptions that the modelled code raises by name.
pub data ExcClass : Type 0 where
  value_error type_error memory_error overflow_error system_error runtime_error : ExcClass
  threading_violation connection_closed cursor_closed incomplete : ExcClass
  bindings_error execution_complete trace_abort vfs_not_implemented vfs_file_closed : ExcClass

-- The attribute `extendedresult` of an exception that user code raised.
pub data Extended : Type 0 where
  absent : Extended
  not_int : Extended
  number : ℤ → Extended

-- An exception of user code: which, the codes of the table's classes that it derives from, and its
-- attribute.
pub record UserExn : Type 0 where
  pub id : ℕ
  pub derives : List ℕ
  pub extended : Extended

-- `sqlite_exn code result extended` is an instance of the class of `code`.
pub data Exn : Type 0 where
  sqlite_exn : ℕ → ℕ → ℕ → Exn
  base_error : ℕ → Exn
  raised : ExcClass → String → Exn
  user : UserExn → Exn

abbrev pub sqlite_ok : ℕ
sqlite_ok = 0

abbrev pub sqlite_error : ℕ
sqlite_error = 1

abbrev pub sqlite_nomem : ℕ
sqlite_nomem = 7

abbrev pub sqlite_row : ℕ
sqlite_row = 100

abbrev pub sqlite_done : ℕ
sqlite_done = 101

-- The codes of the table, in its order; each row's class is known by its code.
abbrev pub exc_descriptors : List ℕ
exc_descriptors =
    1 ∷ 20 ∷ 12 ∷ 2 ∷ 15 ∷ 21 ∷ 25 ∷ 3 ∷ 8 ∷ 14 ∷ 23 ∷ 4 ∷ 5 ∷ 6 ∷ 9 ∷ 17 ∷ 19 ∷ 7 ∷ 10 ∷ 11 ∷ 13
    ∷ 18 ∷ 22 ∷ 16 ∷ 24 ∷ 26 ∷ []

-- The loop of `make_exception` over the table.
unfoldable pub make_from : List ℕ → ℕ → Exn
make_from [] res = base_error res
make_from (code ∷ rest) res =
    if code == res % 256 then sqlite_exn code (res % 256) res else make_from rest res

unfoldable pub make_exception : ℕ → Exn
unfolding make_from
make_exception res = make_from exc_descriptors res

abbrev pub elem : ℕ → List ℕ → Bool
elem a [] = false
elem a (b ∷ bs) = a == b || elem a bs

-- `PyErr_GivenExceptionMatches` against the class of a row.
unfoldable pub exception_matches : Exn → ℕ → Bool
exception_matches (sqlite_exn cls result extended) code = cls == code
exception_matches (base_error res) code = false
exception_matches (raised cls msg) code = false
exception_matches (user u) code = elem code u.derives

-- `PyLong_AsInt`: -1 with an overflow error, which is cleared, when the value is no C `int`.
unfoldable pub as_int : ℤ → ℤ
as_int (pos n) = if ltb n (2 ^ 31) then pos n else negsuc 0
as_int (negsuc n) = if ltb n (2 ^ 31) then negsuc n else negsuc 0

unfoldable pub extended_result : Exn → Extended
extended_result (sqlite_exn cls result extended) = number (pos extended)
extended_result (base_error res) = absent
extended_result (raised cls msg) = absent
extended_result (user u) = u.extended

-- The extended code where there is one, and never less than 1.
unfoldable pub extend_code : Extended → ℕ → ℕ
unfolding as_int
extend_code absent code = code
extend_code not_int code = code
extend_code (number v) code = elim (as_int v) [
  | pos n ↦ if n == 0 then sqlite_error else n
  | negsuc n ↦ sqlite_error
]

unfoldable pub code_from : List ℕ → Exn → ℕ
unfolding exception_matches extend_code extended_result
code_from [] e = sqlite_error
code_from (code ∷ rest) e =
    if exception_matches e code then extend_code (extended_result e) code else code_from rest e

-- `MakeSqliteMsgFromPyException`, its result; the message text is left out.
unfoldable pub make_sqlite_msg_from_py_exception : Exn → ℕ
unfolding code_from
make_sqlite_msg_from_py_exception e = code_from exc_descriptors e
