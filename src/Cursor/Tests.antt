-- ===== src/Cursor/Tests.antt =====
-- Cursors at concrete inputs (src/cursor.c).
use apsw.Prelude.{arith, ◌≡◌, ℕ, refl, true, false, Option, none, some, List, [], ◌∷◌}
use apsw.Prelude.Int.{pos, negsuc}
use apsw.Errors.{Exn, ExcClass, raised}
use apsw.World.{World, Call, sqlite_call}
use apsw.StatementCache.{
  StmtApi, Statement, sentinel_hash, finalize, finalize_uncached, free_statement, hasmore,
}
use apsw.StatementCache.Prepare.{init}
use apsw.StatementCache.Slots.{init-Inv}
use apsw.Cursor.{
  CursorApi, Cursor, c_row, Value, int_value, str_value, no_bindings, sequence, release_statement,
  resetcursor, close,
}
use apsw.Cursor.Binding.{dobindings_on, fits_int64}
use apsw.Cursor.Reset.{IsReset, resetcursor-IsReset, ClosesWith, close_many_unreported}
use apsw.Cursor.Complete.{succeeds, dobindings_succeeds}
use apsw.Cursor.Exact.{BindsSequence, dobindings-BindsSequence}

-- A SQLite without state that takes everything, statements with two parameters, and an iterator
-- that always has one more item.
abbrev fine : Unit {0} → Option ℕ → ℕ × Option Exn × Unit {0}
fine d v = (0, none, d)

abbrev statements : StmtApi (Unit {0})
statements = record {
  prepare_v3 = λ d utf8 flags. record { res = 0; vdbe = some 1; tail = 0; exn = none; next = d };
  reset = fine;
  finalize = fine;
  clear_bindings = fine;
  stmt_explain = λ d v n. (0, none, d);
  sql = λ d h. none;
  calloc = λ d. (true, d);
  as_utf8 = λ d q. none;
  as_utf8_error = raised ExcClass.value_error "surrogates not allowed";
}

abbrev demo : CursorApi (Unit {0})
demo = record {
  stmt = statements;
  iter_next = λ d i. (some 5, none, d);
  parameter_count = λ d v. 2;
  parameter_name = λ d v n. none;
  bind = λ d v n b. (0, none, d);
  dict_item = λ d m key. none;
  mapping_item = λ d m key. (none, none, d);
  allow_missing = true;
  int_error = raised ExcClass.overflow_error "int too big to convert";
  str_error = raised ExcClass.value_error "surrogates not allowed";
  buffer_error = raised ExcClass.type_error "not contiguous";
}

abbrev start : World (Unit {0})
start = record {
  db = tt;
  exc = none;
  trace = [];
  conns = λ i. record { open_db = true; inuse = false; dependents = some 3 ∷ [] };
  unraised = [];
}

-- A statement that is not cached, of a text of 3 bytes; how far its query goes is given.
abbrev upto : ℕ → Statement
upto n = record {
  vdbestatement = some 1;
  query = some 9;
  utf8 = none;
  utf8_size = 3;
  query_size = n;
  hash = sentinel_hash;
  options = record { can_cache = false; prepare_flags = pos 0; explain = negsuc 0 };
  uses = 1;
}

-- A cursor with a row, on a statement, with or without an iterator.
abbrev with_row : ℕ → Option ℕ → Cursor
with_row n it = record {
  id = 3;
  connection = some 0;
  inuse = false;
  statement = some (upto n);
  status = c_row;
  bindings = no_bindings;
  bindingsoffset = pos 0;
  emiter = it;
  emoriginalquery = it;
  emoptions = record { can_cache = false; prepare_flags = pos 0; explain = negsuc 0 };
  exectrace = none;
  rowtrace = none;
}

abbrev released : World (Unit {0})
released = record start { trace = Call.finalize (some 1) ∷ [] }

resetcursor-IsReset_example :
    IsReset demo
      (with_row 2 none)
      false
      (init 0)
      start
      (resetcursor demo (with_row 2 none) false (init 0) start)
resetcursor-IsReset_example =
    resetcursor-IsReset demo (with_row 2 none) false (init 0) start (init-Inv 0)
      (λ ne. absurd (ne refl))

close_many_unreported_example :
    ClosesWith demo (some tt) (some 0) none (close demo (with_row 3 (some 8)) false (init 0) start)
unfolding release_statement finalize finalize_uncached free_statement sqlite_call init hasmore
close_many_unreported_example =
    close_many_unreported demo (with_row 3 (some 8)) (init 0)
      (record (init 0) { recycle_bin = record (upto 3) { query = none } ∷ [] }) start released 0 8 5
      tt refl refl refl refl refl refl refl refl

-- The second statement of a text, with one value used before.
abbrev three_values : List Value
three_values = int_value (pos 7) ∷ str_value (some []) ∷ int_value (negsuc 0) ∷ []

dobindings-BindsSequence_example :
    BindsSequence demo 1 2 three_values start
      (with_row 3 none)
      (dobindings_on demo (with_row 3 none) (upto 3) (pos 1) (sequence three_values) start)
dobindings-BindsSequence_example =
    dobindings-BindsSequence demo (with_row 3 none) (upto 3) 1 three_values start refl

dobindings_succeeds_example :
    succeeds demo
      (dobindings_on demo (with_row 3 none) (upto 3) (pos 1) (sequence three_values) start)
    ≡ true
unfolding hasmore fits_int64
dobindings_succeeds_example =
    dobindings_succeeds demo (with_row 3 none) (upto 3) 1 three_values start refl (omega arith)
      (λ d arg b. (refl, refl)) refl refl
