-- ===== src/Cursor/Runs.antt =====
-- Cursors that run statements, at concrete inputs (src/cursor.c).
use apsw.Prelude.{
  arith, ◌%◌, ◌<◌, ◌≡◌, ℕ, zero, suc, refl, true, false, Option, none, some, [], ◌∷◌,
}
use apsw.Prelude.Int.{pos, negsuc}
use apsw.Errors.{Exn, ExcClass, raised}
use apsw.World.{World, trace_answers}
use apsw.StatementCache.{Statement, hasmore, sentinel_hash}
use apsw.StatementCache.Prepare.{init}
use apsw.Cursor.{Cursor, c_begin, c_row, int_value, no_bindings}
use apsw.Cursor.Step.{assert_fault}
use apsw.Cursor.Execute.{
  RowApi, column_integer, row, next, next_loop, on_open, by_status, give_row, fetch_row,
  read_columns, convert_column, trace_row,
}
use apsw.Cursor.Get.{get}
use apsw.Cursor.Gather.{get_rows, get-shape}
use apsw.Cursor.Again.{get_after_next}
use apsw.Cursor.Attributes.{InfoApi, new_cursor, fetchall}
use apsw.Cursor.Rows.{OnLast}
use apsw.Cursor.Ends.{Ends, fetchall-Ends}

-- SQLite's state is the number of rows that are left.
abbrev fine : ℕ → Option ℕ → ℕ × Option Exn × ℕ
fine d v = (0, none, d)

abbrev next_row : ℕ → ℕ → ℕ × Option Exn × ℕ
next_row zero h = (101, none, 0)
next_row (suc n) h = (100, none, n)

abbrev rows_api : RowApi ℕ
rows_api = record {
  exec = record {
    cursor = record {
      stmt = record {
        prepare_v3 =
            λ d utf8 flags. record { res = 0; vdbe = some 1; tail = 0; exn = none; next = d };
        reset = fine;
        finalize = fine;
        clear_bindings = fine;
        stmt_explain = λ d v n. (0, none, d);
        sql = λ d h. none;
        calloc = λ d. (true, d);
        as_utf8 = λ d q. some (65 ∷ []);
        as_utf8_error = raised ExcClass.value_error "surrogates not allowed";
      };
      iter_next = λ d i. (none, none, d);
      parameter_count = λ d v. 0;
      parameter_name = λ d v n. none;
      bind = λ d v n b. (0, none, d);
      dict_item = λ d m key. none;
      mapping_item = λ d m key. (none, none, d);
      allow_missing = true;
      int_error = raised ExcClass.overflow_error "int too big to convert";
      str_error = raised ExcClass.value_error "surrogates not allowed";
      buffer_error = raised ExcClass.type_error "not contiguous";
    };
    step = next_row;
    as_bindings = λ d x. some no_bindings;
    sequence_error = raised ExcClass.type_error "You must supply a dict or a sequence for bindings";
    connection_exectrace = none;
    exec_trace = λ t shown c sc w. (trace_answers true, c, sc, w);
  };
  data_count = λ d v. 1;
  column = λ d v i. column_integer (pos d);
  is_utf8 = λ b. true;
  decode_error = raised ExcClass.value_error "invalid start byte";
  get_iter = λ d x. (some x, none, d);
  connection_rowtrace = none;
  row_trace = λ d t vs. (none, none, d);
}

abbrev info_api : InfoApi ℕ
info_api = record { row = rows_api; stmt_isexplain = λ d v. 0; stmt_readonly = λ d v. true }

abbrev two_left : World ℕ
two_left = record {
  db = 2;
  exc = none;
  trace = [];
  conns = λ i. record { open_db = true; inuse = false; dependents = some 3 ∷ [] };
  unraised = [];
}

abbrev one_statement : Statement
one_statement = record {
  vdbestatement = some 1;
  query = some 9;
  utf8 = none;
  utf8_size = 3;
  query_size = 3;
  hash = sentinel_hash;
  options = record { can_cache = false; prepare_flags = pos 0; explain = negsuc 0 };
  uses = 1;
}

abbrev at_row : Cursor
at_row = record (new_cursor 3 0) { statement = some one_statement; status = c_row }

-- The tracer of the connection closes the cursor.
abbrev closed_cursor : Cursor
closed_cursor = record (new_cursor 3 0) { connection = none }

abbrev closing_api : RowApi ℕ
closing_api = record rows_api {
  exec = record rows_api.exec {
    connection_exectrace = some 6;
    exec_trace = λ t shown c sc w. (trace_answers true, closed_cursor, sc, w);
  };
}

get-shape_example :
    get rows_api 4 4 at_row (init 0) two_left ≡ get_rows rows_api 4 4 at_row (init 0) two_left
get-shape_example = get-shape rows_api 4 4 at_row (init 0) two_left

get_after_next_example :
    get rows_api 4 4 (record at_row { status = c_begin }) (init 0) two_left ≡ assert_fault
unfolding next next_loop on_open by_status give_row fetch_row read_columns convert_column trace_row
    new_cursor
get_after_next_example =
    get_after_next rows_api 1 1 3 4 at_row (record at_row { status = c_begin }) (init 0) (init 0)
      two_left two_left (row (int_value (pos 2) ∷ [])) 0 refl refl refl refl

next_row-fewer : (d h : ℕ) → (next_row d h).0 % 256 ≡ 100 → (next_row d h).2 < d
next_row-fewer zero h e = absurd (omega (arith, e))
next_row-fewer (suc d) h e = omega arith

at_row-OnLast : OnLast at_row
unfolding hasmore new_cursor
at_row-OnLast = record { no_more = refl; no_iterator = refl; no_tracer = refl }

fetchall-Ends_example : Ends (fetchall info_api 4 1 1 at_row (init 0) two_left)
fetchall-Ends_example =
    fetchall-Ends info_api (λ d. d) 4 0 0 at_row (init 0) two_left next_row-fewer refl at_row-OnLast
      (omega arith)
