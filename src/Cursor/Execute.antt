-- ===== src/Cursor/Execute.antt =====
-- The methods of a cursor that run statements and give rows: `APSWCursor_execute`,
-- `APSWCursor_executemany` and `APSWCursor_next` of src/cursor.c, and the conversion of a column
-- (src/util.c).
use apsw.Prelude.{
  ℕ, zero, suc, ◌+◌, Bool, true, false, Option, none, some, List, [], ◌∷◌, ◌==◌, if◌then◌else◌,
  ◌&&◌, not, is_some,
}
use apsw.Prelude.Int.{ℤ, pos}
use apsw.Errors.{Exn, ExcClass, sqlite_ok}
use apsw.World.{World, occurred, err_format, threading_violation, raise}
use apsw.StatementCache.{Statement, StatementCache, Options}
use apsw.StatementCache.Prepare
use apsw.Cursor.{
  Cursor, Value, none_value, int_value, float_value, str_value, buffer_value, Bindings, Status,
  c_begin, c_row, c_done, resetcursor,
}
use apsw.Cursor.Step.{
  ExecApi, Outcome, returned, cache_fault, null_fault, assert_fault, no_fuel, stop, again,
  round_fault, round_null, first_some, run_new, step,
}

-- The value of a column, by its type.
pub data Column : Type 0 where
  column_null : Column
  column_integer : ℤ → Column
  column_float : ℕ → Column
  column_text column_blob : List ℕ → Column

-- What is called beside that of `ExecApi`: the columns of the row of a statement; whether bytes are
-- UTF-8, and Python's exception if not; the iterator of an object; the row tracer.
pub record RowApi (S : Type 0) : Type 0 where
  pub exec : ExecApi S
  pub data_count : S → Option ℕ → ℕ
  pub column : S → Option ℕ → ℕ → Column
  pub is_utf8 : List ℕ → Bool
  pub decode_error : Exn
  pub get_iter : S → ℕ → Option ℕ × Option Exn × S
  pub connection_rowtrace : Option ℕ
  pub row_trace : S → ℕ → List Value → Option Value × Option Exn × S

-- What `__next__` gives: the values of the row, or what the row tracer makes of them.
pub data Fetched : Type 0 where
  row : List Value → Fetched
  traced_row : Value → Fetched

module _ {S : Type 0} (api : RowApi S) where
  -- `CHECK_USE` and `CHECK_CURSOR_CLOSED`, then the rest of the method.
  unfoldable pub on_open {ℓ} : {A : Type ℓ} → (World S → A) → Option ℕ → Cursor → World S → A → A
  on_open refuse none c w rest =
      if c.inuse
      then refuse (threading_violation w)
      else refuse (err_format ExcClass.cursor_closed "The cursor has been closed" w)
  on_open refuse (some con) c w rest =
      if c.inuse
      then refuse (threading_violation w)
      else if not (w.conns con).open_db
      then refuse (err_format ExcClass.connection_closed "The connection has been closed" w)
      else rest

  -- From the prepared statement to the end of `execute` and `executemany`.
  unfoldable pub run_first :
      ℕ → Option Statement → Cursor → StatementCache → World S → Outcome S (Unit {0})
  run_first fuel none c sc w = returned none c sc w
  run_first fuel (some s) c sc w =
      elim (run_new api.exec false s (record c { statement = some s; bindingsoffset = pos 0 }) sc
        w) [
          | stop value c' sc' w' ↦ returned value c' sc' w'
          | again c' sc' w' ↦ step api.exec fuel c' sc' w'
          | round_fault ↦ cache_fault
          | round_null ↦ null_fault
        ]

  -- The part of `execute` after the reset; `none` are bindings that are neither a mapping nor a
  -- sequence.
  unfoldable pub execute_new :
      ℕ → Cursor → StatementCache → ℕ → Option Bindings → Options → World S → Outcome S (Unit {0})
  execute_new fuel c sc query none options w =
      returned none c sc (record w { exc = some api.exec.sequence_error })
  execute_new fuel c sc query (some b) options w =
      elim (Prepare.prepare api.exec.cursor.stmt sc query options w) [
        | none ↦ cache_fault
        | some r ↦ run_first fuel r.0 (record c { bindings = b }) r.1 r.2
      ]

  -- `APSWCursor_execute`.
  unfoldable pub execute :
      ℕ → Cursor → StatementCache → ℕ → Option Bindings → Options → World S → Outcome S (Unit {0})
  execute fuel c sc query b options w =
      on_open (returned none c sc) c.connection c w
        (elim (resetcursor api.exec.cursor c false sc w) [
          | none ↦ cache_fault
          | some r ↦
              if not (r.0 == sqlite_ok)
              then returned none r.1 r.2 r.3
              else execute_new fuel r.1 r.2 query b options r.3
        ])

  -- The first item of `executemany`.
  unfoldable pub many_item :
      ℕ → Cursor → StatementCache → ℕ → Option ℕ → Options → World S → Outcome S (Unit {0})
  many_item fuel c sc query none options w = returned (some tt) c sc w
  many_item fuel c sc query (some x) options w = elim (api.exec.as_bindings w.db x) [
    | none ↦ returned none c sc (record w { exc = some api.exec.sequence_error })
    | some b ↦
        let c' = record c { bindings = b; emoptions = options } in
        elim (Prepare.prepare api.exec.cursor.stmt sc query options w) [
          | none ↦ cache_fault
          | some r ↦
              run_first fuel r.0
                (if is_some r.0 then record c' { emoriginalquery = some query } else c') r.1 r.2
        ]
  ]

  unfoldable pub many_iter :
      ℕ → Cursor → StatementCache → ℕ → Option ℕ → Options → World S → Outcome S (Unit {0})
  many_iter fuel c sc query none options w = returned none c sc w
  many_iter fuel c sc query (some i) options w =
      let (item, exn, d) = api.exec.cursor.iter_next w.db i in
      let w' = record w { db = d; exc = raise exn w.exc } in
      let c' = record c { emiter = some i } in
      if not (is_some item) && occurred w'
      then returned none c' sc w'
      else many_item fuel c' sc query item options w'

  -- `APSWCursor_executemany` on the object of which it takes the iterator.
  unfoldable pub executemany :
      ℕ → Cursor → StatementCache → ℕ → ℕ → Options → World S → Outcome S (Unit {0})
  executemany fuel c sc query items options w =
      on_open (returned none c sc) c.connection c w
        (elim (resetcursor api.exec.cursor c false sc w) [
          | none ↦ cache_fault
          | some r ↦
              if not (r.0 == sqlite_ok)
              then returned none r.1 r.2 r.3
              else let (iter, exn, d) = api.get_iter r.3.db items in
                many_iter fuel r.1 r.2 query iter options
                  (record r.3 { db = d; exc = raise exn r.3.exc })
        ])

  -- `convert_column_to_pyobject`; a text that is not UTF-8 is `none`.
  unfoldable pub convert_column : Column → Option Value
  convert_column column_null = some none_value
  convert_column (column_integer n) = some (int_value n)
  convert_column (column_float f) = some (float_value f)
  convert_column (column_text t) = if api.is_utf8 t then some (str_value (some t)) else none
  convert_column (column_blob b) = some (buffer_value (some b))

  -- The loop over the columns: `n` are left, from `i` on.
  unfoldable pub read_columns : ℕ → ℕ → Option ℕ → S → Option (List Value)
  read_columns zero i vdbe d = some []
  read_columns (suc n) i vdbe d =
      let rest = read_columns n (i + 1) vdbe d in
      elim (convert_column (api.column d vdbe i)) [
        | none ↦ none
        | some v ↦ elim rest [ none ↦ none | some vs ↦ some (v ∷ vs) ]
      ]

  unfoldable pub trace_row : Option ℕ → List Value → World S → Option Fetched × Bool × World S
  trace_row none vs w = (some (row vs), false, w)
  trace_row (some t) vs w =
      let (r2, exn, d) = api.row_trace w.db t vs in
      let w' = record w { db = d; exc = raise exn w.exc } in
      elim r2 [
        | none ↦ (none, false, w')
        | some v ↦ elim v [
          | none_value ↦ (none, true, w')
          | other ↦ (some (traced_row other), false, w')
        ]
      ]

  -- The row of the statement; the flag says that the tracer wants another one.
  unfoldable pub fetch_row :
      Option Statement → Cursor → World S → Option (Option Fetched × Bool × World S)
  fetch_row none c w = none
  fetch_row (some s) c w =
      elim (read_columns (api.data_count w.db s.vdbestatement) 0 s.vdbestatement w.db) [
        | none ↦ some (none, false, record w { exc = some api.decode_error })
        | some vs ↦ some (trace_row (first_some c.rowtrace api.connection_rowtrace) vs w)
      ]

  -- `goto again`, or the end.
  unfoldable pub give_row :
      (Cursor → StatementCache → World S → Outcome S Fetched)
      → Cursor
      → StatementCache
      → World S
      → Outcome S Fetched
  give_row loop c sc w =
      let c' = record c { status = c_begin } in
      elim (fetch_row c.statement c' w) [
        | none ↦ null_fault
        | some r ↦ if r.1 then loop c' sc r.2 else returned r.0 c' sc r.2
      ]

  unfoldable pub by_status :
      (Cursor → StatementCache → World S → Outcome S Fetched)
      → Status
      → Cursor
      → StatementCache
      → World S
      → Outcome S Fetched
  by_status loop c_done c sc w = returned none c sc w
  by_status loop c_row c sc w = give_row loop c sc w
  by_status loop c_begin c sc w = assert_fault

  -- What follows the step; the loop of the code goes on with a cursor that has a row.
  unfoldable pub after_begin :
      (Cursor → StatementCache → World S → Outcome S Fetched)
      → Outcome S (Unit {0})
      → Outcome S Fetched
  after_begin loop (returned none c sc w) = returned none c sc w
  after_begin loop (returned (some v) c sc w) = by_status loop c.status c sc w
  after_begin loop cache_fault = cache_fault
  after_begin loop null_fault = null_fault
  after_begin loop assert_fault = assert_fault
  after_begin loop no_fuel = no_fuel

  -- The loop of `APSWCursor_next`, with fuel for its rounds and for those of each step.
  unfoldable pub next_loop : ℕ → ℕ → Cursor → StatementCache → World S → Outcome S Fetched
  next_loop zero fuel c sc w = no_fuel
  next_loop (suc n) fuel c sc w =
      let loop = next_loop n fuel in
      elim c.status [
        | c_begin ↦ after_begin loop (step api.exec fuel c sc w)
        | c_row ↦ by_status loop c_row c sc w
        | c_done ↦ by_status loop c_done c sc w
      ]

  -- `APSWCursor_next`: a row, or NULL, without an exception at the end of the rows.
  unfoldable pub next : ℕ → ℕ → Cursor → StatementCache → World S → Outcome S Fetched
  next n fuel c sc w = on_open (returned none c sc) c.connection c w (next_loop n fuel c sc w)
