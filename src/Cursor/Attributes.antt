-- ===== src/Cursor/Attributes.antt =====
-- The small methods and attributes of a cursor (src/cursor.c).
use apsw.Prelude.{
  ℕ, zero, suc, ◌+◌, Bool, true, false, Option, none, some, List, [], ◌∷◌, if◌then◌else◌, is_some,
}
use apsw.Prelude.Int.{pos}
use apsw.World.{World, occurred}
use apsw.StatementCache.{StatementCache}
use apsw.Cursor.{Cursor, no_bindings, c_done}
use apsw.Cursor.Step.{Outcome, returned, cache_fault, null_fault, assert_fault, no_fuel}
use apsw.Cursor.Execute.{RowApi, Fetched, on_open, next}

-- What is asked of SQLite about a statement: `sqlite3_stmt_isexplain` and `sqlite3_stmt_readonly`.
pub record InfoApi (S : Type 0) : Type 0 where
  pub row : RowApi S
  pub stmt_isexplain : S → Option ℕ → ℕ
  pub stmt_readonly : S → Option ℕ → Bool

-- `APSWCursor_new` and `APSWCursor_init`.
unfoldable pub new_cursor : ℕ → ℕ → Cursor
new_cursor id con = record {
  id = id;
  connection = some con;
  inuse = false;
  statement = none;
  status = c_done;
  bindings = no_bindings;
  bindingsoffset = pos 0;
  emiter = none;
  emoriginalquery = none;
  emoptions = record { can_cache = false; prepare_flags = pos 0; explain = pos 0 };
  exectrace = none;
  rowtrace = none;
}

-- The `PyObject *` of an optional object, with None for none.
pub data Object : Type 0 where
  py_none : Object
  object : ℕ → Object

abbrev or_none : Option ℕ → Object
or_none none = py_none
or_none (some x) = object x

-- The names of the parameters from the `i`-th on, `n` of them, without their first character.
unfoldable pub parameter_names : ℕ → ℕ → (ℕ → Option (List ℕ)) → List (Option (List ℕ))
parameter_names zero i name = []
parameter_names (suc n) i name =
    elim (name i) [ none ↦ none | some text ↦ elim text [ [] ↦ some [] | x ∷ xs ↦ some xs ] ]
    ∷ parameter_names n (i + 1) name

module _ {S : Type 0} (api : InfoApi S) where
  -- A method that gives a value, on an open cursor.
  unfoldable pub answer {ℓ} : {A : Type ℓ} → A → Cursor → World S → Option A × World S
  answer a c w = on_open api.row (λ w'. (none, w')) c.connection c w (some a, w)

  -- `set_exec_trace` and `set_row_trace`; none for the tracer that Python gives as None.
  unfoldable pub set_exec_trace : Option ℕ → Cursor → World S → Option (Unit {0}) × Cursor × World S
  set_exec_trace callable c w =
      on_open api.row (λ w'. (none, c, w')) c.connection c w
        (some tt, record c { exectrace = callable }, w)

  unfoldable pub set_row_trace : Option ℕ → Cursor → World S → Option (Unit {0}) × Cursor × World S
  set_row_trace callable c w =
      on_open api.row (λ w'. (none, c, w')) c.connection c w
        (some tt, record c { rowtrace = callable }, w)

  unfoldable pub get_exec_trace : Cursor → World S → Option Object × World S
  get_exec_trace c w = answer (or_none c.exectrace) c w

  unfoldable pub get_row_trace : Cursor → World S → Option Object × World S
  get_row_trace c w = answer (or_none c.rowtrace) c w

  unfoldable pub bindings_count : Cursor → World S → Option ℕ × World S
  bindings_count c w =
      answer
        (elim c.statement [
          | none ↦ 0
          | some s ↦ api.row.exec.cursor.parameter_count w.db s.vdbestatement
        ])
        c w

  unfoldable pub bindings_names : Cursor → World S → Option (List (Option (List ℕ))) × World S
  bindings_names c w =
      answer
        (elim c.statement [
          | none ↦ []
          | some s ↦
              parameter_names (api.row.exec.cursor.parameter_count w.db s.vdbestatement) 1
                (api.row.exec.cursor.parameter_name w.db s.vdbestatement)
        ])
        c w

  unfoldable pub is_explain : Cursor → World S → Option ℕ × World S
  is_explain c w =
      answer (elim c.statement [ none ↦ 0 | some s ↦ api.stmt_isexplain w.db s.vdbestatement ]) c w

  unfoldable pub is_readonly : Cursor → World S → Option Bool × World S
  is_readonly c w =
      answer (elim c.statement [ none ↦ true | some s ↦ api.stmt_readonly w.db s.vdbestatement ]) c
        w

  unfoldable pub has_vdbe : Cursor → World S → Option Bool × World S
  has_vdbe c w = answer (elim c.statement [ none ↦ false | some s ↦ is_some s.vdbestatement ]) c w

  -- The value of `fetchone`: the row, or None where there is no exception.
  unfoldable pub or_py_none : Outcome S Fetched → Outcome S (Option Fetched)
  or_py_none (returned none c sc w) = returned (if occurred w then none else some none) c sc w
  or_py_none (returned (some v) c sc w) = returned (some (some v)) c sc w
  or_py_none cache_fault = cache_fault
  or_py_none null_fault = null_fault
  or_py_none assert_fault = assert_fault
  or_py_none no_fuel = no_fuel

  -- `APSWCursor_fetchone`.
  unfoldable pub fetchone : ℕ → ℕ → Cursor → StatementCache → World S → Outcome S (Option Fetched)
  fetchone n fuel c sc w =
      on_open api.row (returned none c sc) c.connection c w
        (or_py_none (next api.row n fuel c sc w))

  -- The list of what the iterator gives, until it gives NULL.
  unfoldable pub add_fetched :
      (Cursor → StatementCache → World S → Outcome S (List Fetched))
      → Outcome S Fetched
      → Outcome S (List Fetched)
  add_fetched more (returned none c sc w) = returned (if occurred w then none else some []) c sc w
  add_fetched more (returned (some v) c sc w) = elim (more c sc w) [
    | returned l c' sc' w' ↦ returned (elim l [ none ↦ none | some vs ↦ some (v ∷ vs) ]) c' sc' w'
    | cache_fault ↦ cache_fault
    | null_fault ↦ null_fault
    | assert_fault ↦ assert_fault
    | no_fuel ↦ no_fuel
  ]
  add_fetched more cache_fault = cache_fault
  add_fetched more null_fault = null_fault
  add_fetched more assert_fault = assert_fault
  add_fetched more no_fuel = no_fuel

  -- `PySequence_List` of the cursor, which asks for rows; the fuel is their number and one.
  unfoldable pub fetch_list :
      ℕ → ℕ → ℕ → Cursor → StatementCache → World S → Outcome S (List Fetched)
  fetch_list zero n fuel c sc w = no_fuel
  fetch_list (suc k) n fuel c sc w = add_fetched (fetch_list k n fuel) (next api.row n fuel c sc w)

  -- `APSWCursor_fetchall`.
  unfoldable pub fetchall : ℕ → ℕ → ℕ → Cursor → StatementCache → World S → Outcome S (List Fetched)
  fetchall k n fuel c sc w =
      on_open api.row (returned none c sc) c.connection c w (fetch_list k n fuel c sc w)
