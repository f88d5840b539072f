-- ===== src/Vtable/Tests.antt =====
-- A virtual table over a list (src/vtable.c).
use mathlib.Core.Path.{subst}
use apsw.Prelude.{
  ◌∙◌, suc, ◌≡◌, refl, Bool, true, false, none, some, List, [], ◌∷◌, ◌⊎◌, inl, inr, length, ap,
}
use apsw.Prelude.Int.{ℤ, pos}
use apsw.Errors.{Exn, ExcClass, raised}
use apsw.World.{World}
use apsw.Cursor.{none_value, int_value}
use apsw.Cursor.Binding.{fits_int64}
use apsw.Cursor.Execute.{column_integer, column_null}
use apsw.Functions.{PyObject, plain, object, Context, FunctionApi}
use apsw.Vtable.{
  x_destroy, x_disconnect, Name, begin, eof, rowid, next, VtableApi, VtableCursor,
  transaction_method, nested_transaction, x_rename, x_open, x_filter, x_column, x_rowid, x_next,
  x_close,
}
use apsw.Vtable.Update.{Change, change_row, x_update}
use apsw.Vtable.Told.{Tells, TellsOf, Ends}
use apsw.Vtable.Report.{code-Tells}
use apsw.Vtable.Scan.{scan, CursorLaws, end_flag, scan_all}

abbrev no_attribute : Exn
no_attribute = raised ExcClass.type_error "no attribute"

abbrev conversions : {S : Type 0} → FunctionApi S
conversions = record {
  vectorcall = λ d f vargs. (inr no_attribute, d);
  factory = λ d f. (inr no_attribute, d);
  aggregate_memory = λ d. true;
  memory_error = raised ExcClass.memory_error "";
  attribute_error = no_attribute;
  is_utf8 = λ t. true;
  decode_error = raised ExcClass.value_error "";
  int_error = raised ExcClass.overflow_error "";
  str_error = raised ExcClass.value_error "";
  buffer_error = raised ExcClass.value_error "";
}

abbrev rest_of : List Bool → List Bool
rest_of [] = []
rest_of (b ∷ bs) = bs

-- The numbers of the rows.
abbrev numbers : List Bool → List ℤ
numbers [] = []
numbers (true ∷ bs) = pos 7 ∷ numbers bs
numbers (false ∷ bs) = pos 4 ∷ numbers bs

abbrev head_or : List ℤ → ℤ
head_or [] = pos 0
head_or (n ∷ ns) = n

abbrev tail : List ℤ → List ℤ
tail [] = []
tail (n ∷ ns) = ns

abbrev list_method : List Bool → PyObject → Name → List PyObject → (PyObject ⊎ Exn) × List Bool
list_method d o eof vargs = (inl (plain (int_value (pos (end_flag (numbers d))))), d)
list_method d o rowid vargs = (inl (plain (int_value (head_or (numbers d)))), d)
list_method d o next vargs = (inl (plain none_value), rest_of d)
list_method d o name vargs = (inr no_attribute, d)

abbrev number_of : PyObject → ℤ ⊎ Exn
number_of (plain (int_value n)) = inl n
number_of o = inr no_attribute

abbrev over_list : VtableApi (List Bool)
over_list = record {
  functions = conversions;
  has_method = λ d o name. false;
  method = list_method;
  number_long = λ d o. (number_of o, d);
  number_index = λ d o. (number_of o, d);
  no_change = object 9;
  is_no_change = λ o. false;
}

abbrev list_cursor : VtableCursor
list_cursor = record { cursor = object 1; use_no_change = false }

abbrev starting : World (List Bool)
starting = record {
  db = true ∷ false ∷ [];
  exc = none;
  trace = [];
  conns = λ i. record { open_db = true; inuse = false; dependents = [] };
  unraised = [];
}

head-fits : (d : List Bool) → fits_int64 (head_or (numbers d)) ≡ true
unfolding fits_int64
head-fits [] = refl
head-fits (true ∷ bs) = refl
head-fits (false ∷ bs) = refl

numbers-rest : (d : List Bool) → numbers (rest_of d) ≡ tail (numbers d)
numbers-rest [] = refl
numbers-rest (true ∷ bs) = refl
numbers-rest (false ∷ bs) = refl

abbrev list_laws : CursorLaws over_list list_cursor
list_laws = record {
  left = numbers;
  eof_law = λ d. refl;
  rowid_law = λ d r rs q. (
    ap (λ ns. (inl (plain (int_value (head_or ns))), d)) q,
    refl,
    subst (λ n. fits_int64 n ≡ true) (ap head_or q) (head-fits d),
  );
  step = rest_of;
  next_law = λ d r rs q. (refl, numbers-rest d ∙ ap tail q);
}

scan_all_example :
    (d : List Bool) × (scan over_list (suc (length (numbers starting.db))) list_cursor starting
      ≡ some (pos 7 ∷ pos 4 ∷ [], record starting { db = d; exc = none }))
scan_all_example = scan_all over_list list_cursor list_laws starting refl

abbrev context : Context (List Bool)
context = record { calls = []; world = starting }

abbrev added : Change
added =
    change_row column_null column_null
      (record { unchanged = false; value = column_integer (pos 5) } ∷ [])

-- The table has no methods but those of its cursor, so that some of the callbacks fail.
code-Tells_example :
    TellsOf (transaction_method over_list (object 0) begin starting)
    × TellsOf (nested_transaction over_list (object 0) begin (pos 2) starting)
    × TellsOf (x_rename over_list (object 0) none starting)
    × Tells
        (x_open over_list (object 0) false starting).0
        (x_open over_list (object 0) false starting).2
    × Tells
        (x_update over_list (object 0) false added starting).0
        (x_update over_list (object 0) false added starting).2
    × TellsOf (x_filter over_list list_cursor (pos 0) none (column_integer (pos 3) ∷ []) starting)
    × Tells
        (x_column over_list list_cursor false (pos 0) context).0
        (x_column over_list list_cursor false (pos 0) context).1.world
    × Tells (x_rowid over_list list_cursor starting).0 (x_rowid over_list list_cursor starting).2
    × TellsOf (x_next over_list list_cursor starting)
    × TellsOf (x_close over_list list_cursor starting)
    × Ends false [] (x_destroy over_list (object 0) starting)
    × Ends true [] (x_disconnect over_list (object 0) starting)
code-Tells_example =
    code-Tells over_list (object 0) list_cursor begin (pos 2) (pos 0) none
      (column_integer (pos 3) ∷ []) added false false context refl
