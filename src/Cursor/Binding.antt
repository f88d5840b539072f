-- ===== src/Cursor/Binding.antt =====
-- The binding of values to the parameters of a statement (`APSWCursor_dobinding` and
-- `APSWCursor_dobindings` of src/cursor.c).
use apsw.Prelude.{
  ℕ, zero, suc, ◌+◌, ◌-◌, ◌^◌, Bool, true, false, Option, none, some, List, ◌==◌, if◌then◌else◌,
  ◌&&◌, not, ◌>>=◌, length, get_elem?, drop, ltb,
}
use apsw.Prelude.Int.{ℤ, pos, negsuc, ◌-ℤ◌, ltb_ℤ, eq_ℤ, wrap32}
use apsw.Errors.{ExcClass, sqlite_ok}
use apsw.World.{
  World, Call, Bound, bind_null, bind_int64, bind_double, bind_text64, bind_blob64, bind_zeroblob64,
  sqlite_call, set_exc, occurred, err_format, raise,
}
use apsw.StatementCache.{Statement, hasmore}
use apsw.Cursor.{
  CursorApi, Cursor, Value, none_value, int_value, float_value, str_value, buffer_value,
  zeroblob_value, other_value, Bindings, no_bindings, null_bindings, mapping, sequence,
}

-- The numbers of `long long`.
unfoldable pub fits_int64 : ℤ → Bool
fits_int64 (pos n) = ltb n (2 ^ 63)
fits_int64 (negsuc n) = ltb n (2 ^ 63)

module _ {S : Type 0} (api : CursorApi S) where
  -- One call of `sqlite3_bind_*`, with what `APSWCursor_dobinding` does after it.
  unfoldable pub bind_call : Option ℕ → ℕ → Bound → World S → Bool × World S
  bind_call vdbe arg v w =
      let (res, w') = sqlite_call (Call.bind arg v) (λ d. api.bind d vdbe arg v) w in
      if not (res == sqlite_ok) then (false, set_exc res w') else (not (occurred w'), w')

  -- `APSWCursor_dobinding`; the flag says that it succeeds. A number that is too large is bound as
  -- -1, with the exception of Python set.
  unfoldable pub dobinding : Option ℕ → ℕ → Value → World S → Bool × World S
  dobinding vdbe arg none_value w = bind_call vdbe arg bind_null w
  dobinding vdbe arg (int_value v) w =
      if fits_int64 v
      then bind_call vdbe arg (bind_int64 v) w
      else bind_call vdbe arg (bind_int64 (negsuc 0)) (record w { exc = some api.int_error })
  dobinding vdbe arg (float_value v) w = bind_call vdbe arg (bind_double v) w
  dobinding vdbe arg (str_value (some t)) w = bind_call vdbe arg (bind_text64 t) w
  dobinding vdbe arg (str_value none) w = (false, record w { exc = some api.str_error })
  dobinding vdbe arg (buffer_value (some t)) w = bind_call vdbe arg (bind_blob64 t) w
  dobinding vdbe arg (buffer_value none) w = (false, record w { exc = some api.buffer_error })
  dobinding vdbe arg (zeroblob_value n) w = bind_call vdbe arg (bind_zeroblob64 n) w
  dobinding vdbe arg other_value w =
      (false, err_format ExcClass.type_error "Bad binding argument type supplied" w)

  -- The item of a mapping for a name: with `allow_missing`, of a `dict`, without an exception.
  unfoldable pub item_of : Bool → ℕ → List ℕ → World S → Option Value × World S
  item_of is_dict m key w =
      if is_dict && api.allow_missing
      then (api.dict_item w.db m key, w)
      else let (item, exn, d) = api.mapping_item w.db m key in
        (item, record w { db = d; exc = raise exn w.exc })

  -- One round of the loop over the parameters, for a mapping, from the name of the parameter.
  unfoldable pub bind_item : Option ℕ → ℕ → Option Value × World S → Bool × World S
  bind_item vdbe arg (none, w) = (not (occurred w), w)
  bind_item vdbe arg (some v, w) = if occurred w then (false, w) else dobinding vdbe arg v w

  unfoldable pub bind_named : Option ℕ → ℕ → Option (List ℕ) → Bool → ℕ → World S → Bool × World S
  bind_named vdbe arg none is_dict m w = (
    false,
    err_format ExcClass.bindings_error
        "Binding has no name, but you supplied a dict (which only has names)." w,
  )
  bind_named vdbe arg (some name) is_dict m w =
      bind_item vdbe arg (item_of is_dict m (drop 1 name) w)

  -- The loop for a mapping: `n` parameters are left, from `arg` on.
  unfoldable pub bind_mapping : ℕ → ℕ → Option ℕ → Bool → ℕ → World S → Bool × World S
  bind_mapping zero arg vdbe is_dict m w = (true, w)
  bind_mapping (suc n) arg vdbe is_dict m w =
      let (ok, w') = bind_named vdbe arg (api.parameter_name w.db vdbe arg) is_dict m w in
      elim ok [ false ↦ (false, w') | true ↦ bind_mapping n (arg + 1) vdbe is_dict m w' ]

  -- One round of the loop over the parameters, for a sequence; an item out of range is `none`.
  unfoldable pub bind_then :
      Option Value
      → (Value → Bool × World S)
      → (World S → Option (Bool × World S))
      → Option (Bool × World S)
  bind_then none one rest = none
  bind_then (some v) one rest =
      let (ok, w) = one v in elim ok [ false ↦ some (false, w) | true ↦ rest w ]

  -- The loop for a sequence, whose item 0 is for the parameter 1 less the offset.
  unfoldable pub bind_sequence :
      ℕ → ℕ → Option ℕ → List Value → ℕ → World S → Option (Bool × World S)
  bind_sequence zero arg vdbe values offset w = some (true, w)
  bind_sequence (suc n) arg vdbe values offset w =
      bind_then (get_elem? values (arg - 1 + offset)) (λ v. dobinding vdbe arg v w)
        (bind_sequence n (arg + 1) vdbe values offset)

  -- The number of values that are left is the right one: enough if there are more statements, and
  -- else exactly as many as there are parameters. The size of the sequence is kept in an `int`.
  unfoldable pub count_ok : Bool → ℕ → ℕ → ℕ → Bool
  count_ok more nargs size offset =
      let left = wrap32 (pos size) -ℤ pos offset in
      if more then not (ltb_ℤ left (pos nargs)) else eq_ℤ left (pos nargs)

  unfoldable pub bind_values :
      Bool → ℕ → Option ℕ → List Value → ℕ → World S → Option (Bool × World S)
  bind_values more nargs vdbe values offset w =
      if not (count_ok more nargs (length values) offset)
      then some
          (false, err_format ExcClass.bindings_error "Incorrect number of bindings supplied." w)
      else bind_sequence nargs 1 vdbe values offset w

  unfoldable pub move_offset : Cursor → ℕ → Bool × World S → Bool × Cursor × World S
  move_offset c offset (ok, w) =
      (ok, (if ok then record c { bindingsoffset = pos offset } else c), w)

  -- The cases of `APSWCursor_dobindings`. A negative offset fails its assertion.
  unfoldable pub dobindings_on :
      Cursor → Statement → ℤ → Bindings → World S → Option (Bool × Cursor × World S)
  dobindings_on c s (negsuc k) b w = none
  dobindings_on c s (pos k) null_bindings w = some (true, c, w)
  dobindings_on c s (pos k) no_bindings w =
      let nargs = api.parameter_count w.db s.vdbestatement in
      some (
        if nargs == 0 then (true, c, w) else (
          false,
          c,
          err_format ExcClass.bindings_error "Statement has bindings but you didn't supply any!" w,
        ))
  dobindings_on c s (pos k) (mapping is_dict m) w =
      let nargs = api.parameter_count w.db s.vdbestatement in
      let (ok, w') = bind_mapping nargs 1 s.vdbestatement is_dict m w in some (ok, c, w')
  dobindings_on c s (pos k) (sequence values) w =
      let nargs = api.parameter_count w.db s.vdbestatement in
      bind_values (hasmore (some s)) nargs s.vdbestatement values k w >>= λ r.
      some (move_offset c (k + nargs) r)

  -- `APSWCursor_dobindings`; the flag says that it succeeds.
  unfoldable pub dobindings : Cursor → World S → Option (Bool × Cursor × World S)
  dobindings c w = c.statement >>= λ s. dobindings_on c s c.bindingsoffset c.bindings w
