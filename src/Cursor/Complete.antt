-- ===== src/Cursor/Complete.antt =====
-- When a binding of a sequence succeeds, and what happens to a wrong number of values
-- (src/cursor.c).
use apsw.Prelude.{
  ℕ, zero, suc, ◌+◌, ◌-◌, ◌^◌, ◌≤◌, ◌<◌, ◌≡◌, refl, ◌∙◌, ap, sym, Bool, true, false, Option, none,
  some, List, ◌∷◌, arith, ◌==◌, if◌then◌else◌, is_some, length, get_elem?, take, drop, leb,
  Bool-cases, inl, inr, get_elem?-lt, ◌>>=◌,
}
use apsw.Prelude.Int.{ℤ, pos, negsuc, pos_part, neg_part, ◌-ℤ◌, eq_ℤ, -ℤ_parts, wrap32_small}
use mathlib.Core.Path.{subst}
use apsw.Errors.{ExcClass, raised}
use apsw.World.{World, Bound, sqlite_call, bind_int64}
use apsw.StatementCache.{Statement, hasmore}
use apsw.Cursor.{
  CursorApi, Cursor, Value, none_value, int_value, float_value, str_value, buffer_value,
  zeroblob_value, other_value, sequence,
}
use apsw.Cursor.Binding.{
  fits_int64, bind_call, dobinding, bind_then, bind_sequence, count_ok, bind_values, move_offset,
  dobindings_on,
}
use apsw.Cursor.Exact.{value_of, all_values, drop-step}

-- The right number of values: those from `k` on are enough, or exactly enough for a last statement.
abbrev pub right_count : Bool → ℕ → ℕ → ℕ → Bool
right_count more nargs size k = if more then leb (k + nargs) size else k + nargs == size

left_exact :
    (z : ℤ) (nargs size k : ℕ)
    → pos_part z + k ≡ neg_part z + size
    → eq_ℤ z (pos nargs) ≡ (k + nargs == size)
left_exact (pos a) nargs size k e = ground (arith, e)
left_exact (negsuc a) nargs size k e = ground (arith, e)

module _ {S : Type 0} (api : CursorApi S) where
  count_ok-right_count :
      (more : Bool) (nargs size k : ℕ)
      → size < 2 ^ 31
      → count_ok api more nargs size k ≡ right_count more nargs size k
  unfolding count_ok
  count_ok-right_count true nargs size k small =
      rw (wrap32_small size small) (ground (arith, -ℤ_parts (pos size) (pos k)))
  count_ok-right_count false nargs size k small =
      rw (wrap32_small size small)
        (left_exact (pos size -ℤ pos k) nargs size k (omega (arith, -ℤ_parts (pos size) (pos k))))

  -- The binding of `v` succeeds.
  abbrev pub Passes : World S → Bool × World S → Type 0
  Passes w r = (r.0 ≡ true) × (r.1.exc ≡ none)

  -- SQLite takes every value.
  abbrev pub Takes : Option ℕ → Type 0
  Takes vdbe =
      (d : S) (arg : ℕ) (b : Bound)
      → ((api.bind d vdbe arg b).0 ≡ 0) × ((api.bind d vdbe arg b).1 ≡ none)

  bind_call-Passes :
      (vdbe : Option ℕ) (arg : ℕ) (b : Bound) (w : World S)
      → Takes vdbe
      → w.exc ≡ none
      → Passes w (bind_call api vdbe arg b w)
  unfolding bind_call sqlite_call
  bind_call-Passes vdbe arg b w takes clean =
      (ground (arith, takes w.db arg b), ground (arith, takes w.db arg b))

  dobinding-Passes :
      (vdbe : Option ℕ) (arg : ℕ) (v : Value) (w : World S)
      → Takes vdbe
      → is_some (value_of v) ≡ true
      → w.exc ≡ none
      → Passes w (dobinding api vdbe arg v w)
  unfolding dobinding
  dobinding-Passes vdbe arg none_value w takes good clean =
      bind_call-Passes vdbe arg _ w takes clean
  dobinding-Passes vdbe arg (int_value v) w takes good clean = elim (Bool-cases (fits_int64 v)) [
    | inl e ↦ rw e (bind_call-Passes vdbe arg (bind_int64 v) w takes clean)
    | inr e ↦ absurd (ground (arith, e, good))
  ]
  dobinding-Passes vdbe arg (float_value v) w takes good clean =
      bind_call-Passes vdbe arg _ w takes clean
  dobinding-Passes vdbe arg (str_value (some t)) w takes good clean =
      bind_call-Passes vdbe arg _ w takes clean
  dobinding-Passes vdbe arg (str_value none) w takes good clean = absurd (ground (arith, good))
  dobinding-Passes vdbe arg (buffer_value (some t)) w takes good clean =
      bind_call-Passes vdbe arg _ w takes clean
  dobinding-Passes vdbe arg (buffer_value none) w takes good clean = absurd (ground (arith, good))
  dobinding-Passes vdbe arg (zeroblob_value n) w takes good clean =
      bind_call-Passes vdbe arg _ w takes clean
  dobinding-Passes vdbe arg other_value w takes good clean = absurd (ground (arith, good))

  -- The loop ends well.
  abbrev pub passed : Option (Bool × World S) → Bool
  passed none = false
  passed (some (ok, w)) = ok

  passed-rest :
      (v : Value) (w : World S) (one : Bool × World S) (rest : World S → Option (Bool × World S))
      → Passes w one
      → ((w' : World S) → w'.exc ≡ none → passed (rest w') ≡ true)
      → passed (elim one.0 [ false ↦ some (false, one.1) | true ↦ rest one.1 ]) ≡ true
  passed-rest v w (false, w') rest one h = absurd (ground (arith, one.0))
  passed-rest v w (true, w') rest one h = h w' one.1

  passed-bind_sequence :
      (n arg j : ℕ) (vdbe : Option ℕ) (values : List Value) (offset : ℕ) (w : World S)
      → 1 ≤ arg
      → arg - 1 + offset ≡ j
      → j + n ≤ length values
      → Takes vdbe
      → all_values (take n (drop j values)) ≡ true
      → w.exc ≡ none
      → passed (bind_sequence api n arg vdbe values offset w) ≡ true
  unfolding bind_sequence bind_then
  passed-bind_sequence zero arg j vdbe values offset w first at_j fits takes good clean = refl
  passed-bind_sequence (suc n) arg j vdbe values offset w first at_j fits takes good clean =
      let (v, e) = get_elem?-lt values j (omega (arith, fits)) in
      let rest : World S → Option (Bool × World S) =
        bind_sequence api n (arg + 1) vdbe values offset in
      let one : Value → Bool × World S = λ x. dobinding api vdbe arg x w in
      let all_good : all_values (v ∷ take n (drop (suc j) values)) ≡ true =
        subst (λ l. all_values (take (suc n) l) ≡ true) (drop-step values j e) good in
      subst (λ g. passed (bind_then api g one rest) ≡ true) (sym (ap (get_elem? values) at_j ∙ e))
        (passed-rest v w (one v) rest
          (dobinding-Passes vdbe arg v w takes (ground (arith, all_good)) clean)
          (λ w' clean'.
            passed-bind_sequence n (arg + 1) (suc j) vdbe values offset w' (omega arith)
              (omega (arith, first, at_j)) (omega (arith, fits)) takes (ground (arith, all_good))
              clean'))

  -- What `APSWCursor_dobindings` comes to: its flag.
  abbrev pub succeeds : Option (Bool × Cursor × World S) → Bool
  succeeds none = false
  succeeds (some (ok, c, w)) = ok

  succeeds-moved :
      (c : Cursor) (offset : ℕ) (r : Option (Bool × World S))
      → passed r ≡ true
      → succeeds (r >>= λ x. some (move_offset api c offset x)) ≡ true
  unfolding move_offset
  succeeds-moved c offset none e = e
  succeeds-moved c offset (some (ok, w)) e = e

  right_count-fits :
      (more : Bool) (nargs size k : ℕ) → right_count more nargs size k ≡ true → k + nargs ≤ size
  right_count-fits true nargs size k e = ground (arith, e)
  right_count-fits false nargs size k e = ground (arith, e)

  -- If SQLite takes every value, binding a sequence succeeds whenever its number of values is the
  -- right one and each value that is used has an SQLite value that stands for it: enough values if
  -- there are more statements in the text, and for the last statement all that are left. The offset
  -- is not negative, the values are fewer than 2 ^ 31, and no exception is pending.
  pub dobindings_succeeds :
      (c : Cursor) (s : Statement) (k : ℕ) (values : List Value) (w : World S)
      → w.exc ≡ none
      → length values < 2 ^ 31
      → Takes s.vdbestatement
      → let nargs = api.parameter_count w.db s.vdbestatement in
        right_count (hasmore (some s)) nargs (length values) k ≡ true
        → all_values (take nargs (drop k values)) ≡ true
        → succeeds (dobindings_on api c s (pos k) (sequence values) w) ≡ true
  unfolding dobindings_on bind_values
  dobindings_succeeds c s k values w clean small takes right good =
      let nargs = api.parameter_count w.db s.vdbestatement in
      rw (count_ok-right_count (hasmore (some s)) nargs (length values) k small ∙ right) (
        succeeds-moved c (k + nargs) _ (
          passed-bind_sequence nargs 1 k s.vdbestatement values k w (omega arith) (omega arith)
            (right_count-fits (hasmore (some s)) nargs (length values) k right) takes good clean))

  -- With a wrong number of values, fewer than 2 ^ 31, binding a sequence fails with BindingsError before any value is
  -- bound, and nothing else changes.
  pub dobindings_wrong_count :
      (c : Cursor) (s : Statement) (k : ℕ) (values : List Value) (w : World S)
      → length values < 2 ^ 31
      → right_count (hasmore (some s)) (api.parameter_count w.db s.vdbestatement) (length values) k
        ≡ false
      → dobindings_on api c s (pos k) (sequence values) w
        ≡ some (
          false,
          c,
          record w {
            exc = some (raised ExcClass.bindings_error "Incorrect number of bindings supplied.");
          },
        )
  unfolding dobindings_on bind_values move_offset
  dobindings_wrong_count c s k values w small wrong =
      let nargs = api.parameter_count w.db s.vdbestatement in
      rw (count_ok-right_count (hasmore (some s)) nargs (length values) k small ∙ wrong) refl
