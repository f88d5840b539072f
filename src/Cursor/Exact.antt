-- ===== src/Cursor/Exact.antt =====
-- What a successful binding has bound (src/cursor.c).
use apsw.Prelude.{
  ℕ, zero, suc, ◌+◌, ◌-◌, ◌≤◌, ◌≡◌, refl, ◌∙◌, ap, Bool, true, false, Option, none, some, List, [],
  ◌∷◌, arith, if◌then◌else◌, ◌&&◌, is_some, length, get_elem?, take, drop, Bool-cases, inl, inr,
  get_elem?-lt, length-take, length-drop, ◌>>=◌, sym,
}
use apsw.Prelude.Int.{
  ℤ, pos, negsuc, pos_part, neg_part, ◌-ℤ◌, ltb_ℤ, eq_ℤ, eq_ℤ_iff, -ℤ_parts, wrap32, wrap32_le,
}
use mathlib.Core.Path.{subst}
use apsw.World.{
  World, Call, Bound, bind_null, bind_int64, bind_double, bind_text64, bind_blob64, bind_zeroblob64,
  sqlite_call, set_exc, occurred,
}
use apsw.StatementCache.{Statement, hasmore}
use apsw.Cursor.{
  CursorApi, Cursor, Value, none_value, int_value, float_value, str_value, buffer_value,
  zeroblob_value, other_value, sequence,
}
use apsw.Cursor.Binding.{
  fits_int64, bind_call, dobinding, bind_then, bind_sequence, count_ok, bind_values, move_offset,
  dobindings_on,
}

-- The SQLite value that stands for a Python value without loss, if there is one.
abbrev pub value_of : Value → Option Bound
value_of none_value = some bind_null
value_of (int_value v) = if fits_int64 v then some (bind_int64 v) else none
value_of (float_value v) = some (bind_double v)
value_of (str_value (some t)) = some (bind_text64 t)
value_of (str_value none) = none
value_of (buffer_value (some t)) = some (bind_blob64 t)
value_of (buffer_value none) = none
value_of (zeroblob_value n) = some (bind_zeroblob64 n)
value_of other_value = none

abbrev pub call_for : ℕ → Option Bound → List Call → List Call
call_for arg none t = t
call_for arg (some b) t = Call.bind arg b ∷ t

-- The calls that bind values to the parameters from `arg` on, the newest first.
abbrev pub calls_for : ℕ → List Value → List Call → List Call
calls_for arg [] t = t
calls_for arg (v ∷ vs) t = calls_for (arg + 1) vs (call_for arg (value_of v) t)

abbrev pub all_values : List Value → Bool
all_values [] = true
all_values (v ∷ vs) = is_some (value_of v) && all_values vs

pub drop-step :
    (vs : List Value) (i : ℕ) {v : Value}
    → get_elem? vs i ≡ some v
    → drop i vs ≡ v ∷ drop (suc i) vs
drop-step [] i e = absurd (ground arith)
drop-step (x ∷ vs) zero e = ground arith
drop-step (x ∷ vs) (suc i) e = drop-step vs i e

module _ {S : Type 0} (api : CursorApi S) where
  -- The end of one binding of `v`.
  abbrev pub One : ℕ → Value → World S → Bool × World S → Type 0
  One arg v w (false, w') = occurred w' ≡ true
  One arg v w (true, w') =
      (w'.trace ≡ call_for arg (value_of v) w.trace)
      × (is_some (value_of v) ≡ true)
      × (w'.exc ≡ none)

  bind_call-One :
      (vdbe : Option ℕ) (arg : ℕ) (b : Bound) (v : Value) (w : World S)
      → w.exc ≡ none
      → value_of v ≡ some b
      → One arg v w (bind_call api vdbe arg b w)
  unfolding bind_call sqlite_call set_exc
  bind_call-One vdbe arg b v w clean e = ground arith

  -- A number that is too large fails, whatever SQLite makes of the -1.
  too_large :
      (vdbe : Option ℕ) (arg : ℕ) (v : ℤ) (w : World S)
      → One arg
          (int_value v)
          w
          (bind_call api vdbe arg (bind_int64 (negsuc 0)) (record w { exc = some api.int_error }))
  unfolding bind_call sqlite_call set_exc
  too_large vdbe arg v w = ground arith

  dobinding-One :
      (vdbe : Option ℕ) (arg : ℕ) (v : Value) (w : World S)
      → w.exc ≡ none
      → One arg v w (dobinding api vdbe arg v w)
  unfolding dobinding
  dobinding-One vdbe arg none_value w clean =
      bind_call-One vdbe arg bind_null none_value w clean refl
  dobinding-One vdbe arg (int_value v) w clean = elim (Bool-cases (fits_int64 v)) [
    | inl e ↦ rw e (bind_call-One vdbe arg (bind_int64 v) (int_value v) w clean (rw e refl))
    | inr e ↦ rw e (too_large vdbe arg v w)
  ]
  dobinding-One vdbe arg (float_value v) w clean =
      bind_call-One vdbe arg _ (float_value v) w clean refl
  dobinding-One vdbe arg (str_value (some t)) w clean =
      bind_call-One vdbe arg _ (str_value (some t)) w clean refl
  dobinding-One vdbe arg (str_value none) w clean = refl
  dobinding-One vdbe arg (buffer_value (some t)) w clean =
      bind_call-One vdbe arg _ (buffer_value (some t)) w clean refl
  dobinding-One vdbe arg (buffer_value none) w clean = refl
  dobinding-One vdbe arg (zeroblob_value n) w clean =
      bind_call-One vdbe arg _ (zeroblob_value n) w clean refl
  dobinding-One vdbe arg other_value w clean = refl

  -- The end of the loop over the values `vs`.
  abbrev pub All : ℕ → List Value → World S → Option (Bool × World S) → Type 0
  All arg vs w none = ⊥
  All arg vs w (some (false, w')) = occurred w' ≡ true
  All arg vs w (some (true, w')) =
      (w'.trace ≡ calls_for arg vs w.trace) × (all_values vs ≡ true) × (w'.exc ≡ none)

  -- After one binding, the rest of the loop; its result is the outcome of the whole loop.
  then_rest-All :
      (arg : ℕ) (v : Value) (vs : List Value) (w : World S) (one : Bool × World S)
      (rest : World S → Option (Bool × World S))
      → One arg v w one
      → ((w' : World S) → w'.exc ≡ none → All (arg + 1) vs w' (rest w'))
      → All arg (v ∷ vs) w (elim one.0 [ false ↦ some (false, one.1) | true ↦ rest one.1 ])
  then_rest-All arg v vs w (false, w') rest one h = one
  then_rest-All arg v vs w (true, w') rest one h = moved (rest w') (h w' one.2)
    where
      moved : (r : Option (Bool × World S)) → All (arg + 1) vs w' r → All arg (v ∷ vs) w r
      moved none o = o
      moved (some (false, w'')) o = o
      moved (some (true, w'')) o =
          (o.0 ∙ ap (calls_for (arg + 1) vs) one.0, ground (arith, one.1, o.1), o.2)

  bind_sequence-All :
      (n arg j : ℕ) (vdbe : Option ℕ) (values : List Value) (offset : ℕ) (w : World S)
      → 1 ≤ arg
      → arg - 1 + offset ≡ j
      → j + n ≤ length values
      → w.exc ≡ none
      → All arg (take n (drop j values)) w (bind_sequence api n arg vdbe values offset w)
  unfolding bind_sequence bind_then
  bind_sequence-All zero arg j vdbe values offset w first at_j fits clean = (refl, refl, clean)
  bind_sequence-All (suc n) arg j vdbe values offset w first at_j fits clean =
      let (v, e) = get_elem?-lt values j (omega (arith, fits)) in
      let rest : World S → Option (Bool × World S) =
        bind_sequence api n (arg + 1) vdbe values offset in
      let one : Value → Bool × World S = λ x. dobinding api vdbe arg x w in
      subst
        (λ l.
          All arg (take (suc n) l) w (bind_then api (get_elem? values (arg - 1 + offset)) one rest))
        (sym (drop-step values j e))
        (subst (λ g. All arg (v ∷ take n (drop (suc j) values)) w (bind_then api g one rest))
          (sym (ap (get_elem? values) at_j ∙ e))
          (then_rest-All arg v (take n (drop (suc j) values)) w (one v) rest
            (dobinding-One vdbe arg v w clean)
            (λ w' clean'.
              bind_sequence-All n (arg + 1) (suc j) vdbe values offset w' (omega arith)
                (omega (arith, first, at_j)) (omega (arith, fits)) clean')))

  -- The end of `APSWCursor_dobindings` on a sequence, of which `nargs` values from the offset on are
  -- for this statement: it runs out of no array; it raises, and stays at its offset; or it has bound
  -- these values and no others, in order from parameter 1, each as the SQLite value that stands for
  -- it, and the offset is after them.
  abbrev pub BindsSequence :
      ℕ → ℕ → List Value → World S → Cursor → Option (Bool × Cursor × World S) → Type 0
  BindsSequence k nargs values w c none = ⊥
  BindsSequence k nargs values w c (some (false, c', w')) = (occurred w' ≡ true) × (c' ≡ c)
  BindsSequence k nargs values w c (some (true, c', w')) =
      let mine = take nargs (drop k values) in
      (w'.trace ≡ calls_for 1 mine w.trace)
      × (all_values mine ≡ true)
      × (length mine ≡ nargs)
      × (c' ≡ record c { bindingsoffset = pos (k + nargs) })
      × (w'.exc ≡ none)

  moved-BindsSequence :
      (k nargs : ℕ) (values : List Value) (w : World S) (c : Cursor) (r : Option (Bool × World S))
      → k + nargs ≤ length values
      → All 1 (take nargs (drop k values)) w r
      → BindsSequence k nargs values w c (r >>= λ x. some (move_offset api c (k + nargs) x))
  unfolding move_offset
  moved-BindsSequence k nargs values w c none fits o = o
  moved-BindsSequence k nargs values w c (some (false, w')) fits o = (o, refl)
  moved-BindsSequence k nargs values w c (some (true, w')) fits o = (
    o.0,
    o.1,
    omega (arith, length-take nargs (drop k values), length-drop k values, fits),
    refl,
    o.2,
  )

  sub-fits : (nargs k : ℕ) (z : ℤ) → ltb_ℤ (z -ℤ pos k) (pos nargs) ≡ false → k + nargs ≤ pos_part z
  sub-fits nargs k z e = ground (arith, -ℤ_parts z (pos k), e)

  sub-exact : (nargs k : ℕ) (z : ℤ) → eq_ℤ (z -ℤ pos k) (pos nargs) ≡ true → k + nargs ≤ pos_part z
  sub-exact nargs k z e =
      let same : z -ℤ pos k ≡ pos nargs = (eq_ℤ_iff (z -ℤ pos k) (pos nargs)).0 e in
      ground (arith, -ℤ_parts z (pos k), ap pos_part same, ap neg_part same)

  count_ok-fits :
      (more : Bool) (nargs size k : ℕ) → count_ok api more nargs size k ≡ true → k + nargs ≤ size
  unfolding count_ok
  count_ok-fits true nargs size k ok =
      let fits : k + nargs ≤ pos_part (wrap32 (pos size)) =
        sub-fits nargs k (wrap32 (pos size)) (ground arith) in
      omega (arith, fits, wrap32_le size)
  count_ok-fits false nargs size k ok =
      omega (arith, sub-exact nargs k (wrap32 (pos size)) ok, wrap32_le size)

  bind_values-BindsSequence :
      (more : Bool) (vdbe : Option ℕ) (k nargs : ℕ) (values : List Value) (w : World S) (c : Cursor)
      → w.exc ≡ none
      → BindsSequence k nargs values w c (
          bind_values api more nargs vdbe values k w >>= λ x.
          some (move_offset api c (k + nargs) x))
  unfolding bind_values
  bind_values-BindsSequence more vdbe k nargs values w c clean =
      elim (Bool-cases (count_ok api more nargs (length values) k)) [
        | inr e ↦ rw e (unfold move_offset in (refl, refl))
        | inl e ↦ rw e (
            moved-BindsSequence k nargs values w c _ (count_ok-fits more nargs (length values) k e)
              (bind_sequence-All nargs 1 k vdbe values k w (omega arith) (omega arith)
                (count_ok-fits more nargs (length values) k e) clean))
      ]

  -- Binding a sequence, at an offset that is not negative and with no exception pending, on every
  -- branch: it never reads past the sequence; it raises, and stays at its offset; or each parameter
  -- of this statement has got its value, in order, by one call of SQLite each and no others, every
  -- value as the SQLite value that stands for it, and the offset is after the values that are used.
  pub dobindings-BindsSequence :
      (c : Cursor) (s : Statement) (k : ℕ) (values : List Value) (w : World S)
      → w.exc ≡ none
      → BindsSequence k
          (api.parameter_count w.db s.vdbestatement)
          values
          w
          c
          (dobindings_on api c s (pos k) (sequence values) w)
  unfolding dobindings_on
  dobindings-BindsSequence c s k values w clean =
      bind_values-BindsSequence (hasmore (some s)) s.vdbestatement k
        (api.parameter_count w.db s.vdbestatement) values w c clean
