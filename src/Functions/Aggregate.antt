-- ===== src/Functions/Aggregate.antt =====
-- Aggregate functions (`getaggregatefunctioncontext`, `cbdispatch_step` and `cbdispatch_final` of
-- src/connection.c).
use mathlib.Core.Option
use apsw.Prelude.{
  ℕ, Bool, true, false, Option, none, some, List, [], ◌∷◌, if◌then◌else◌, ◌⊎◌, inl, inr, not, ◌||◌,
  is_some,
}
use Prim.Native.String.{String}
use apsw.Errors.{Exn, ExcClass, raised}
use apsw.World.{write_unraisable}
use apsw.Cursor.Execute.{Column}
use apsw.Functions.{
  PyObject, Context, Member, Made, made_tuple, made_list, made_object, FunctionApi, raised_in,
  set_result, result_error, set_exception, with_args, call_python, by_exception, use_result,
}

-- `afcUNINIT`, `afcOK` and `afcERROR`.
pub data AggregateState : Type 0 where
  afc_uninit afc_ok afc_error : AggregateState

-- `aggregatefunctioncontext`; SQLite gives it as zeros.
pub record Aggregate : Type 0 where
  pub state : AggregateState
  pub aggvalue : Option PyObject
  pub stepfunc : Option ℕ
  pub finalfunc : Option ℕ

abbrev pub fresh : Aggregate
fresh = record { state = afc_uninit; aggvalue = none; stepfunc = none; finalfunc = none }

abbrev pub type_error : String → Exn
type_error = raised ExcClass.type_error

-- `PyCallable_Check`, with the exception that is raised where it fails.
abbrev pub callable_or : String → Member → ℕ ⊎ Exn
callable_or msg m = elim m.callable [ none ↦ inr (type_error msg) | some f ↦ inl f ]

-- `PyObject_GetAttr` and the check that it is callable.
abbrev pub attribute_or : String → Member ⊎ Exn → ℕ ⊎ Exn
attribute_or msg (inl m) = callable_or msg m
attribute_or msg (inr e) = inr e

-- What a factory hands over: the object, where there is one, the step and the final function.
pub record Parts : Type 0 where
  pub value : Option PyObject
  pub step : ℕ
  pub final : ℕ

-- Both functions, or the exception of the first that fails.
abbrev pub both : Option PyObject → ℕ ⊎ Exn → ℕ ⊎ Exn → Parts ⊎ Exn
both v (inr e) g = inr e
both v (inl f) (inr e) = inr e
both v (inl f) (inl g) = inl (record { value = v; step = f; final = g })

abbrev not_three : Parts ⊎ Exn
not_three = inr (
    type_error
      "Aggregate factory should return 3 item tuple of (object, stepfunction, finalfunction)")

-- What the factory returned, as its parts; a list has no attribute `step`.
unfoldable pub parts_of : Exn → Made → Parts ⊎ Exn
parts_of no_attribute (made_tuple (v ∷ s ∷ f ∷ [])) =
    both (some v.item) (callable_or "stepfunction must be callable" s)
      (callable_or "final function must be callable" f)
parts_of no_attribute (made_tuple []) = not_three
parts_of no_attribute (made_tuple (v ∷ [])) = not_three
parts_of no_attribute (made_tuple (v ∷ s ∷ [])) = not_three
parts_of no_attribute (made_tuple (v ∷ s ∷ f ∷ x ∷ xs)) = not_three
parts_of no_attribute (made_list ms) = inr no_attribute
parts_of no_attribute (made_object s f value inverse) =
    both none (attribute_or "aggregate step function must be callable" s)
      (attribute_or "aggregate final function must be callable" f)

-- The context with the parts.
abbrev pub with_parts : Parts → Aggregate
with_parts p = record {
  state = afc_ok;
  aggvalue = p.value;
  stepfunc = some p.step;
  finalfunc = some p.final;
}

-- The object, where there is one, goes before the arguments.
abbrev pub with_value : Option PyObject → List PyObject → List PyObject
with_value none vargs = vargs
with_value (some v) vargs = v ∷ vargs

module _ {S : Type 0} where
  -- The exception that was there before comes back; another one goes to the hook.
  unfoldable pub restored : Option Exn → Context S → Context S
  restored none c = c
  restored (some e) c =
      set_exception e (if raised_in c then record c { world = write_unraisable c.world } else c)

module _ {S : Type 0} (api : FunctionApi S) where
  unfoldable pub keep_parts : Parts ⊎ Exn → S → Context S → Bool × Aggregate × Context S
  keep_parts (inl p) d c = (true, with_parts p, record c { world = record c.world { db = d } })
  keep_parts (inr e) d c = (
    true,
    record fresh { state = afc_error },
    record c { world = record c.world { db = d; exc = some e } },
  )

  -- What `getaggregatefunctioncontext` does with what the factory left; the flag is whether the pointer
  -- that it returns is there.
  unfoldable pub store_made :
      (Made ⊎ Exn) × S → Aggregate → Context S → Bool × Aggregate × Context S
  store_made (inr e, d) a c = (
    false,
    record a { state = afc_error },
    record c { world = record c.world { db = d; exc = some e } },
  )
  store_made (inl m, d) a c = keep_parts (parts_of api.attribute_error m) d c

  -- `getaggregatefunctioncontext`.
  unfoldable pub getaggregatefunctioncontext :
      ℕ → Aggregate → Context S → Bool × Aggregate × Context S
  getaggregatefunctioncontext f a c =
      if not (api.aggregate_memory c.world.db)
      then (false, a, set_exception api.memory_error c)
      else elim a.state [
        | afc_ok ↦ (true, a, c)
        | afc_error ↦ (false, a, c)
        | afc_uninit ↦ store_made (api.factory c.world.db f) a c
      ]

  -- The call of the step function on a row; `none` is a call through a null pointer.
  unfoldable pub call_step : Aggregate → List Column → Context S → Option (Context S)
  call_step a argv c = with_args api argv c some (λ vargs. elim a.stepfunc [
    | none ↦ none
    | some s ↦ some (call_python api s (with_value a.aggvalue vargs) c).1
  ])

  unfoldable pub step_with :
      List Column → Bool × Aggregate × Context S → Option (Aggregate × Context S)
  step_with argv (got, a, c) =
      if not got || raised_in c
      then some (a, c)
      else Option.map (λ c'. (a, c')) (call_step a argv c)

  -- `cbdispatch_step`.
  unfoldable pub cbdispatch_step :
      ℕ → List Column → Aggregate → Context S → Option (Aggregate × Context S)
  cbdispatch_step f argv a c =
      by_exception c.world.exc (λ e. some (a, c))
        (step_with argv (getaggregatefunctioncontext f a c))

  -- The final function and its result.
  unfoldable pub call_final : Aggregate → ℕ → Context S → Context S
  call_final a g c = use_result api (call_python api g (with_value a.aggvalue []) c)

  unfoldable pub final_with : Option Exn → Bool × Aggregate × Context S → Aggregate × Context S
  final_with saved (false, a, c) = (a, c)
  final_with saved (true, a, c) = (
    record a { aggvalue = none; stepfunc = none; finalfunc = none },
    if is_some saved || raised_in c || not (is_some a.finalfunc)
        then set_result (result_error (some "Prior Python Error in step function")) c
        else elim a.finalfunc [ none ↦ c | some g ↦ call_final a g c ],
  )

  -- `cbdispatch_final`.
  unfoldable pub cbdispatch_final : ℕ → Aggregate → Context S → Aggregate × Context S
  cbdispatch_final f a c =
      let (a', c') =
        final_with c.world.exc
          (getaggregatefunctioncontext f a (record c { world = record c.world { exc = none } })) in
      (a', restored c.world.exc c')
