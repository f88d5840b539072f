-- ===== src/Functions/Fold.antt =====
-- An aggregate over the rows of a group is the program of Python (src/connection.c).
use mathlib.Core.Option
use apsw.Prelude.{ℕ, ◌≡◌, true, Option, none, some, List, ◌⊎◌, inl, inr}
use apsw.Errors.{Exn}
use apsw.World.{World}
use apsw.Functions.{PyObject, ResultCall, Context, FunctionApi, set_context_result}
use apsw.Functions.Aggregate.{afc_error, Aggregate, fresh, Parts, with_parts}

-- A context, by the calls on it, SQLite's state and the exception, in a world.
abbrev pub at : {S : Type 0} → World S → List ResultCall → S → Option Exn → Context S
at w k d x = record { calls = k; world = record w { db = d; exc = x } }

abbrev pub Released : Aggregate → Type 0
Released a = (a.aggvalue ≡ none) × (a.stepfunc ≡ none) × (a.finalfunc ≡ none)

module _ {S : Type 0} (api : FunctionApi S) (memory : (d : S) → api.aggregate_memory d ≡ true)
    (f : ℕ) where
  -- A context of an aggregate that is past its first call.
  data Settled : Aggregate → Type 0 where
    settled_ok : (p : Parts) → Settled (with_parts p)
    settled_error : Settled (record fresh { state = afc_error })

  -- Once there is an exception, it and SQLite's state are as they are after the last call.
  Stays : World S → S → Exn → Option (Aggregate × Context S) → Type 0
  Stays w d e out =
      (r : Aggregate × Context S) × (out ≡ some r)
      × Released r.0
      × (r.1.world ≡ record w { db = d; exc = some e })

  -- A step is the step of the program, with the exception where it raises.
  StepAgrees :
      Parts → World S → List ResultCall → Option Exn × S → Option (Aggregate × Context S) → Type 0
  StepAgrees p w k (none, d) out = out ≡ some (with_parts p, at w k d none)
  StepAgrees p w k (some e, d) out =
      (k' : List ResultCall) × (out ≡ some (with_parts p, at w k' d (some e)))

  -- How the context and the world end, by what the program gives.
  unfoldable pub Ends : World S → List ResultCall → (PyObject ⊎ Exn) × S → Context S → Type 0
  Ends w k (inl v, d) c = c ≡ (set_context_result api v (at w k d none)).1
  Ends w k (inr e, d) c = c.world ≡ record w { db = d; exc = some e }

  unfoldable pub Computes :
      World S → List ResultCall → (PyObject ⊎ Exn) × S → Option (Aggregate × Context S) → Type 0
  Computes w k ref out =
      (r : Aggregate × Context S) × (out ≡ some r) × Released r.0 × Ends w k ref r.1
