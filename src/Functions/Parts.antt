-- ===== src/Functions/Parts.antt =====
-- The context of a window function, and what its factory hands over (`windowfunctioncontext` and
-- `get_window_function_context_wrapped` of src/connection.c).
use apsw.Prelude.{ℕ, Option, none, some, List, [], ◌∷◌, ◌⊎◌, inl, inr}
use apsw.Errors.{Exn}
use apsw.Functions.{PyObject, Member, Made, made_tuple, made_list, made_object}
use apsw.Functions.Aggregate.{type_error, callable_or, attribute_or}

-- `wfcUNINIT`, `wfcOK` and `wfcERROR`.
pub data WindowState : Type 0 where
  wfc_uninit wfc_ok wfc_error : WindowState

-- `windowfunctioncontext`; SQLite gives it as zeros.
pub record Window : Type 0 where
  pub state : WindowState
  pub aggvalue : Option PyObject
  pub stepfunc : Option ℕ
  pub finalfunc : Option ℕ
  pub valuefunc : Option ℕ
  pub inversefunc : Option ℕ

-- A context that holds nothing.
abbrev pub empty : WindowState → Window
empty s = record {
  state = s;
  aggvalue = none;
  stepfunc = none;
  finalfunc = none;
  valuefunc = none;
  inversefunc = none;
}

-- What a factory hands over: the object, where there is one, and the four functions.
pub record WindowParts : Type 0 where
  pub item : Option PyObject
  pub step : ℕ
  pub final : ℕ
  pub value : ℕ
  pub inverse : ℕ

-- The context with the parts.
abbrev pub holding : WindowParts → Window
holding p = record {
  state = wfc_ok;
  aggvalue = p.item;
  stepfunc = some p.step;
  finalfunc = some p.final;
  valuefunc = some p.value;
  inversefunc = some p.inverse;
}

-- All four, or the exception of the first that fails.
abbrev pub all_four : Option PyObject → ℕ ⊎ Exn → ℕ ⊎ Exn → ℕ ⊎ Exn → ℕ ⊎ Exn → WindowParts ⊎ Exn
all_four v (inr e) f g h = inr e
all_four v (inl s) (inr e) g h = inr e
all_four v (inl s) (inl f) (inr e) h = inr e
all_four v (inl s) (inl f) (inl g) (inr e) = inr e
all_four v (inl s) (inl f) (inl g) (inl h) =
    inl (record { item = v; step = s; final = f; value = g; inverse = h })

-- The items of a sequence of five.
abbrev pub five_items : List Member → WindowParts ⊎ Exn
five_items (v ∷ s ∷ f ∷ g ∷ h ∷ []) =
    all_four (some v.item) (callable_or "Expected item 1 (step) to be callable" s)
      (callable_or "Expected item 2 (final) to be callable" f)
      (callable_or "Expected item 3 (value) to be callable" g)
      (callable_or "Expected item 4 (inverse) to be callable" h)
five_items [] = inr (type_error "Expected a 5 item sequence")
five_items (a ∷ []) = inr (type_error "Expected a 5 item sequence")
five_items (a ∷ b ∷ []) = inr (type_error "Expected a 5 item sequence")
five_items (a ∷ b ∷ c ∷ []) = inr (type_error "Expected a 5 item sequence")
five_items (a ∷ b ∷ c ∷ d ∷ []) = inr (type_error "Expected a 5 item sequence")
five_items (a ∷ b ∷ c ∷ d ∷ e ∷ x ∷ xs) = inr (type_error "Expected a 5 item sequence")

-- What the factory returned, as its parts.
unfoldable pub window_parts_of : Made → WindowParts ⊎ Exn
window_parts_of (made_tuple ms) = five_items ms
window_parts_of (made_list ms) = five_items ms
window_parts_of (made_object s f g h) =
    all_four none (attribute_or "Expected callable window function step" s)
      (attribute_or "Expected callable window function final" f)
      (attribute_or "Expected callable window function value" g)
      (attribute_or "Expected callable window function inverse" h)
