-- ===== src/Functions/Register.antt =====
-- Registering SQL functions in Python (src/connection.c).
use apsw.Prelude.{ℕ, suc, ◌-◌, Bool, false, Option, none, some, List, [], ◌∷◌, if◌then◌else◌, not}
use apsw.Prelude.Int.{ℤ}
use apsw.Errors.{Exn, ExcClass}
use apsw.World.{World, raise, set_exc, occurred, err_format, threading_violation, update}

-- Which of the three kinds of functions, for `create_scalar_function` and its like.
pub data FunctionKind : Type 0 where
  scalar aggregate window : FunctionKind

-- The call of SQLite that registers or deletes a function, with the name, the number of arguments and
-- the flags.
pub record Registration : Type 0 where
  pub kind : FunctionKind
  pub name : List ℕ
  pub numargs : ℤ
  pub flags : ℕ

-- The memory for a `FunctionCBInfo`; SQLite's answer to a registration of it, or of none; and the ones
-- for which SQLite calls `apsw_free_func` meanwhile.
pub record RegisterApi (S : Type 0) : Type 0 where
  pub has_memory : S → Bool
  pub register : S → Registration → Option ℕ → ℕ × Option Exn × S
  pub destroyed : S → Registration → Option ℕ → List ℕ

-- The objects `FunctionCBInfo`, numbered as they are made: how many there have been, the references to
-- each, and its callable.
pub record Infos : Type 0 where
  pub count : ℕ
  pub refs : ℕ → ℕ
  pub callable : ℕ → Option ℕ

-- `allocfunccbinfo`, and the reference to the callable.
unfoldable pub allocfunccbinfo : ℕ → Infos → Infos
allocfunccbinfo f i = record {
  count = suc i.count;
  refs = update i.refs i.count 1;
  callable = update i.callable i.count (some f);
}

-- `apsw_free_func`, for each in turn.
unfoldable pub free_funcs : List ℕ → Infos → Infos
free_funcs [] i = i
free_funcs (x ∷ xs) i = free_funcs xs (record i { refs = update i.refs x (i.refs x - 1) })

module _ {S : Type 0} (api : RegisterApi S) where
  -- The flag `false` is NULL.
  abbrev pub Ret : Type 0
  Ret = Bool × Infos × World S

  -- The call of SQLite and what follows it.
  unfoldable pub register_info : Registration → Option ℕ → Infos → World S → Ret
  register_info reg info i w =
      let (res, exn, d) = api.register w.db reg info in
      let w' : World S = set_exc res (record w { db = d; exc = raise exn w.exc }) in
      (not (occurred w'), free_funcs (api.destroyed w.db reg info) i, w')

  unfoldable pub create_open : Registration → Option ℕ → Infos → World S → Ret
  create_open reg none i w = register_info reg none i w
  create_open reg (some f) i w =
      if api.has_memory w.db
      then register_info reg (some i.count) (allocfunccbinfo f i) w
      else (false, i, err_format ExcClass.memory_error "" w)

  -- `Connection_create_scalar_function`, `Connection_create_aggregate_function` and
  -- `Connection_create_window_function`, by the kind.
  unfoldable pub create_function : ℕ → Registration → Option ℕ → Infos → World S → Ret
  create_function con reg f i w =
      if (w.conns con).inuse
      then (false, i, threading_violation w)
      else if not (w.conns con).open_db
      then (false, i, err_format ExcClass.connection_closed "The connection has been closed" w)
      else create_open reg f i w

  -- Calls of these methods in turn, whether they raise or not, with the exception taken off between them.
  unfoldable pub create_all : ℕ → List (Registration × Option ℕ) → Infos → World S → Infos × World S
  create_all con [] i w = (i, w)
  create_all con (r ∷ rs) i w =
      let after = create_function con r.0 r.1 i w in
      create_all con rs after.1 (record after.2 { exc = none })

-- No function has been registered.
abbrev pub no_infos : Infos
no_infos = record { count = 0; refs = λ x. 0; callable = λ x. none }
