-- ===== src/Cursor/Session.antt =====
-- A new cursor, and calls of its methods in any order (src/cursor.c).
use apsw.Prelude.{ℕ, Bool, Option, none, some, List, [], ◌∷◌}
use apsw.World.{World}
use apsw.StatementCache.{StatementCache, Options}
use apsw.Cursor.{Cursor, Bindings, close}
use apsw.Cursor.Step.{Outcome, returned, cache_fault, null_fault, assert_fault, no_fuel}
use apsw.Cursor.Execute.{execute, executemany, next}
use apsw.Cursor.Get.{get}
use apsw.Cursor.Attributes.{InfoApi, set_exec_trace, set_row_trace}
use apsw.Cursor.Coherent.{Coherent}

-- A call of a method, or what happens elsewhere to the cache and to SQLite between two calls.
pub data Method (S : Type 0) : Type 0 where
  execute_call : ℕ → Option Bindings → Options → Method S
  executemany_call : ℕ → ℕ → Options → Method S
  next_call get_call : Method S
  close_call : Bool → Method S
  set_exec_trace_call set_row_trace_call : Option ℕ → Method S
  elsewhere : (StatementCache → World S → StatementCache × World S) → Method S

module _ {S : Type 0} (api : InfoApi S) where
  -- What a method leaves, without its value.
  unfoldable pub forget : {A : Type 0} → Outcome S A → Outcome S (Unit {0})
  forget (returned v c sc w) = returned none c sc w
  forget cache_fault = cache_fault
  forget null_fault = null_fault
  forget assert_fault = assert_fault
  forget no_fuel = no_fuel

  unfoldable pub forget_close :
      Option (Option (Unit {0}) × Cursor × StatementCache × World S) → Outcome S (Unit {0})
  forget_close none = cache_fault
  forget_close (some r) = returned none r.1 r.2 r.3

  -- One call, with fuel for its loops.
  unfoldable pub call : ℕ → ℕ → Method S → Cursor → StatementCache → World S → Outcome S (Unit {0})
  call n fuel (execute_call query b options) c sc w =
      forget (execute api.row fuel c sc query b options w)
  call n fuel (executemany_call query items options) c sc w =
      forget (executemany api.row fuel c sc query items options w)
  call n fuel next_call c sc w = forget (next api.row n fuel c sc w)
  call n fuel get_call c sc w = forget (get api.row n fuel c sc w)
  call n fuel (close_call force) c sc w = forget_close (close api.row.exec.cursor c force sc w)
  call n fuel (set_exec_trace_call callable) c sc w =
      let (v, c', w') = set_exec_trace api callable c w in returned none c' sc w'
  call n fuel (set_row_trace_call callable) c sc w =
      let (v, c', w') = set_row_trace api callable c w in returned none c' sc w'
  call n fuel (elsewhere f) c sc w = returned none c (f sc w).0 (f sc w).1

  -- The calls that follow; Python has taken the exception of the last one.
  unfoldable pub and_then :
      (Cursor → StatementCache → World S → Outcome S (Unit {0}))
      → Outcome S (Unit {0})
      → Outcome S (Unit {0})
  and_then more (returned v c sc w) = more c sc (record w { exc = none })
  and_then more cache_fault = cache_fault
  and_then more null_fault = null_fault
  and_then more assert_fault = assert_fault
  and_then more no_fuel = no_fuel

  -- All the calls.
  unfoldable pub run :
      ℕ → ℕ → List (Method S) → Cursor → StatementCache → World S → Outcome S (Unit {0})
  run n fuel [] c sc w = returned (some tt) c sc w
  run n fuel (m ∷ ms) c sc w = and_then (run n fuel ms) (call n fuel m c sc w)

  -- What `close` leaves of the cursor.
  abbrev Left : {A : Type 0} → Option (A × Cursor × StatementCache × World S) → Type 0
  Left none = Unit
  Left (some r) = Coherent r.1
