-- ===== src/Hooks.antt =====
-- The hooks of a connection: what the object keeps of them, what SQLite was told, and the methods that
-- set them (src/connection.c).
pub mod Setters
pub mod Answers
pub mod Callbacks
pub mod Backed
pub mod Kept
pub mod Events
pub mod Null
pub mod Refusal
pub mod Tests
use apsw.Prelude.{
  ℕ, ◌+◌, ◌/◌, ◌%◌, Bool, true, false, Option, none, some, if◌then◌else◌, not, is_some, ◌==◌,
}
use apsw.Prelude.Int.{ℤ}
use apsw.Errors.{Exn, ExcClass, sqlite_ok}
use apsw.World.{World, raise, set_exc, err_format, threading_violation}

-- The callables that the object keeps, and the mask of `trace_v2`.
pub record HookFields : Type 0 where
  pub updatehook : Option ℕ
  pub rollbackhook : Option ℕ
  pub profile : Option ℕ
  pub tracehook : Option ℕ
  pub tracemask : ℕ
  pub commithook : Option ℕ
  pub walhook : Option ℕ
  pub progresshandler : Option ℕ
  pub authorizer : Option ℕ
  pub collationneeded : Option ℕ
  pub busyhandler : Option ℕ

-- Which callback is given to `sqlite3_trace_v2`: `profilecb`, or `tracehook_cb` with the mask.
pub data TraceCallback : Type 0 where
  profile_cb : TraceCallback
  tracehook_cb : ℕ → TraceCallback

-- Which callbacks SQLite has, by the last call of each that it accepted.
pub record Registered : Type 0 where
  pub update : Bool
  pub rollback : Bool
  pub trace : Option TraceCallback
  pub commit : Bool
  pub wal : Bool
  pub progress : Option ℤ
  pub authorizer : Bool
  pub collation : Bool
  pub busy : Bool
  pub autovacuum : Option ℕ

-- A call of SQLite that changes a callback: with one, or with a null pointer. A busy timeout takes the
-- place of a busy handler, and automatic checkpoints that of a hook for them.
pub data Setting : Type 0 where
  update_hook rollback_hook commit_hook wal_hook : Bool → Setting
  authorizer_callback collation_callback busy_handler : Bool → Setting
  progress_handler : Option ℤ → Setting
  trace_v2 : Option TraceCallback → Setting
  autovacuum_pages : Option ℕ → Setting
  busy_timeout checkpoint_pages : ℤ → Setting

unfoldable pub accepted : Setting → Registered → Registered
accepted (update_hook b) r = record r { update = b }
accepted (rollback_hook b) r = record r { rollback = b }
accepted (commit_hook b) r = record r { commit = b }
accepted (wal_hook b) r = record r { wal = b }
accepted (authorizer_callback b) r = record r { authorizer = b }
accepted (collation_callback b) r = record r { collation = b }
accepted (busy_handler b) r = record r { busy = b }
accepted (progress_handler n) r = record r { progress = n }
accepted (trace_v2 t) r = record r { trace = t }
accepted (autovacuum_pages c) r = record r { autovacuum = c }
accepted (busy_timeout ms) r = record r { busy = false }
accepted (checkpoint_pages n) r = record r { wal = false }

-- The connection, by the number of its entry in the world.
pub record Hooked : Type 0 where
  pub con : ℕ
  pub fields : HookFields
  pub registered : Registered

-- What SQLite answers to a call that changes a callback.
pub record SettingApi (S : Type 0) : Type 0 where
  pub tell : S → Setting → ℕ × Option Exn × S

-- A method returns `None`, or NULL for the flag `false`.
abbrev pub Ret : Type 0 → Type 0
Ret S = Bool × Hooked × World S

module _ {S : Type 0} where
  -- `CHECK_USE` and `CHECK_CLOSED`, then the rest of the method.
  unfoldable pub when_open : Hooked → World S → Ret S → Ret S
  when_open h w rest =
      if (w.conns h.con).inuse
      then (false, h, threading_violation w)
      else if not (w.conns h.con).open_db
      then (false, h, err_format ExcClass.connection_closed "The connection has been closed" w)
      else rest

  abbrev pub after_call : ℕ × Option Exn × S → World S → World S
  after_call r w = record w { db = r.2; exc = raise r.1 w.exc }

module _ {S : Type 0} (api : SettingApi S) where
  -- A call that has no result code, then what is kept.
  unfoldable pub set_void : Setting → (HookFields → HookFields) → Hooked → World S → Ret S
  set_void s keep h w = when_open h w (
    true,
    record h { fields = keep h.fields; registered = accepted s h.registered },
    after_call (api.tell w.db s) w,
  )

  -- What follows on a result code: the field changes where SQLite accepted.
  unfoldable pub on_code :
      Setting → (HookFields → HookFields) → ℕ × Option Exn × S → Hooked → World S → Ret S
  on_code s keep r h w =
      if r.0 == sqlite_ok
      then (
        true,
        record h { fields = keep h.fields; registered = accepted s h.registered },
        after_call r w,
      )
      else (false, h, set_exc r.0 (after_call r w))

  unfoldable pub set_checked : Setting → (HookFields → HookFields) → Hooked → World S → Ret S
  set_checked s keep h w = when_open h w (on_code s keep (api.tell w.db s) h w)
