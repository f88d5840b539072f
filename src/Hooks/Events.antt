-- ===== src/Hooks/Events.antt =====
-- The methods that set hooks and the events that call them, in any order (src/connection.c).
use mathlib.Core.Option
use apsw.Prelude.{ℕ, Bool, true, false, Option, none, some, List, [], ◌∷◌, if◌then◌else◌, is_some}
use apsw.Prelude.Int.{ℤ}
use apsw.World.{World}
use apsw.Cursor.Execute.{Column}
use apsw.Functions.{FunctionApi}
use apsw.Hooks.{HookFields, TraceCallback, profile_cb, tracehook_cb, Registered, Hooked, SettingApi}
use apsw.Hooks.Callbacks.{
  tracehook_callback, updatecb, rollbackhookcb, profilecb, commithookcb, walhookcb,
  progresshandlercb, authorizercb, autovacuum_pages_cb, collationneeded_cb, busyhandlercb,
}
use apsw.Hooks.Kept.{Method, set_hook}

-- What happens inside SQLite that it calls a callback for.
pub data Event : Type 0 where
  on_update : ℤ → List ℕ → List ℕ → ℤ → Event
  on_rollback on_commit on_progress : Event
  on_profile : List ℕ → ℤ → Event
  on_trace : ℕ → List Column → Event
  on_wal : List ℕ → ℤ → Event
  on_authorize : ℤ → Option (List ℕ) → Option (List ℕ) → Option (List ℕ) → Option (List ℕ) → Event
  on_vacuum : List ℕ → ℕ → ℕ → ℕ → Event
  on_collation : List ℕ → Event
  on_busy : ℤ → Event

abbrev pub has_profile : Option TraceCallback → Bool
has_profile none = false
has_profile (some profile_cb) = true
has_profile (some (tracehook_cb mask)) = false

abbrev pub has_trace : Option TraceCallback → Bool
has_trace none = false
has_trace (some profile_cb) = false
has_trace (some (tracehook_cb mask)) = true

-- Whether SQLite has a callback for the event.
unfoldable pub has_callback : Event → Registered → Bool
has_callback (on_update typ db table rowid) r = r.update
has_callback on_rollback r = r.rollback
has_callback on_commit r = r.commit
has_callback on_progress r = is_some r.progress
has_callback (on_profile sql time) r = has_profile r.trace
has_callback (on_trace code values) r = has_trace r.trace
has_callback (on_wal db pages) r = r.wal
has_callback (on_authorize op one two db trigger) r = r.authorizer
has_callback (on_vacuum schema pages free size) r = is_some r.autovacuum
has_callback (on_collation name) r = r.collation
has_callback (on_busy ncall) r = r.busy

-- A call of a method, or an event.
pub data Act : Type 0 where
  sets : Method → Act
  happens : Event → Act

module _ {S : Type 0} (api : FunctionApi S) where
  -- The callback for the event; `none` is a call through a null pointer.
  unfoldable pub call_back : Event → Hooked → World S → Option (World S)
  call_back (on_update typ db table rowid) h w = updatecb api h.fields typ db table rowid w
  call_back on_rollback h w = rollbackhookcb api h.fields w
  call_back on_commit h w = Option.map (λ r. r.1) (commithookcb api h.fields w)
  call_back on_progress h w = Option.map (λ r. r.1) (progresshandlercb api h.fields w)
  call_back (on_profile sql time) h w = profilecb api h.fields sql time w
  call_back (on_trace code values) h w = tracehook_callback api h.fields code values w
  call_back (on_wal db pages) h w = Option.map (λ r. r.1) (walhookcb api h db pages w)
  call_back (on_authorize op one two db trigger) h w =
      Option.map (λ r. r.1) (authorizercb api h.fields op one two db trigger w)
  call_back (on_vacuum schema pages free size) h w =
      Option.map (λ f. (autovacuum_pages_cb api f schema pages free size w).1)
        h.registered.autovacuum
  call_back (on_collation name) h w = collationneeded_cb api h name w
  call_back (on_busy ncall) h w = Option.map (λ r. r.1) (busyhandlercb api h.fields ncall w)

module _ {S : Type 0} (settings : SettingApi S) (api : FunctionApi S) where
  -- Methods and events in turn; an event without a callback passes.
  unfoldable pub run_acts : List Act → Hooked → World S → Option (Hooked × World S)
  run_acts [] h w = some (h, w)
  run_acts (sets m ∷ acts) h w = let r = set_hook settings m h w in run_acts acts r.1 r.2
  run_acts (happens e ∷ acts) h w =
      if has_callback e h.registered
      then Option.bind (call_back api e h w) (λ w'. run_acts acts h w')
      else run_acts acts h w

-- The object keeps no hook, and SQLite has no callback.
abbrev pub no_hooks : HookFields
no_hooks = record {
  updatehook = none;
  rollbackhook = none;
  profile = none;
  tracehook = none;
  tracemask = 0;
  commithook = none;
  walhook = none;
  progresshandler = none;
  authorizer = none;
  collationneeded = none;
  busyhandler = none;
}

abbrev pub no_callbacks : Registered
no_callbacks = record {
  update = false;
  rollback = false;
  trace = none;
  commit = false;
  wal = false;
  progress = none;
  authorizer = false;
  collation = false;
  busy = false;
  autovacuum = none;
}
