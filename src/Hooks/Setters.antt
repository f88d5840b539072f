-- ===== src/Hooks/Setters.antt =====
-- The methods of a connection that set its hooks (src/connection.c).
use apsw.Prelude.{
  ℕ, ◌+◌, ◌/◌, ◌%◌, Bool, false, Option, none, some, if◌then◌else◌, not, is_some, ◌==◌, ◌&&◌, ltb,
}
use apsw.Prelude.Int.{ℤ}
use Prim.Native.String.{String}
use apsw.Errors.{ExcClass}
use apsw.World.{World, err_format}
use apsw.Hooks.{
  profile_cb, tracehook_cb, Setting, update_hook, rollback_hook, commit_hook, wal_hook,
  progress_handler, autovacuum_pages, busy_handler, busy_timeout, Hooked, SettingApi, Ret,
  when_open, set_void, on_code, set_checked,
}

-- `SQLITE_TRACE_STMT`, `SQLITE_TRACE_PROFILE`, `SQLITE_TRACE_ROW` and `SQLITE_TRACE_CLOSE` as bits.
abbrev pub trace_stmt : ℕ
trace_stmt = 1

abbrev pub trace_profile : ℕ
trace_profile = 2

abbrev pub trace_row : ℕ
trace_row = 4

abbrev pub trace_close : ℕ
trace_close = 8

unfoldable pub has_bit : ℕ → ℕ → Bool
has_bit mask bit = (mask / bit) % 2 == 1

-- A mask with a bit set in it.
unfoldable pub or_bit : ℕ → ℕ → ℕ
unfolding has_bit
or_bit mask bit = if has_bit mask bit then mask else mask + bit

-- The mask that SQLite gets; the test is with `|`, as the source has it.
unfoldable pub told_mask : ℕ → ℕ
unfolding or_bit
told_mask mask = if not (or_bit mask trace_profile == 0) then or_bit mask trace_stmt else mask

-- The tests of `trace_v2`: the message of the one that refuses.
unfoldable pub refusal : ℕ → Option ℕ → Option String
refusal mask f =
    if not (mask == 0) && not (is_some f)
    then some "Non-zero mask but no callback provided"
    else if mask == 0 && is_some f
    then some "mask selects no events, but callback provided"
    else if ltb 15 mask
    then some "mask includes unknown trace values"
    else none

module _ {S : Type 0} where
  unfoldable pub refuse : String → Hooked → World S → Ret S
  refuse msg h w = (false, h, err_format ExcClass.value_error msg w)

module _ {S : Type 0} (api : SettingApi S) where
  unfoldable pub set_update_hook : Option ℕ → Hooked → World S → Ret S
  set_update_hook f h w =
      set_void api (update_hook (is_some f)) (λ x. record x { updatehook = f }) h w

  unfoldable pub set_rollback_hook : Option ℕ → Hooked → World S → Ret S
  set_rollback_hook f h w =
      set_void api (rollback_hook (is_some f)) (λ x. record x { rollbackhook = f }) h w

  unfoldable pub set_commit_hook : Option ℕ → Hooked → World S → Ret S
  set_commit_hook f h w =
      set_void api (commit_hook (is_some f)) (λ x. record x { commithook = f }) h w

  unfoldable pub set_wal_hook : Option ℕ → Hooked → World S → Ret S
  set_wal_hook f h w = set_void api (wal_hook (is_some f)) (λ x. record x { walhook = f }) h w

  -- With the number of steps between two calls.
  unfoldable pub set_progress_handler : Option ℕ → ℤ → Hooked → World S → Ret S
  set_progress_handler none nsteps h w =
      set_void api (progress_handler none) (λ x. record x { progresshandler = none }) h w
  set_progress_handler (some f) nsteps h w =
      set_void api (progress_handler (some nsteps)) (λ x. record x { progresshandler = some f }) h w

  unfoldable pub set_profile : Option ℕ → Hooked → World S → Ret S
  set_profile none h w =
      set_checked api (Setting.trace_v2 none) (λ x. record x { profile = none }) h w
  set_profile (some f) h w =
      set_checked api (Setting.trace_v2 (some profile_cb)) (λ x. record x { profile = some f }) h w

  unfoldable pub set_authorizer : Option ℕ → Hooked → World S → Ret S
  set_authorizer f h w =
      set_checked api (Setting.authorizer_callback (is_some f)) (λ x. record x { authorizer = f }) h
        w

  unfoldable pub collation_needed : Option ℕ → Hooked → World S → Ret S
  collation_needed f h w =
      set_checked api (Setting.collation_callback (is_some f))
        (λ x. record x { collationneeded = f }) h w

  unfoldable pub set_busy_handler : Option ℕ → Hooked → World S → Ret S
  set_busy_handler f h w =
      set_checked api (busy_handler (is_some f)) (λ x. record x { busyhandler = f }) h w

  unfoldable pub set_busy_timeout : ℤ → Hooked → World S → Ret S
  set_busy_timeout ms h w =
      set_checked api (busy_timeout ms) (λ x. record x { busyhandler = none }) h w

  -- The callable is SQLite's to keep.
  unfoldable pub set_autovacuum_pages : Option ℕ → Hooked → World S → Ret S
  set_autovacuum_pages f h w = set_checked api (autovacuum_pages f) (λ x. x) h w

  unfoldable pub wal_autocheckpoint : ℤ → Hooked → World S → Ret S
  wal_autocheckpoint n h w = set_checked api (Setting.checkpoint_pages n) (λ x. x) h w

  -- `Connection_trace_v2` once the mask is known to be good: the fields change before SQLite is told.
  unfoldable pub trace_kept : ℕ → Option ℕ → Hooked → World S → Ret S
  trace_kept mask f h w =
      let s : Setting = Setting.trace_v2 (some (tracehook_cb (told_mask mask))) in
      on_code api s (λ x. x) (api.tell w.db s)
        (record h { fields = record h.fields { tracemask = mask; tracehook = f } }) w

  -- `Connection_trace_v2`, on a mask as the bits of a C `int`.
  unfoldable pub set_trace_v2 : ℕ → Option ℕ → Hooked → World S → Ret S
  set_trace_v2 mask f h w =
      when_open h w
        (elim (refusal mask f) [ none ↦ trace_kept mask f h w | some msg ↦ refuse msg h w ])
