-- ===== src/Hooks/Backed.antt =====
-- What stands behind the callbacks that SQLite has, and that each change of one keeps it
-- (src/connection.c).
use apsw.Prelude.{ℕ, ◌≡◌, refl, true, Option, none, some, ◌⊎◌, is_some, arith}
use apsw.Prelude.Int.{ℤ}
use apsw.Hooks.{
  HookFields, TraceCallback, profile_cb, tracehook_cb, Registered, Setting, accepted, Hooked,
}

-- The trace callback that SQLite has finds what it calls.
unfoldable pub IsTraced : Option TraceCallback → Option ℕ → Type 0
IsTraced none f = Unit
IsTraced (some profile_cb) f = is_some f ≡ true
IsTraced (some (tracehook_cb mask)) f = Unit

-- The places for a callback, and the mask.
pub data Slot : Type 0 where
  update_slot rollback_slot commit_slot wal_slot progress_slot : Slot
  authorizer_slot collation_slot busy_slot trace_slot mask_slot : Slot

-- Where SQLite has a callback, the object has what the callback calls; where the mask selects an event,
-- there is a trace hook.
unfoldable pub BacksSlot : Slot → HookFields → Registered → Type 0
BacksSlot update_slot x r = r.update ≡ true → is_some x.updatehook ≡ true
BacksSlot rollback_slot x r = r.rollback ≡ true → is_some x.rollbackhook ≡ true
BacksSlot commit_slot x r = r.commit ≡ true → is_some x.commithook ≡ true
BacksSlot wal_slot x r = r.wal ≡ true → is_some x.walhook ≡ true
BacksSlot progress_slot x r = is_some r.progress ≡ true → is_some x.progresshandler ≡ true
BacksSlot authorizer_slot x r = r.authorizer ≡ true → is_some x.authorizer ≡ true
BacksSlot collation_slot x r = r.collation ≡ true → is_some x.collationneeded ≡ true
BacksSlot busy_slot x r = r.busy ≡ true → is_some x.busyhandler ≡ true
BacksSlot trace_slot x r = IsTraced r.trace x.profile
BacksSlot mask_slot x r = (x.tracemask ≡ 0) ⊎ (is_some x.tracehook ≡ true)

abbrev pub Backs : HookFields → Registered → Type 0
Backs x r = (k : Slot) → BacksSlot k x r

abbrev pub IsBacked : Hooked → Type 0
IsBacked h = Backs h.fields h.registered

-- Each change keeps what backs the callbacks.
module _ (x : HookFields) (r : Registered) (b : Backs x r) where
  pub keeps_update :
      (f : Option ℕ)
      → Backs (record x { updatehook = f }) (accepted (Setting.update_hook (is_some f)) r)
  unfolding BacksSlot accepted
  keeps_update f update_slot = λ q. q
  keeps_update f k = b k

  pub keeps_rollback :
      (f : Option ℕ)
      → Backs (record x { rollbackhook = f }) (accepted (Setting.rollback_hook (is_some f)) r)
  unfolding BacksSlot accepted
  keeps_rollback f rollback_slot = λ q. q
  keeps_rollback f k = b k

  pub keeps_commit :
      (f : Option ℕ)
      → Backs (record x { commithook = f }) (accepted (Setting.commit_hook (is_some f)) r)
  unfolding BacksSlot accepted
  keeps_commit f commit_slot = λ q. q
  keeps_commit f k = b k

  pub keeps_wal :
      (f : Option ℕ) → Backs (record x { walhook = f }) (accepted (Setting.wal_hook (is_some f)) r)
  unfolding BacksSlot accepted
  keeps_wal f wal_slot = λ q. q
  keeps_wal f k = b k

  pub keeps_authorizer :
      (f : Option ℕ)
      → Backs (record x { authorizer = f }) (accepted (Setting.authorizer_callback (is_some f)) r)
  unfolding BacksSlot accepted
  keeps_authorizer f authorizer_slot = λ q. q
  keeps_authorizer f k = b k

  pub keeps_collation :
      (f : Option ℕ)
      → Backs
          (record x { collationneeded = f })
          (accepted (Setting.collation_callback (is_some f)) r)
  unfolding BacksSlot accepted
  keeps_collation f collation_slot = λ q. q
  keeps_collation f k = b k

  pub keeps_busy :
      (f : Option ℕ)
      → Backs (record x { busyhandler = f }) (accepted (Setting.busy_handler (is_some f)) r)
  unfolding BacksSlot accepted
  keeps_busy f busy_slot = λ q. q
  keeps_busy f k = b k

  pub keeps_no_progress :
      Backs (record x { progresshandler = none }) (accepted (Setting.progress_handler none) r)
  unfolding BacksSlot accepted
  keeps_no_progress progress_slot = λ q. q
  keeps_no_progress k = b k

  pub keeps_progress :
      (f : ℕ) (n : ℤ)
      → Backs
          (record x { progresshandler = some f })
          (accepted (Setting.progress_handler (some n)) r)
  unfolding BacksSlot accepted
  keeps_progress f n progress_slot = λ q. refl
  keeps_progress f n k = b k

  pub keeps_timeout :
      (ms : ℤ) → Backs (record x { busyhandler = none }) (accepted (Setting.busy_timeout ms) r)
  unfolding BacksSlot accepted
  keeps_timeout ms busy_slot = λ q. absurd (ground (arith, q))
  keeps_timeout ms k = b k

  pub keeps_checkpoint : (n : ℤ) → Backs x (accepted (Setting.checkpoint_pages n) r)
  unfolding BacksSlot accepted
  keeps_checkpoint n wal_slot = λ q. absurd (ground (arith, q))
  keeps_checkpoint n k = b k

  pub keeps_autovacuum : (f : Option ℕ) → Backs x (accepted (Setting.autovacuum_pages f) r)
  unfolding BacksSlot accepted
  keeps_autovacuum f trace_slot = b trace_slot
  keeps_autovacuum f k = b k

  pub keeps_no_profile : Backs (record x { profile = none }) (accepted (Setting.trace_v2 none) r)
  unfolding BacksSlot accepted IsTraced
  keeps_no_profile trace_slot = tt
  keeps_no_profile k = b k

  pub keeps_profile :
      (f : ℕ)
      → Backs (record x { profile = some f }) (accepted (Setting.trace_v2 (some profile_cb)) r)
  unfolding BacksSlot accepted IsTraced
  keeps_profile f trace_slot = refl
  keeps_profile f k = b k

  pub keeps_trace : (mask : ℕ) → Backs x (accepted (Setting.trace_v2 (some (tracehook_cb mask))) r)
  unfolding BacksSlot accepted IsTraced
  keeps_trace mask trace_slot = tt
  keeps_trace mask k = b k
