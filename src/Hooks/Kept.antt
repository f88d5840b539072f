-- ===== src/Hooks/Kept.antt =====
-- Every method that sets a hook keeps what stands behind the callbacks (src/connection.c).
use apsw.Prelude.{
  ℕ, zero, suc, ◌≡◌, refl, true, Option, none, some, ◌⊎◌, inl, inr, is_some, ◌==◌, arith,
  Bool-cases, Option-cases,
}
use apsw.Prelude.Int.{ℤ}
use apsw.Errors.{Exn, sqlite_ok}
use apsw.World.{World}
use apsw.Hooks.{
  HookFields, Setting, accepted, Hooked, SettingApi, Ret, when_open, set_void, on_code, set_checked,
}
use apsw.Hooks.Setters.{
  set_update_hook, set_rollback_hook, set_commit_hook, set_wal_hook, set_progress_handler,
  set_profile, set_authorizer, collation_needed, set_busy_handler, set_busy_timeout,
  set_autovacuum_pages, wal_autocheckpoint, refusal, refuse, trace_kept, set_trace_v2,
}
use apsw.Hooks.Backed.{
  mask_slot, BacksSlot, Backs, IsBacked, keeps_update, keeps_rollback, keeps_commit, keeps_wal,
  keeps_authorizer, keeps_collation, keeps_busy, keeps_no_progress, keeps_progress, keeps_timeout,
  keeps_checkpoint, keeps_autovacuum, keeps_no_profile, keeps_profile, keeps_trace,
}

-- A call of one of the methods.
pub data Method : Type 0 where
  sets_update sets_rollback sets_commit sets_wal : Option ℕ → Method
  sets_profile sets_authorizer sets_collation sets_busy sets_autovacuum : Option ℕ → Method
  sets_progress : Option ℕ → ℤ → Method
  sets_timeout sets_checkpoint : ℤ → Method
  sets_trace : ℕ → Option ℕ → Method

-- What the first test of `trace_v2` leaves.
mask_or_hook : (mask : ℕ) (f : Option ℕ) → refusal mask f ≡ none → (mask ≡ 0) ⊎ (is_some f ≡ true)
unfolding refusal
mask_or_hook zero f q = inl refl
mask_or_hook (suc m) none q = absurd (ground (arith, q))
mask_or_hook (suc m) (some g) q = inr refl

module _ {S : Type 0} (api : SettingApi S) where
  unfoldable pub set_hook : Method → Hooked → World S → Ret S
  set_hook (sets_update f) h w = set_update_hook api f h w
  set_hook (sets_rollback f) h w = set_rollback_hook api f h w
  set_hook (sets_commit f) h w = set_commit_hook api f h w
  set_hook (sets_wal f) h w = set_wal_hook api f h w
  set_hook (sets_profile f) h w = set_profile api f h w
  set_hook (sets_authorizer f) h w = set_authorizer api f h w
  set_hook (sets_collation f) h w = collation_needed api f h w
  set_hook (sets_busy f) h w = set_busy_handler api f h w
  set_hook (sets_autovacuum f) h w = set_autovacuum_pages api f h w
  set_hook (sets_progress f n) h w = set_progress_handler api f n h w
  set_hook (sets_timeout ms) h w = set_busy_timeout api ms h w
  set_hook (sets_checkpoint n) h w = wal_autocheckpoint api n h w
  set_hook (sets_trace mask f) h w = set_trace_v2 api mask f h w

  -- The object after the change.
  abbrev changed : Setting → (HookFields → HookFields) → Hooked → Hooked
  changed s keep h = record h { fields = keep h.fields; registered = accepted s h.registered }

  when_open-IsBacked :
      (h : Hooked) (w : World S) (rest : Ret S)
      → IsBacked h
      → IsBacked rest.1
      → IsBacked (when_open h w rest).1
  unfolding when_open
  when_open-IsBacked h w rest b b' = elim (Bool-cases (w.conns h.con).inuse) [
    | inl q ↦ rw q b
    | inr q ↦ elim (Bool-cases (w.conns h.con).open_db) [
      | inl o ↦ rw (q, o) b'
      | inr o ↦ rw (q, o) b
    ]
  ]

  set_void-IsBacked :
      (s : Setting) (keep : HookFields → HookFields) (h : Hooked) (w : World S)
      → IsBacked h
      → IsBacked (changed s keep h)
      → IsBacked (set_void api s keep h w).1
  unfolding set_void
  set_void-IsBacked s keep h w b b' = when_open-IsBacked h w _ b b'

  on_code-IsBacked :
      (s : Setting) (keep : HookFields → HookFields) (r : ℕ × Option Exn × S) (h : Hooked)
      (w : World S)
      → IsBacked h
      → IsBacked (changed s keep h)
      → IsBacked (on_code api s keep r h w).1
  unfolding on_code
  on_code-IsBacked s keep r h w b b' = elim (Bool-cases (r.0 == sqlite_ok)) [
    | inl q ↦ rw q b'
    | inr q ↦ rw q b
  ]

  set_checked-IsBacked :
      (s : Setting) (keep : HookFields → HookFields) (h : Hooked) (w : World S)
      → IsBacked h
      → IsBacked (changed s keep h)
      → IsBacked (set_checked api s keep h w).1
  unfolding set_checked
  set_checked-IsBacked s keep h w b b' =
      when_open-IsBacked h w _ b (on_code-IsBacked s keep (api.tell w.db s) h w b b')

  -- The fields of a trace hook, which change before SQLite is told.
  keeps_hook :
      (h : Hooked) (mask : ℕ) (f : Option ℕ)
      → IsBacked h
      → (mask ≡ 0) ⊎ (is_some f ≡ true)
      → Backs (record h.fields { tracemask = mask; tracehook = f }) h.registered
  unfolding BacksSlot
  keeps_hook h mask f b q mask_slot = q
  keeps_hook h mask f b q k = b k

  trace_kept-IsBacked :
      (mask : ℕ) (f : Option ℕ) (h : Hooked) (w : World S)
      → IsBacked h
      → (mask ≡ 0) ⊎ (is_some f ≡ true)
      → IsBacked (trace_kept api mask f h w).1
  unfolding trace_kept
  trace_kept-IsBacked mask f h w b q =
      on_code-IsBacked _ _ _ _ w (keeps_hook h mask f b q)
        (keeps_trace _ _ (keeps_hook h mask f b q) _)

  set_trace_v2-IsBacked :
      (mask : ℕ) (f : Option ℕ) (h : Hooked) (w : World S)
      → IsBacked h
      → IsBacked (set_trace_v2 api mask f h w).1
  unfolding set_trace_v2 refuse
  set_trace_v2-IsBacked mask f h w b =
      when_open-IsBacked h w _ b (elim (Option-cases (refusal mask f)) [
        | inl q ↦ rw q (trace_kept-IsBacked mask f h w b (mask_or_hook mask f q))
        | inr (msg, q) ↦ rw q b
      ])

  pub set_hook-IsBacked :
      (m : Method) (h : Hooked) (w : World S) → IsBacked h → IsBacked (set_hook m h w).1
  unfolding set_hook set_update_hook set_rollback_hook set_commit_hook set_wal_hook
      set_progress_handler set_profile set_authorizer collation_needed set_busy_handler
      set_busy_timeout set_autovacuum_pages wal_autocheckpoint
  set_hook-IsBacked (sets_update f) h w b = set_void-IsBacked _ _ h w b (keeps_update _ _ b f)
  set_hook-IsBacked (sets_rollback f) h w b = set_void-IsBacked _ _ h w b (keeps_rollback _ _ b f)
  set_hook-IsBacked (sets_commit f) h w b = set_void-IsBacked _ _ h w b (keeps_commit _ _ b f)
  set_hook-IsBacked (sets_wal f) h w b = set_void-IsBacked _ _ h w b (keeps_wal _ _ b f)
  set_hook-IsBacked (sets_profile none) h w b =
      set_checked-IsBacked _ _ h w b (keeps_no_profile _ _ b)
  set_hook-IsBacked (sets_profile (some f)) h w b =
      set_checked-IsBacked _ _ h w b (keeps_profile _ _ b f)
  set_hook-IsBacked (sets_authorizer f) h w b =
      set_checked-IsBacked _ _ h w b (keeps_authorizer _ _ b f)
  set_hook-IsBacked (sets_collation f) h w b =
      set_checked-IsBacked _ _ h w b (keeps_collation _ _ b f)
  set_hook-IsBacked (sets_busy f) h w b = set_checked-IsBacked _ _ h w b (keeps_busy _ _ b f)
  set_hook-IsBacked (sets_autovacuum f) h w b =
      set_checked-IsBacked _ _ h w b (keeps_autovacuum _ _ b f)
  set_hook-IsBacked (sets_progress none n) h w b =
      set_void-IsBacked _ _ h w b (keeps_no_progress _ _ b)
  set_hook-IsBacked (sets_progress (some f) n) h w b =
      set_void-IsBacked _ _ h w b (keeps_progress _ _ b f n)
  set_hook-IsBacked (sets_timeout ms) h w b =
      set_checked-IsBacked _ _ h w b (keeps_timeout _ _ b ms)
  set_hook-IsBacked (sets_checkpoint n) h w b =
      set_checked-IsBacked _ _ h w b (keeps_checkpoint _ _ b n)
  set_hook-IsBacked (sets_trace mask f) h w b = set_trace_v2-IsBacked mask f h w b
