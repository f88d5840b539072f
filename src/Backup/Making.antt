-- ===== src/Backup/Making.antt =====
-- The object of a backup, and what is left where there is no memory for it (`Connection_backup` of
-- src/connection.c from `sqlite3_backup_init` on).
use apsw.Prelude.{
  ℕ, ◌+◌, ◌≡◌, ◌≢◌, ◌≤◌, refl, ◌∙◌, ap, true, false, Option, none, some, arith, ◌==◌, ◌&&◌, ◌||◌,
  if◌then◌else◌, is_some, inl, inr, Bool-cases,
}
use apsw.Errors.{Exn, sqlite_ok, sqlite_error}
use apsw.World.{
  World, Call, sqlite_call, set_exc, occurred, remove_dependent, add_dependent, set_inuse, listed,
  raise,
}
use apsw.Backup.{
  BackupApi, Backup, backup_init, start, dealloc, free_source, free_dest, close_error, close_handle,
  close_internal, unless_error, add_reference, on_source, on_dest, make_object,
}
use apsw.Blob.{report_error}
use apsw.Backup.Close.{open_backup, close_internal-Released}
use apsw.Backup.Flags.{
  SameConns, Opens, set_inuse-at, add_dependent-at, set_exc-conns, During-listed, During,
  set_exc-occurs, set_inuse-exc,
}

module _ {S : Type 0} (api : BackupApi S) where
  pub dealloc-occurred :
      (b : Backup) (w : World S) → occurred w ≡ true → occurred (dealloc api b w) ≡ true
  unfolding dealloc close_internal close_handle
  dealloc-occurred b w q = close_internal-occurred b.backup b w q
    where
      free-exc :
          (d s : Option ℕ) (id : ℕ) (v : World S)
          → (free_source api s id (free_dest api d id v)).exc ≡ v.exc
      free-exc none none id v = unfold free_source free_dest in refl
      free-exc none (some s) id v = unfold free_source free_dest remove_dependent in refl
      free-exc (some d) none id v = unfold free_source free_dest remove_dependent set_inuse in refl
      free-exc (some d) (some s) id v =
          unfold free_source free_dest remove_dependent set_inuse in refl

      reported-exc : (res : ℕ) (v : World S) → (close_error api report_error res v).0.exc ≡ v.exc
      reported-exc res v = elim (Bool-cases (res == sqlite_ok)) [
        | inl e ↦ unfold close_error in rw e refl
        | inr e ↦ unfold close_error in rw e refl
      ]

      raise-occurs : (e x : Option Exn) → is_some x ≡ true → is_some (raise e x) ≡ true
      raise-occurs none x h = h
      raise-occurs (some e) x h = refl

      close_internal-occurred :
          (h : Option ℕ) (b : Backup) (w : World S)
          → occurred w ≡ true
          → occurred (close_handle api h b report_error w).2 ≡ true
      close_internal-occurred none b w q = unfold close_handle in q
      close_internal-occurred (some h) b w q =
          unfold close_handle sqlite_call in
          (ap is_some (free-exc b.dest b.source b.id _ ∙ reported-exc _ _)
            ∙ raise-occurs (api.backup_finish w.db h).1 w.exc q)

  -- A world in which the object has been made, and stands `m` times on the list of the destination.
  abbrev MadeIn : ℕ → ℕ → ℕ → ℕ → World S → World S → Type 0
  MadeIn m id d s w v =
      (c : ℕ)
      → ((v.conns c).inuse ≡ (c == d || (c == s || (w.conns c).inuse)))
        × ((v.conns c).open_db ≡ (w.conns c).open_db)
        × ((x : ℕ)
            → listed x (v.conns c).dependents
              ≡ listed x (w.conns c).dependents + (if c == d && x == id then m else 0))

  -- The object is on no list.
  abbrev pub Fresh : ℕ → World S → Type 0
  Fresh id w = (c : ℕ) → listed id (w.conns c).dependents ≡ 0

  dropped-SameConns :
      (m id d s h : ℕ) (w v : World S)
      → m ≤ 1
      → MadeIn m id d s w v
      → d ≢ s
      → (w.conns d).inuse ≡ false
      → (w.conns s).inuse ≡ false
      → Fresh id w
      → SameConns api w (set_inuse s false (dealloc api (open_backup api id d s h false false) v))
  unfolding dealloc
  dropped-SameConns m id d s h w v le made ne idle free fresh c =
      let rel = (close_internal-Released api id d s h false false report_error v ne).0 in
      let at =
        set_inuse-at api s c false
          (close_internal api (open_backup api id d s h false false) report_error v).2 in
      (
        ground (arith, at.0, rel.1 c, (made c).0, idle, free),
        at.1 ∙ (rel.2 c ∙ (made c).1),
        λ x. ap (listed x) at.2 ∙ (rel.3 c x ∙ ground (arith, (made c).2 x, fresh c, le)),
      )

  made_in :
      (id d s : ℕ) (w w' : World S) → During api s w w' → MadeIn 0 id d s w (set_inuse d true w')
  made_in id d s w w' dur c =
      let a1 = set_inuse-at api d c true w' in
      (
        ground (arith, a1.0, (dur c).0),
        a1.1 ∙ (dur c).1,
        λ x. ground (arith, ap (listed x) a1.2, During-listed api x c s w w' dur),
      )

  added_in :
      (id d s : ℕ) (w v : World S) → MadeIn 0 id d s w v → MadeIn 1 id d s w (add_dependent d id v)
  added_in id d s w v made c =
      let a2 = add_dependent-at api d id c v in
      (a2.0 ∙ (made c).0, a2.1 ∙ (made c).1, λ x. ground (arith, a2.2 x, (made c).2 x))

  MadeIn-exc :
      (m id d s : ℕ) (e : Exn) (w v : World S)
      → MadeIn m id d s w v
      → MadeIn m id d s w (record v { exc = some e })
  MadeIn-exc m id d s e w v made c = made c

  dropped-Opens :
      (m id d s h : ℕ) (e : Exn) (w v : World S)
      → m ≤ 1
      → MadeIn m id d s w v
      → d ≢ s
      → (w.conns d).inuse ≡ false
      → (w.conns s).inuse ≡ false
      → Fresh id w
      → let b = open_backup api id d s h false false in
        Opens api id d s w (none, set_inuse s false (dealloc api b (record v { exc = some e })))
  dropped-Opens m id d s h e w v le made ne idle free fresh = (
    ap is_some (set_inuse-exc api s false _) ∙ dealloc-occurred _ (record v { exc = some e }) refl,
    dropped-SameConns m id d s h w (record v { exc = some e }) le (MadeIn-exc m id d s e w v made)
        ne idle free fresh,
  )

  opened-Opens :
      (id d s h : ℕ) (w v : World S)
      → MadeIn 1 id d s w v
      → d ≢ s
      → (w.conns s).inuse ≡ false
      → (w.conns s).open_db ≡ true
      → (w.conns d).open_db ≡ true
      → Opens api id d s w
          (some (open_backup api id d s h false false), set_inuse s false (add_dependent s id v))
  opened-Opens id d s h w v made ne free has there = (
    (h, refl),
    ne,
    has,
    there,
    λ c.
        let a3 = add_dependent-at api s id c v in
        let a4 = set_inuse-at api s c false (add_dependent s id v) in
        (
          ground (arith, a3.0, a4.0, (made c).0),
          a4.1 ∙ (a3.1 ∙ (made c).1),
          λ x. ground (arith, ap (listed x) a4.2, a3.2 x, (made c).2 x),
        ),
  )

  finished-SameConns :
      (s h : ℕ) (e : Exn) (w w' : World S)
      → During api s w w'
      → (w.conns s).inuse ≡ false
      → SameConns api w (
          set_inuse s false
            (sqlite_call
              (Call.backup_finish h)
              (λ d. api.backup_finish d h)
              (record w' { exc = some e })).1)
  unfolding sqlite_call
  finished-SameConns s h e w w' dur free c =
      let a =
        set_inuse-at api s c false
          (sqlite_call (Call.backup_finish h) (λ d. api.backup_finish d h)
            (record w' { exc = some e })).1 in
      (
        ground (arith, a.0, (dur c).0, free),
        a.1 ∙ (dur c).1,
        λ x. ap (listed x) a.2 ∙ During-listed api x c s w w' dur,
      )

  pub finish-occurs :
      (s h : ℕ) (e : Exn) (w : World S)
      → occurred (
          set_inuse s false
            (sqlite_call
              (Call.backup_finish h)
              (λ d. api.backup_finish d h)
              (record w { exc = some e })).1)
        ≡ true
  unfolding sqlite_call set_inuse
  finish-occurs s h e w = go (api.backup_finish w.db h).1
    where
      go : (x : Option Exn) → is_some (raise x (some e)) ≡ true
      go none = refl
      go (some y) = refl

  on_source-Opens :
      (id d s h : ℕ) (w v : World S)
      → MadeIn 1 id d s w v
      → d ≢ s
      → (w.conns d).inuse ≡ false
      → (w.conns s).inuse ≡ false
      → (w.conns s).open_db ≡ true
      → (w.conns d).open_db ≡ true
      → Fresh id w
      → Opens api id d s w
          (on_source api (open_backup api id d s h false false) s (add_reference api s id v))
  unfolding add_reference
  on_source-Opens id d s h w v made ne idle free has there fresh =
      go (api.reference_error v.db s) (api.append_error v.db s)
    where
      go :
          (x y : Option Exn)
          → Opens api id d s w (
              on_source api
                (open_backup api id d s h false false)
                s
                (unless_error api x v (unless_error api y v (true, add_dependent s id v))))
      go (some e) y =
          unfold on_source unless_error in
          dropped-Opens 1 id d s h e w v (omega arith) made ne idle free fresh
      go none (some e) =
          unfold on_source unless_error in
          dropped-Opens 1 id d s h e w v (omega arith) made ne idle free fresh
      go none none =
          unfold on_source unless_error in opened-Opens id d s h w v made ne free has there

  on_dest-Opens :
      (id d s h : ℕ) (w v : World S)
      → MadeIn 0 id d s w v
      → d ≢ s
      → (w.conns d).inuse ≡ false
      → (w.conns s).inuse ≡ false
      → (w.conns s).open_db ≡ true
      → (w.conns d).open_db ≡ true
      → Fresh id w
      → Opens api id d s w
          (on_dest api (open_backup api id d s h false false) s (add_reference api d id v))
  unfolding add_reference
  on_dest-Opens id d s h w v made ne idle free has there fresh =
      go (api.reference_error v.db d) (api.append_error v.db d)
    where
      go :
          (x y : Option Exn)
          → Opens api id d s w (
              on_dest api
                (open_backup api id d s h false false)
                s
                (unless_error api x v (unless_error api y v (true, add_dependent d id v))))
      go (some e) y =
          unfold on_dest unless_error in
          dropped-Opens 0 id d s h e w v (omega arith) made ne idle free fresh
      go none (some e) =
          unfold on_dest unless_error in
          dropped-Opens 0 id d s h e w v (omega arith) made ne idle free fresh
      go none none =
          unfold on_dest unless_error in
          on_source-Opens id d s h w (add_dependent d id v) (added_in id d s w v made) ne idle free
            has there fresh

  pub start-Opens :
      (id d s : ℕ) (p : Option ℕ) (res : ℕ) (w w' : World S)
      → During api s w w'
      → d ≢ s
      → (w.conns d).inuse ≡ false
      → (w.conns s).inuse ≡ false
      → (w.conns s).open_db ≡ true
      → (w.conns d).open_db ≡ true
      → Fresh id w
      → Opens api id d s w (start api id d s p res w')
  unfolding start
  start-Opens id d s none res w w' dur ne idle free has there fresh =
      let v = set_exc (if res == sqlite_ok then sqlite_error else res) w' in
      let same = set_exc-conns api (if res == sqlite_ok then sqlite_error else res) w' in
      (
        ap is_some (set_inuse-exc api s false v) ∙ set_exc-occurs api _ w' (ground arith),
        λ c. (
          ground (arith, set_inuse-at api s c false v, ap (λ k. (k c).inuse) same, dur c),
          ground (arith, set_inuse-at api s c false v, ap (λ k. (k c).open_db) same, dur c),
          λ x.
              ap (listed x) ((set_inuse-at api s c false v).2 ∙ ap (λ k. (k c).dependents) same)
              ∙ During-listed api x c s w w' dur,
        ),
      )
  start-Opens id d s (some h) res w w' dur ne idle free has there fresh =
      made (api.object_error w'.db)
    where
      made : (x : Option Exn) → Opens api id d s w (make_object api id d s h x w')
      made (some e) =
          unfold make_object in (finish-occurs s h e w', finished-SameConns s h e w w' dur free)
      made none =
          unfold make_object backup_init in
          on_dest-Opens id d s h w (set_inuse d true w') (made_in id d s w w' dur) ne idle free has
            there fresh
