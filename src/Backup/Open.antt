-- ===== src/Backup/Open.antt =====
-- Making a backup (`Connection_backup` of src/connection.c).
use apsw.Prelude.{
  ℕ, ◌≡◌, refl, ◌∙◌, true, false, Option, none, some, List, [], ◌∷◌, arith, ◌==◌, inl, inr,
  Bool-cases, sym,
}
use apsw.World.{
  World, Call, sqlite_call, occurred, threading_violation, remove_dependent, set_inuse,
}
use apsw.Backup.{BackupApi, Backup, check_source, check_dependents, connection_backup}
use apsw.Backup.Flags.{listed-remove_dead, SameConns, Opens, set_inuse-at, During}
use apsw.Backup.Making.{Fresh, start-Opens}
use Prim.Native.String.{String}

module _ {S : Type 0} (api : BackupApi S) where
  same : (w : World S) → SameConns api w w
  same w c = (refl, refl, λ x. refl)

  call-During :
      (d s : ℕ) (name sname : String) (w : World S)
      → (w.conns s).inuse ≡ false
      → During api s w
          (sqlite_call
            (Call.backup_init d)
            (λ z. api.backup_init z d name s sname)
            (set_inuse s true w)).1
  unfolding sqlite_call
  call-During d s name sname w free c = (
    ground (arith, (set_inuse-at api s c true w).0),
    (set_inuse-at api s c true w).1,
    (set_inuse-at api s c true w).2,
  )

  check_source-Opens :
      (id d s : ℕ) (name sname : String) (w : World S)
      → (w.conns d).open_db ≡ true
      → (w.conns d).inuse ≡ false
      → Fresh api id w
      → Opens api id d s w (check_source api id d name s sname w)
  unfolding check_source
  check_source-Opens id d s name sname w there idle fresh = elim (Bool-cases (w.conns s).open_db) [
    | inr shut ↦ rw shut (refl, same w)
    | inl has ↦ elim (Bool-cases (w.conns s).inuse) [
      | inl used ↦ rw (has, used) (refl, same w)
      | inr free ↦ elim (Bool-cases (s == d)) [
        | inl one ↦ rw (has, free, one) (refl, same w)
        | inr two ↦
            rw (has, free, two)
              (start-Opens api id d s (api.init_handle w.db d name s sname) _ w _
                (call-During d s name sname w free) (ground arith) idle free has there fresh)
      ]
    ]
  ]

  Opens-through :
      (id d s : ℕ) (w w' : World S) (r : Option Backup × World S)
      → SameConns api w w'
      → Opens api id d s w' r
      → Opens api id d s w r
  Opens-through id d s w w' (none, v) eq h =
      (h.0, λ c. ((h.1 c).0 ∙ (eq c).0, (h.1 c).1 ∙ (eq c).1, λ x. (h.1 c).2 x ∙ (eq c).2 x))
  Opens-through id d s w w' (some b, v) eq h = (
    h.0,
    h.1,
    sym (eq s).1 ∙ h.2,
    sym (eq d).1 ∙ h.3,
    λ c. (
      ground (arith, (h.4 c).0, (eq c).0),
      (h.4 c).1 ∙ (eq c).1,
      λ x. ground (arith, (h.4 c).2 x, (eq c).2 x),
    ),
  )

  pub dead-same : (d : ℕ) (w : World S) → SameConns api w (remove_dependent d none w)
  unfolding remove_dependent
  dead-same d w c =
      (ground arith, ground arith, λ x. ground (arith, listed-remove_dead x (w.conns d).dependents))

  pub violation :
      (w : World S)
      → (occurred (threading_violation w) ≡ true) × SameConns api w (threading_violation w)
  unfolding threading_violation
  violation w = (ground arith, λ c. (ground arith, ground arith, λ x. ground arith))

  check_dependents-Opens :
      (ds : List (Option ℕ)) (id d s : ℕ) (name sname : String) (w : World S)
      → (w.conns d).open_db ≡ true
      → (w.conns d).inuse ≡ false
      → Fresh api id w
      → Opens api id d s w (check_dependents api ds id d name s sname w)
  unfolding check_dependents
  check_dependents-Opens [] id d s name sname w there idle fresh =
      check_source-Opens id d s name sname w there idle fresh
  check_dependents-Opens (o ∷ ds) id d s name sname w there idle fresh = (refl, same w)

  pub connection_backup-ends :
      (id d s : ℕ) (name sname : String) (w : World S)
      → Fresh api id w
      → Opens api id d s w (connection_backup api id d name s sname w)
  unfolding connection_backup
  connection_backup-ends id d s name sname w fresh = elim (Bool-cases (w.conns d).inuse) [
    | inl used ↦ rw used (violation w)
    | inr free ↦ elim (Bool-cases (w.conns d).open_db) [
      | inr shut ↦ rw (free, shut) (refl, same w)
      | inl has ↦
          rw (free, has)
            (Opens-through id d s w (remove_dependent d none w) _ (dead-same d w) (
              check_dependents-Opens ((remove_dependent d none w).conns d).dependents id d s name
                sname (remove_dependent d none w) ((dead-same d w d).1 ∙ has)
                ((dead-same d w d).0 ∙ free) (λ c. (dead-same d w c).2 id ∙ fresh c)))
    ]
  ]
