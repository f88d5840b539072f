-- ===== src/Backup/RoundTrip.antt =====
-- The refusal of a destination with dependents, and what is left after a backup has been closed
-- (`Connection_backup` of src/connection.c, src/backup.c).
use apsw.Prelude.{
  ℕ, ◌≡◌, refl, ◌∙◌, true, false, Option, none, some, List, [], ◌∷◌, arith, inl, inr, Bool-cases,
  ◌<◌,
}
use apsw.World.{World, occurred, threading_violation, remove_dependent, listed}
use apsw.Blob.{Force}
use apsw.Backup.{BackupApi, Backup, check_dependents, connection_backup, close_internal}
use apsw.Backup.Close.{close_internal-Released}
use Prim.Native.String.{String}
use apsw.Backup.Flags.{SameConns, Opens}
use apsw.Backup.Making.{Fresh}
use apsw.Backup.Open.{connection_backup-ends, dead-same}

module _ {S : Type 0} (api : BackupApi S) where
  dead-trace : (d : ℕ) (w : World S) → (remove_dependent d none w).trace ≡ w.trace
  unfolding remove_dependent
  dead-trace d w = refl

  refuses :
      (ds : List (Option ℕ)) (id d s x : ℕ) (name sname : String) (w : World S)
      → 0 < listed x ds
      → let r = check_dependents api ds id d name s sname w in
        (r.0 ≡ none) × (r.1.trace ≡ w.trace) × (occurred r.1 ≡ true)
  unfolding check_dependents
  refuses [] id d s x name sname w live = absurd (omega (arith, live))
  refuses (o ∷ ds) id d s x name sname w live = (refl, refl, refl)

  -- A destination with a live dependent is refused: `sqlite3_backup_init` is not called.
  pub backup_refuses_dependents :
      (id d s x : ℕ) (name sname : String) (w : World S)
      → 0 < listed x (w.conns d).dependents
      → let r = connection_backup api id d name s sname w in
        (r.0 ≡ none) × (r.1.trace ≡ w.trace) × (occurred r.1 ≡ true)
  unfolding connection_backup threading_violation
  backup_refuses_dependents id d s x name sname w live =
      let v = remove_dependent d none w in
      let h =
        refuses (v.conns d).dependents id d s x name sname v
          (ground (arith, (dead-same api d w d).2 x)) in
      elim (Bool-cases (w.conns d).inuse) [
        | inl used ↦ rw used (refl, ground arith, ground arith)
        | inr free ↦ elim (Bool-cases (w.conns d).open_db) [
          | inr shut ↦ rw (free, shut) (refl, refl, refl)
          | inl has ↦ rw (free, has) (h.0, h.1 ∙ dead-trace d w, h.2)
        ]
      ]

  -- The world after a backup, if there is one, has been closed.
  abbrev pub after_close : Force → Option Backup × World S → World S
  after_close f (none, w) = w
  after_close f (some b, w) = (close_internal api b f w).2

  closed-SameConns :
      (id d s : ℕ) (f : Force) (w : World S) (r : Option Backup × World S)
      → (w.conns d).inuse ≡ false
      → Opens api id d s w r
      → SameConns api w (after_close f r)
  closed-SameConns id d s f w (none, v) free o = o.1
  closed-SameConns id d s f w (some b, v) free o =
      let rel = (close_internal-Released api id d s o.0.0 false false f v o.1).0 in
      rw o.0.1 (λ c. (
        ground (arith, rel.1 c, (o.4 c).0),
        rel.2 c ∙ (o.4 c).1,
        λ x. ground (arith, rel.3 c x, (o.4 c).2 x),
      ))

  -- A backup that is made and closed, however it is closed, and a backup that is not made, leave
  -- every connection with the flags, the handle and the live dependents that it had before, also where
  -- memory runs out. No call on the destination is going on, and the new object stands on no list.
  pub backup_round_trip :
      (id d s : ℕ) (name sname : String) (f : Force) (w : World S)
      → (w.conns d).inuse ≡ false
      → Fresh api id w
      → SameConns api w (after_close f (connection_backup api id d name s sname w))
  backup_round_trip id d s name sname f w free fresh =
      closed-SameConns id d s f w _ free (connection_backup-ends api id d s name sname w fresh)
