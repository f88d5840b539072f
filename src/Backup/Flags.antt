-- ===== src/Backup/Flags.antt =====
-- The flags and the dependents of the connections of a backup (src/connection.c).
use apsw.Prelude.{
  ℕ, ◌+◌, ◌≡◌, ◌≢◌, refl, ap, Bool, true, false, Option, none, some, List, [], ◌∷◌, ◌++◌, arith,
  ◌==◌, ◌&&◌, ◌||◌, if◌then◌else◌,
}
use apsw.Errors.{sqlite_ok}
use apsw.World.{World, set_exc, occurred, add_dependent, set_inuse, listed, remove_from}
use apsw.Backup.{BackupApi, Backup}
use apsw.Backup.Close.{open_backup}

-- Taking the dead references off a list keeps the others, and leaves none if no object is listed.
pub listed-remove_dead :
    (x : ℕ) (ds : List (Option ℕ)) → listed x (remove_from none ds) ≡ listed x ds
unfolding remove_from
listed-remove_dead x [] = refl
listed-remove_dead x (none ∷ ds) = listed-remove_dead x ds
listed-remove_dead x (some d ∷ ds) = ground (arith, listed-remove_dead x ds)

listed-append :
    (x o : ℕ) (ds : List (Option ℕ))
    → listed x (ds ++ (some o ∷ [])) ≡ listed x ds + (if x == o then 1 else 0)
listed-append x o [] = ground arith
listed-append x o (none ∷ ds) = listed-append x o ds
listed-append x o (some d ∷ ds) = ground (arith, listed-append x o ds)

module _ {S : Type 0} (api : BackupApi S) where
  -- Two worlds with the same flags, handles and live dependents of every connection.
  abbrev pub SameConns : World S → World S → Type 0
  SameConns w w' =
      (c : ℕ)
      → ((w'.conns c).inuse ≡ (w.conns c).inuse)
        × ((w'.conns c).open_db ≡ (w.conns c).open_db)
        × ((x : ℕ) → listed x (w'.conns c).dependents ≡ listed x (w.conns c).dependents)

  -- What `Connection_backup` ends with: an exception and nothing changed of the connections; or the
  -- open object, the destination in use and the source not, and the object on both lists.
  abbrev pub Opens : ℕ → ℕ → ℕ → World S → Option Backup × World S → Type 0
  Opens id d s w (none, w') = (occurred w' ≡ true) × SameConns w w'
  Opens id d s w (some b, w') =
      ((h : ℕ) × (b ≡ open_backup api id d s h false false))
      × (d ≢ s)
      × ((w.conns s).open_db ≡ true)
      × ((w.conns d).open_db ≡ true)
      × ((c : ℕ)
          → ((w'.conns c).inuse ≡ (c == d || (w.conns c).inuse))
            × ((w'.conns c).open_db ≡ (w.conns c).open_db)
            × ((x : ℕ)
                → listed x (w'.conns c).dependents
                  ≡ listed x (w.conns c).dependents
                    + (if (c == d || c == s) && x == id then 1 else 0)))

  pub set_inuse-at :
      (con c : ℕ) (flag : Bool) (w : World S)
      → let k = (set_inuse con flag w).conns c in
        (k.inuse ≡ (if c == con then flag else (w.conns c).inuse))
        × (k.open_db ≡ (w.conns c).open_db)
        × (k.dependents ≡ (w.conns c).dependents)
  unfolding set_inuse
  set_inuse-at con c flag w = (ground arith, ground arith, ground arith)

  pub add_dependent-at :
      (con o c : ℕ) (w : World S)
      → let k = (add_dependent con o w).conns c in
        (k.inuse ≡ (w.conns c).inuse)
        × (k.open_db ≡ (w.conns c).open_db)
        × ((x : ℕ)
            → listed x k.dependents
              ≡ listed x (w.conns c).dependents + (if c == con && x == o then 1 else 0))
  unfolding add_dependent
  add_dependent-at con o c w =
      (ground arith, ground arith, λ x. ground (arith, listed-append x o (w.conns con).dependents))

  pub set_exc-conns : (res : ℕ) (w : World S) → (set_exc res w).conns ≡ w.conns
  unfolding set_exc
  set_exc-conns res w = ground arith

  -- The connections while `sqlite3_backup_init` runs.
  abbrev pub During : ℕ → World S → World S → Type 0
  During s w w' =
      (c : ℕ)
      → ((w'.conns c).inuse ≡ (c == s || (w.conns c).inuse))
        × ((w'.conns c).open_db ≡ (w.conns c).open_db)
        × ((w'.conns c).dependents ≡ (w.conns c).dependents)

  pub During-listed :
      (x c s : ℕ) (w w' : World S)
      → During s w w'
      → listed x (w'.conns c).dependents ≡ listed x (w.conns c).dependents
  During-listed x c s w w' dur = ap (listed x) (dur c).2

  pub set_exc-occurs : (res : ℕ) (w : World S) → res ≢ sqlite_ok → occurred (set_exc res w) ≡ true
  unfolding set_exc
  set_exc-occurs res w bad = ground arith

  pub set_inuse-exc : (con : ℕ) (flag : Bool) (w : World S) → (set_inuse con flag w).exc ≡ w.exc
  unfolding set_inuse
  set_inuse-exc con flag w = refl
