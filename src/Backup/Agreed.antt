-- ===== src/Backup/Agreed.antt =====
-- The assertion on the result of making a backup (`Connection_backup` of src/connection.c).
use apsw.Prelude.{
  ℕ, ◌≡◌, refl, ◌∙◌, ap, true, false, Option, none, some, List, [], ◌∷◌, ◌==◌, arith, is_some, not,
  inl, inr, Bool-cases,
}
use apsw.Errors.{Exn}
use apsw.World.{World, sqlite_call, add_dependent, set_inuse, remove_dependent, raise}
use apsw.Backup.{
  BackupApi, Backup, backup_init, start, check_source, check_dependents, connection_backup, dealloc,
  unless_error, add_reference, on_source, on_dest, make_object, result_agrees,
}
use apsw.Backup.Close.{open_backup}
use apsw.Backup.Flags.{Opens, set_exc-occurs, set_inuse-exc}
use apsw.Backup.Making.{Fresh, finish-occurs, dealloc-occurred}
use apsw.Backup.Open.{connection_backup-ends, violation}
use Prim.Native.String.{String}

module _ {S : Type 0} (api : BackupApi S) where
  -- No callback raises while `sqlite3_backup_init` makes a handle.
  abbrev pub QuietInit : S → ℕ → ℕ → String → String → Type 0
  QuietInit db d s name sname =
      is_some (api.init_handle db d name s sname) ≡ true
      → (api.backup_init db d name s sname).1 ≡ none

  -- The assertion on the result holds for a new object, where no callback has raised.
  made-agrees :
      (id d s h : ℕ) (x : Option Exn) (w : World S)
      → w.exc ≡ none
      → result_agrees api (make_object api id d s h x w) ≡ true
  unfolding make_object backup_init add_reference result_agrees
  made-agrees id d s h (some e) w q = finish-occurs api s h e w
  made-agrees id d s h none w q = listed_dest (api.reference_error v.db d) (api.append_error v.db d)
    where
      b : Backup
      b = open_backup api id d s h false false

      v : World S
      v = set_inuse d true w

      shut :
          (e : Exn) (u : World S)
          → result_agrees api (none, set_inuse s false (dealloc api b (record u { exc = some e })))
            ≡ true
      shut e u =
          unfold result_agrees set_inuse in dealloc-occurred api b (record u { exc = some e }) refl

      listed_source :
          (x y : Option Exn)
          → result_agrees api (
              on_source api b s (
                unless_error api x (add_dependent d id v) (
                  unless_error api y
                    (add_dependent d id v)
                    (true, add_dependent s id (add_dependent d id v)))))
            ≡ true
      listed_source (some e) y = unfold on_source unless_error in shut e (add_dependent d id v)
      listed_source none (some e) = unfold on_source unless_error in shut e (add_dependent d id v)
      listed_source none none =
          unfold on_source unless_error result_agrees set_inuse add_dependent in
          ap (λ e. not (is_some e)) q

      listed_dest :
          (x y : Option Exn)
          → result_agrees api (
              on_dest api b s
                (unless_error api x v (unless_error api y v (true, add_dependent d id v))))
            ≡ true
      listed_dest (some e) y = unfold on_dest unless_error in shut e v
      listed_dest none (some e) = unfold on_dest unless_error in shut e v
      listed_dest none none = unfold on_dest unless_error add_reference in listed_source _ _

  start-agrees :
      (id d s : ℕ) (p : Option ℕ) (res : ℕ) (w : World S)
      → (is_some p ≡ true → w.exc ≡ none)
      → result_agrees api (start api id d s p res w) ≡ true
  unfolding start result_agrees
  start-agrees id d s none res w quiet =
      ap is_some (set_inuse-exc api s false _) ∙ set_exc-occurs api _ w (ground arith)
  start-agrees id d s (some h) res w quiet =
      made-agrees id d s h (api.object_error w.db) w (quiet refl)

  check_source-agrees :
      (id d s : ℕ) (name sname : String) (w : World S)
      → w.exc ≡ none
      → QuietInit w.db d s name sname
      → result_agrees api (check_source api id d name s sname w) ≡ true
  unfolding check_source result_agrees sqlite_call set_inuse
  check_source-agrees id d s name sname w clean quiet = elim (Bool-cases (w.conns s).open_db) [
    | inr shut ↦ rw shut refl
    | inl has ↦ elim (Bool-cases (w.conns s).inuse) [
      | inl used ↦ rw (has, used) refl
      | inr free ↦ elim (Bool-cases (s == d)) [
        | inl one ↦ rw (has, free, one) refl
        | inr two ↦
            rw (has, free, two)
              (start-agrees id d s (api.init_handle w.db d name s sname) _ _
                (λ there. ap (λ e. raise e w.exc) (quiet there) ∙ clean))
      ]
    ]
  ]

  check_dependents-agrees :
      (ds : List (Option ℕ)) (id d s : ℕ) (name sname : String) (w : World S)
      → w.exc ≡ none
      → QuietInit w.db d s name sname
      → result_agrees api (check_dependents api ds id d name s sname w) ≡ true
  unfolding check_dependents
  check_dependents-agrees [] id d s name sname w clean quiet =
      check_source-agrees id d s name sname w clean quiet
  check_dependents-agrees (o ∷ ds) id d s name sname w clean quiet = unfold result_agrees in refl

  connection_backup-agrees :
      (id d s : ℕ) (name sname : String) (w : World S)
      → w.exc ≡ none
      → QuietInit w.db d s name sname
      → result_agrees api (connection_backup api id d name s sname w) ≡ true
  unfolding connection_backup
  connection_backup-agrees id d s name sname w clean quiet = elim (Bool-cases (w.conns d).inuse) [
    | inl used ↦ rw used (unfold result_agrees in (violation api w).0)
    | inr free ↦ elim (Bool-cases (w.conns d).open_db) [
      | inr shut ↦ rw (free, shut) (unfold result_agrees in refl)
      | inl has ↦
          rw (free, has)
            (unfold remove_dependent in
              (check_dependents-agrees ((remove_dependent d none w).conns d).dependents id d s name
                sname (remove_dependent d none w) clean quiet))
    ]
  ]

  -- Where no exception is there, no callback raises while SQLite makes a handle, and the object is a new one,
  -- on no list, `Connection_backup` ends in one of two ways on every branch, those without memory
  -- for the object or for its weak references included. It raises, and then each connection has its
  -- flags, its handle and its live dependents as before, so that the source is not left in use. Or
  -- it returns an open backup and no exception is there, and then the source is another connection
  -- than the destination, both are open, the destination and no other connection has come to be in
  -- use, and the object stands once more on the lists of the two.
  pub connection_backup-Opens :
      (id d s : ℕ) (name sname : String) (w : World S)
      → Fresh api id w
      → w.exc ≡ none
      → QuietInit w.db d s name sname
      → let r = connection_backup api id d name s sname w in
        Opens api id d s w r × (result_agrees api r ≡ true)
  connection_backup-Opens id d s name sname w fresh clean quiet = (
    connection_backup-ends api id d s name sname w fresh,
    connection_backup-agrees id d s name sname w clean quiet,
  )
