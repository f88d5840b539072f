-- ===== src/Vtable/Changes.antt =====
-- Changing a row of a virtual table: the code says whether there is an exception (src/vtable.c).
use apsw.Prelude.{ℕ, ◌≡◌, refl, Bool, Option, none, some, List, ◌++◌, ◌⊎◌, inl, inr, Bool-cases}
use apsw.Prelude.Int.{ℤ}
use apsw.Errors.{Exn}
use apsw.World.{World}
use apsw.Vfs.Report.{sqlite_msg_pos}
use apsw.Cursor.Execute.{Column}
use apsw.Functions.{PyObject, given_args}
use apsw.Hooks.Answers.{set_world_exc}
use apsw.Vtable.Update.{
  Change, delete_row, change_row, is_null, update_fails, inserted, insert_row, move_row, change,
}
use apsw.Vtable.{VtableApi}
use apsw.Vtable.Told.{Tells, Told, code_of-Tells, call_method-Told, rowid_number-Tells}

pub under_args :
    {A : Type 0} (P : A → Type 0) (r : List PyObject ⊎ Exn) (f : Exn → A) (g : List PyObject → A)
    → ((e : Exn) → P (f e))
    → ((vargs : List PyObject) → P (g vargs))
    → P (given_args r f g)
unfolding given_args
under_args P (inr e) f g h h' = h e
under_args P (inl vargs) f g h h' = h' vargs

module _ {S : Type 0} (api : VtableApi S) where
  abbrev TellsChanged : ℕ × Option ℤ × World S → Type 0
  TellsChanged r = Tells r.0 r.2

  fails : (w : World S) (e : Exn) → TellsChanged (update_fails api (set_world_exc e w))
  fails w e = inr (sqlite_msg_pos _, refl)

  inserted-Tells :
      (new : Column) (r : Option PyObject × World S) → Told r → TellsChanged (inserted api new r)
  unfolding inserted Told
  inserted-Tells new (none, w) h = inr (sqlite_msg_pos w, h)
  inserted-Tells new (some o, w) h = elim (Bool-cases (is_null new)) [
    | inl q ↦ rw q (rowid_number-Tells api (api.number_index w.db o) w h)
    | inr q ↦ rw q (inl (refl, h))
  ]

  pub change-Tells :
      (table : PyObject) (nc : Bool) (args : Change) (w : World S)
      → w.exc ≡ none
      → TellsChanged (change api table nc args w)
  unfolding change insert_row move_row
  change-Tells table nc (delete_row old) w q =
      under_args TellsChanged _ _ _ (fails w)
        (λ ids. code_of-Tells _ (call_method-Told api table _ ids w q))
  change-Tells table nc (change_row old new fields) w q =
      under_args TellsChanged _ _ _ (fails w) (λ columns. elim (Bool-cases (is_null old)) [
        | inl n ↦ rw n (
            under_args TellsChanged _ _ _ (fails w)
              (λ ids. inserted-Tells new _ (call_method-Told api table _ (ids ++ columns) w q)))
        | inr n ↦ rw n (
            under_args TellsChanged _ _ _ (fails w)
              (λ ids. code_of-Tells _ (call_method-Told api table _ (ids ++ columns) w q)))
      ])
