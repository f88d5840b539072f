-- ===== src/Vtable/Scan.antt =====
-- A scan of a virtual table (src/vtable.c): SQLite's calls of a cursor, and a cursor of Python over a list.
use mathlib.Core.Option
use apsw.Prelude.{
  ℕ, zero, suc, ◌≡◌, refl, ap, ◌∙◌, true, Option, none, some, List, [], ◌∷◌, inl, length,
}
use apsw.Prelude.Int.{ℤ, pos}
use apsw.World.{World}
use apsw.Cursor.{none_value, int_value}
use apsw.Cursor.Binding.{fits_int64}
use apsw.Functions.{plain, by_exception}
use apsw.Hooks.Answers.{answered, int_of, on_int}
use apsw.Vtable.{
  eof, rowid, next, VtableApi, VtableCursor, code_of, call_method, eof_result, x_eof, rowid_number,
  rowid_result, x_rowid, x_next,
}

module _ {S : Type 0} where
  -- What follows where a code is 0; another code ends the scan.
  unfoldable pub at_eof :
      ℕ × World S → (World S → Option (List ℤ × World S)) → Option (List ℤ × World S)
  at_eof (zero, w) go = go w
  at_eof (suc e, w) go = some ([], w)

  unfoldable pub at_rowid :
      ℕ × Option ℤ × World S → (ℤ → World S → Option (List ℤ × World S)) → Option (List ℤ × World S)
  at_rowid (res, none, w) go = some ([], w)
  at_rowid (res, some r, w) go = go r w

module _ {S : Type 0} (api : VtableApi S) where
  -- SQLite's scan after the filter, with fuel: up to the end or the first error, the number of a row and then
  -- the next; `none` is out of fuel.
  unfoldable pub scan : ℕ → VtableCursor → World S → Option (List ℤ × World S)
  scan zero c w = none
  scan (suc n) c w = at_eof (x_eof api c w) (λ w1.
      at_rowid (x_rowid api c w1)
        (λ r w2. at_eof (x_next api c w2) (λ w3. Option.map (λ s. (r ∷ s.0, s.1)) (scan n c w3))))

abbrev pub end_flag : List ℤ → ℕ
end_flag [] = 1
end_flag (r ∷ rs) = 0

-- A cursor of Python over a list: what is left of it is part of the state.
pub record CursorLaws {S : Type 0} (api : VtableApi S) (c : VtableCursor) : Type 0 where
  pub left : S → List ℤ
  pub eof_law :
      (d : S)
      → api.method d c.cursor eof [] ≡ (inl (plain (int_value (pos (end_flag (left d))))), d)
  pub rowid_law :
      (d : S) (r : ℤ) (rs : List ℤ)
      → left d ≡ r ∷ rs
      → (api.method d c.cursor rowid [] ≡ (inl (plain (int_value r)), d))
        × (api.number_long d (plain (int_value r)) ≡ (inl r, d))
        × (fits_int64 r ≡ true)
  pub step : S → S
  pub next_law :
      (d : S) (r : ℤ) (rs : List ℤ)
      → left d ≡ r ∷ rs
      → (api.method d c.cursor next [] ≡ (inl (plain none_value), step d)) × (left (step d) ≡ rs)

module _ {S : Type 0} (api : VtableApi S) (c : VtableCursor) (laws : CursorLaws api c) where
  -- The world where an exception is not set, in another state of SQLite and Python.
  abbrev moved : S → World S → World S
  moved d w = record w { db = d; exc = none }

  x_eof-law :
      (d : S) (w : World S) (rs : List ℤ)
      → laws.left d ≡ rs
      → x_eof api c (moved d w) ≡ (end_flag rs, moved d w)
  unfolding x_eof by_exception eof_result call_method answered int_of on_int
  x_eof-law d w [] q = rw (laws.eof_law d, q) refl
  x_eof-law d w (r ∷ rs) q = rw (laws.eof_law d, q) refl

  x_rowid-law :
      (d : S) (w : World S) (r : ℤ) (rs : List ℤ)
      → laws.left d ≡ r ∷ rs
      → x_rowid api c (moved d w) ≡ (0, some r, moved d w)
  unfolding x_rowid by_exception rowid_result rowid_number call_method answered
  x_rowid-law d w r rs q =
      rw ((laws.rowid_law d r rs q).0, (laws.rowid_law d r rs q).1, (laws.rowid_law d r rs q).2)
        refl

  x_next-law :
      (d : S) (w : World S) (r : ℤ) (rs : List ℤ)
      → laws.left d ≡ r ∷ rs
      → x_next api c (moved d w) ≡ (0, moved (laws.step d) w)
  unfolding x_next code_of call_method answered
  x_next-law d w r rs q = rw ((laws.next_law d r rs q).0) refl

  scan_left :
      (rs : List ℤ) (d : S) (w : World S)
      → laws.left d ≡ rs
      → (d' : S) × (scan api (suc (length rs)) c (moved d w) ≡ some (rs, moved d' w))
  unfolding scan at_eof at_rowid
  scan_left [] d w q = (d, rw (x_eof-law d w [] q) refl)
  scan_left (r ∷ rs) d w q =
      let (d', rest) = scan_left rs (laws.step d) w (laws.next_law d r rs q).1 in
      (d', rw (x_eof-law d w (r ∷ rs) q, x_rowid-law d w r rs q, x_next-law d w r rs q, rest) refl)

  -- A scan of a cursor of Python over a list gives the numbers of the list in their order and ends, with as
  -- much fuel as it has rows and one more, and leaves no exception. There is none before, and the numbers are
  -- of 64 bits.
  pub scan_all :
      (w : World S)
      → w.exc ≡ none
      → (d : S) × (scan api (suc (length (laws.left w.db))) c w
          ≡ some (laws.left w.db, record w { db = d; exc = none }))
  scan_all w q =
      let (d, done) = scan_left (laws.left w.db) w.db w refl in
      (d, ap (λ x. scan api (suc (length (laws.left w.db))) c (record w { exc = x })) q ∙ done)
