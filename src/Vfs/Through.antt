-- ===== src/Vfs/Through.antt =====
-- A class that inherits every method of VFSFile stands for the file that it calls (src/vfs.c).
use apsw.Prelude.{
  ℕ, ◌%◌, ◌^◌, ◌≡◌, ◌≢◌, ◌<◌, ◌≤◌, ◌⊎◌, refl, sym, ap, ◌∙◌, true, false, Option, none, some, List,
  ◌==◌, ltb, length, arith, Bool-cases, inl, inr,
}
use mathlib.Core.Path.{subst}
use apsw.Prelude.Int.{ℤ}
use apsw.Errors.{Exn, make_exception, make_sqlite_msg_from_py_exception}
use apsw.Errors.RoundTrip.{code-make_exception}
use apsw.World.{World, raise, set_exc, set_exc-db}
use apsw.Vfs.{FileCall, Plain, Reply, BaseFile, chained}
use apsw.Vfs.File.{
  sqlite_msg, done_reply, unbusy, lock_reply, io_plain, x_write, x_truncate, x_sync, x_lock,
  x_unlock, as_file,
}
use apsw.Vfs.Python.{
  shorten, on_base, none_or_error, file_method, py_plain, py_write, py_truncate, py_sync, py_lock,
  py_unlock, inherited,
}

raise-none : (e : Option Exn) → raise e none ≡ e
raise-none none = refl
raise-none (some e) = refl

module _ {S : Type 0} where
  -- An error of SQLite: its low byte is one of the primary codes 1 to 26, and there is no exception, or
  -- the one that is made of the code.
  abbrev pub Fails : ℕ → World S → Type 0
  Fails code w =
      (0 < code % 256)
      × (code % 256 ≤ 26)
      × (code < 2 ^ 31)
      × ((w.exc ≡ none) ⊎ (w.exc ≡ some (make_exception code)))

  -- What a result code tells: success leaves no exception, and any other code is an error of SQLite.
  abbrev pub Says : ℕ → World S → Type 0
  Says code w = ((code ≡ 0) × (w.exc ≡ none)) ⊎ Fails code w

  -- What a result code of a read tells besides: how many bytes there are, and that a short read ends in
  -- zeros.
  abbrev pub SaysRead : ℕ → ℕ × List ℕ → World S → Type 0
  SaysRead amount (code, buffer) w =
      ((code ≡ 0) × (length buffer ≡ amount) × (w.exc ≡ none))
      ⊎ ((code ≡ 522)
          × (length buffer ≡ amount)
          × (shorten amount buffer < amount)
          × (w.exc ≡ none))
      ⊎ ((code ≢ 522) × Fails code w)

  -- A file that has every method, and whose result codes say what they should, from a call on which no
  -- exception is there.
  pub record Honest (b : BaseFile S) : Type 0 where
    pub has_version : ltb b.i_version 1 ≡ false
    pub has_all : (call : FileCall) → b.implements call ≡ true
    pub says_plain :
        (p : Plain) (w : World S) → w.exc ≡ none → Says (b.x_plain p w).0 (b.x_plain p w).1
    pub says_read :
        (amount : ℕ) (offset : ℤ) (w : World S)
        → w.exc ≡ none
        → SaysRead amount (b.x_read amount offset w).0 (b.x_read amount offset w).1

  quiet : (w : World S) → w.exc ≡ none → record w { exc = none } ≡ w
  quiet w h = ap (λ e. record w { exc = e }) (sym h)

  chained_quiet :
      {A : Type 0} (f : World S → A × World S) (w : World S) → w.exc ≡ none → chained f w ≡ f w
  chained_quiet f w h =
      ap (λ v. ((f v).0, record (f v).1 { exc = raise (f v).1.exc w.exc })) (quiet w h)
      ∙ ap (λ e. ((f w).0, record (f w).1 { exc = e }))
          (ap (raise (f w).1.exc) h ∙ raise-none (f w).1.exc)

  on_base-some :
      (b : BaseFile S) (call : FileCall) (f : BaseFile S → World S → Reply × World S) (w : World S)
      → Honest b
      → on_base (some b) call f w ≡ f b w
  unfolding on_base
  on_base-some b call f w h = rw (h.has_version, h.has_all call) refl

  -- What the file that calls the object gives back for a result code of the file below.
  abbrev pub Passed : ℕ → World S → ℕ × World S → Type 0
  Passed code w x = (x.0 ≡ code) × Says code x.1 × (x.1.db ≡ w.db)

  success_through : (w : World S) → done_reply (none_or_error (0, w)) ≡ (0, w)
  unfolding done_reply none_or_error
  success_through w = refl

  error_through :
      (code : ℕ) (w : World S)
      → code ≢ 0
      → done_reply (none_or_error (code, w)) ≡ (sqlite_msg (set_exc code w), set_exc code w)
  unfolding done_reply none_or_error
  error_through code w ne = elim (Bool-cases (code == 0)) [
    | inl e ↦ absurd (ground (arith, e, ne))
    | inr e ↦ rw e refl
  ]

  pub Fails-nonzero : (code : ℕ) (w : World S) → Fails code w → code ≢ 0
  Fails-nonzero code w h = λ z. absurd (omega (arith, h.0, z))

  set_exc-made :
      (code : ℕ) (w : World S)
      → code ≢ 0
      → (w.exc ≡ none) ⊎ (w.exc ≡ some (make_exception code))
      → (set_exc code w).exc ≡ some (make_exception code)
  unfolding set_exc
  set_exc-made code w ne (inl h) = elim (Bool-cases (code == 0)) [
    | inl e ↦ absurd (ground (arith, e, ne))
    | inr e ↦ rw (e, h) refl
  ]
  set_exc-made code w ne (inr h) = elim (Bool-cases (code == 0)) [
    | inl e ↦ absurd (ground (arith, e, ne))
    | inr e ↦ rw (e, h) refl
  ]

  sqlite_msg-of :
      (e : Exn) (w : World S) → w.exc ≡ some e → sqlite_msg w ≡ make_sqlite_msg_from_py_exception e
  unfolding sqlite_msg
  sqlite_msg-of e w h = rw h refl

  -- The exception of an error gives the code back, and the error stays one.
  pub Fails-back : (code : ℕ) (w : World S) → Fails code w → sqlite_msg (set_exc code w) ≡ code
  Fails-back code w h =
      sqlite_msg-of (make_exception code) (set_exc code w)
        (set_exc-made code w (Fails-nonzero code w h) h.3)
      ∙ code-make_exception code h.0 h.1 h.2

  pub Fails-set_exc : (code : ℕ) (w : World S) → Fails code w → Fails code (set_exc code w)
  Fails-set_exc code w h = (h.0, h.1, h.2, inr (set_exc-made code w (Fails-nonzero code w h) h.3))

  error-Passed :
      (code : ℕ) (w : World S)
      → Fails code w
      → Passed code w (sqlite_msg (set_exc code w), set_exc code w)
  error-Passed code w h = (Fails-back code w h, inr (Fails-set_exc code w h), set_exc-db code w)

  -- A result code goes up as an exception, and comes back the same.
  code_through :
      (code : ℕ) (w : World S) → Says code w → Passed code w (done_reply (none_or_error (code, w)))
  code_through code w (inl (e, h)) =
      subst (λ c. Passed c w (done_reply (none_or_error (c, w)))) (sym e)
        (subst (Passed 0 w) (sym (success_through w)) (refl, inl (refl, h), refl))
  code_through code w (inr h) =
      subst (Passed code w) (sym (error_through code w (Fails-nonzero code w h)))
        (error-Passed code w h)

  busy-Passed :
      (code : ℕ) (w : World S) (x : ℕ × World S)
      → code % 256 ≡ 5
      → Passed code w x
      → Passed code w (x.0, record x.1 { exc = none })
  busy-Passed code w x five (e, inl (z, n), d) = absurd (omega (arith, five, z))
  busy-Passed code w x five (e, inr h, d) = (e, inr (h.0, h.1, h.2, inl refl), d)

  -- The same for a lock, of which a busy one leaves no exception.
  lock-Passed :
      (code : ℕ) (w : World S) (x : ℕ × World S) → Passed code w x → Passed code w (unbusy x)
  unfolding unbusy
  lock-Passed code w (res, w') h = elim (Bool-cases (res % 256 == 5)) [
    | inl e ↦ rw e (busy-Passed code w (res, w') (ground (arith, h.0, e)) h)
    | inr e ↦ rw e h
  ]

  lock_through :
      (code : ℕ) (w : World S) → Says code w → Passed code w (lock_reply (none_or_error (code, w)))
  unfolding lock_reply
  lock_through code w h = lock-Passed code w _ (code_through code w h)

  -- One call of the object, from SQLite to the file below and back.
  pub layer :
      {A : Type 0} (P : A × World S → Type 0) (b : BaseFile S) (call : FileCall)
      (f : BaseFile S → World S → Reply × World S) (g : Reply × World S → A × World S) (w : World S)
      → Honest b
      → w.exc ≡ none
      → P (g (f b w))
      → P (chained (λ v. g (on_base (some b) call f v)) w)
  layer P b call f g w h q k =
      subst P
        (sym (
          chained_quiet (λ v. g (on_base (some b) call f v)) w q
          ∙ ap g (on_base-some b call f w h)))
        k

  -- A call that only gives a result code, through the object and back.
  pub plain_through :
      (b : BaseFile S) (p : Plain) (w : World S)
      → Honest b
      → w.exc ≡ none
      → Passed (b.x_plain p w).0 (b.x_plain p w).1 ((as_file (inherited b)).x_plain p w)
  unfolding as_file io_plain x_write x_truncate x_sync x_lock x_unlock inherited file_method
      py_plain py_write py_truncate py_sync py_lock py_unlock
  plain_through b (Plain.write buffer offset) w h q =
      layer
        (Passed (b.x_plain (Plain.write buffer offset) w).0
          (b.x_plain (Plain.write buffer offset) w).1)
        b _ (py_write buffer offset) done_reply w h q (code_through _ _ (h.says_plain _ w q))
  plain_through b (Plain.truncate size) w h q =
      layer (Passed (b.x_plain (Plain.truncate size) w).0 (b.x_plain (Plain.truncate size) w).1) b _
        (py_truncate size) done_reply w h q (code_through _ _ (h.says_plain _ w q))
  plain_through b (Plain.sync flags) w h q =
      layer (Passed (b.x_plain (Plain.sync flags) w).0 (b.x_plain (Plain.sync flags) w).1) b _
        (py_sync flags) done_reply w h q (code_through _ _ (h.says_plain _ w q))
  plain_through b (Plain.lock level) w h q =
      layer (Passed (b.x_plain (Plain.lock level) w).0 (b.x_plain (Plain.lock level) w).1) b _
        (py_lock level) lock_reply w h q (lock_through _ _ (h.says_plain _ w q))
  plain_through b (Plain.unlock level) w h q =
      layer (Passed (b.x_plain (Plain.unlock level) w).0 (b.x_plain (Plain.unlock level) w).1) b _
        (py_unlock level) done_reply w h q (code_through _ _ (h.says_plain _ w q))
