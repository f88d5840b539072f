-- ===== src/Vfs/ReadThrough.antt =====
-- A read through a class that inherits it from VFSFile (src/vfs.c).
use apsw.Prelude.{
  ℕ, ◌≡◌, ◌≢◌, ◌<◌, ◌⊎◌, refl, sym, ap, ◌∙◌, true, false, none, List, ◌==◌, ltb, length,
  length-take, take, arith, Bool-cases, inl, inr,
}
use mathlib.Core.Path.{subst}
use apsw.Prelude.Int.{ℤ, pos}
use apsw.World.{World, set_exc, set_exc-db}
use apsw.Vfs.{BaseFile}
use apsw.Vfs.File.{sqlite_msg, x_read, read_reply}
use apsw.Vfs.Padding.{shorten-pad, take_all}
use apsw.Vfs.Python.{shorten, read_bytes, file_method, py_read, inherited}
use apsw.Vfs.Through.{SaysRead, Honest, layer, Fails, Fails-back, Fails-nonzero, Fails-set_exc}

ltb_irrefl : (n : ℕ) → ltb n n ≡ false
ltb_irrefl n = ground arith

ltb-true : (m n : ℕ) → m < n → ltb m n ≡ true
ltb-true m n h = ground (arith, h)

module _ {S : Type 0} where
  -- What comes back of a read: the code, and the buffer where it was filled.
  abbrev pub PassedRead : ℕ → ℕ × List ℕ → World S → (ℕ × List ℕ) × World S → Type 0
  PassedRead amount r w x =
      (x.0.0 ≡ r.0)
      × ((r.0 ≡ 0) ⊎ (r.0 ≡ 522) → x.0.1 ≡ r.1)
      × SaysRead amount x.0 x.1
      × (x.1.db ≡ w.db)

  full_read :
      (bufout buf : List ℕ) (w : World S)
      → read_reply (length buf) bufout (read_bytes (length buf) ((0, buf), w)) ≡ ((0, buf), w)
  unfolding read_reply read_bytes
  full_read bufout buf w = rw (ltb_irrefl (length buf), take_all buf) refl

  short_read :
      (bufout buf : List ℕ) (w : World S)
      → shorten (length buf) buf < length buf
      → read_reply (length buf) bufout (read_bytes (length buf) ((522, buf), w)) ≡ ((522, buf), w)
  unfolding read_reply read_bytes
  short_read bufout buf w lt =
      rw (taken, ltb-true (shorten (length buf) buf) (length buf) lt)
        (ap (λ l. ((522, l), w)) (shorten-pad buf))
    where
      taken : length (take (shorten (length buf) buf) buf) ≡ shorten (length buf) buf
      taken = omega (arith, length-take (shorten (length buf) buf) buf, lt)

  failed_read :
      (amount code : ℕ) (bufout buf : List ℕ) (w : World S)
      → code ≢ 0
      → code ≢ 522
      → read_reply amount bufout (read_bytes amount ((code, buf), w))
        ≡ ((sqlite_msg (set_exc code w), bufout), set_exc code w)
  unfolding read_reply read_bytes
  failed_read amount code bufout buf w ne ne' = elim (Bool-cases (code == 0)) [
    | inl e ↦ absurd (ground (arith, e, ne))
    | inr e ↦ rw e (elim (Bool-cases (code == 522)) [
      | inl f ↦ absurd (ground (arith, f, ne'))
      | inr f ↦ rw f refl
    ])
  ]

  -- A short read comes back with the zeros that it lost.
  bytes_through :
      (amount : ℕ) (r : ℕ × List ℕ) (w : World S) (bufout : List ℕ)
      → SaysRead amount r w
      → PassedRead amount r w (read_reply amount bufout (read_bytes amount (r, w)))
  bytes_through amount (code, buf) w bufout (inl (e, len, q)) =
      subst (λ n. PassedRead n (code, buf) w (read_reply n bufout (read_bytes n ((code, buf), w))))
        len
        (subst
          (λ c.
            PassedRead (length buf) (c, buf) w
              (read_reply (length buf) bufout (read_bytes (length buf) ((c, buf), w))))
          (sym e)
          (subst (PassedRead (length buf) (0, buf) w) (sym (full_read bufout buf w))
            (refl, (λ u. refl), inl (refl, refl, q), refl)))
  bytes_through amount (code, buf) w bufout (inr (inl (e, len, lt, q))) =
      subst (λ n. PassedRead n (code, buf) w (read_reply n bufout (read_bytes n ((code, buf), w))))
        len
        (subst
          (λ c.
            PassedRead (length buf) (c, buf) w
              (read_reply (length buf) bufout (read_bytes (length buf) ((c, buf), w))))
          (sym e)
          (subst (PassedRead (length buf) (522, buf) w)
            (sym (short_read bufout buf w (short (sym len) lt)))
            (refl, (λ u. refl), inr (inl (refl, refl, short (sym len) lt, q)), refl)))
    where
      short : {n : ℕ} → n ≡ length buf → shorten n buf < n → shorten (length buf) buf < length buf
      short e' h = subst (λ m. shorten m buf < m) e' h
  bytes_through amount (code, buf) w bufout (inr (inr (ne', bad))) =
      let h = Fails-back code w bad in
      subst (PassedRead amount (code, buf) w)
        (sym (failed_read amount code bufout buf w (Fails-nonzero code w bad) ne'))
        (
          h,
          (λ u. absurd (neither u)),
          inr (
              inr (
                (λ z. ne' (sym h ∙ z)),
                subst (λ c. Fails c (set_exc code w)) (sym h) (Fails-set_exc code w bad),
              )),
          set_exc-db code w,
        )
    where
      neither : (code ≡ 0) ⊎ (code ≡ 522) → ⊥
      neither (inl z) = Fails-nonzero code w bad z
      neither (inr z) = ne' z

  -- A read, through the object and back.
  pub read_through :
      (b : BaseFile S) (amount : ℕ) (offset : ℤ) (bufout : List ℕ) (w : World S)
      → Honest b
      → w.exc ≡ none
      → PassedRead amount
          (b.x_read amount offset w).0
          (b.x_read amount offset w).1
          (x_read (inherited b) amount offset bufout w)
  unfolding x_read inherited file_method py_read
  read_through b amount offset bufout w h q =
      layer (PassedRead amount (b.x_read amount offset w).0 (b.x_read amount offset w).1) b _
        (py_read (pos amount) offset) (read_reply amount bufout) w h q
        (bytes_through amount (b.x_read amount offset w).0 (b.x_read amount offset w).1 bufout
          (h.says_read amount offset w q))
