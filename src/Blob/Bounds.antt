-- ===== src/Blob/Bounds.antt =====
-- No read or write of a blob reaches outside it, or outside the caller's buffer (src/blob.c).
use apsw.Prelude.{
  ℕ, ◌<◌, ◌^◌, ◌≡◌, ◌⊎◌, inl, inr, refl, false, some, List, ◌∷◌, arith, length, ◌||◌, Bool-cases,
}
use apsw.Prelude.Int.{
  ℤ, pos, pos_part, ◌+ℤ◌, ◌-ℤ◌, ◌≤ℤ◌, ltb_ℤ, eq_ℤ, wrap32, wrap64, IsInt32, +ℤ_parts, -ℤ_parts,
  wrap64_nonneg,
}
use apsw.World.{World, Call, sqlite_call, set_exc, threading_violation}
use apsw.Blob.{
  BlobApi, Blob, read_length, read_bytes, read_open, read, fill_buffer, read_into_open, into_length,
  read_into, write_open, write,
}
use apsw.Blob.Valid.{Within, on_open_rule}

-- A piece of a blob of this size.
abbrev pub Piece : ℤ → ℤ → ℤ → Type 0
Piece size off n = (pos 0 ≤ℤ n) × (pos 0 ≤ℤ off) × (off +ℤ n ≤ℤ size)

-- A call of SQLite was made for a piece of the blob, or none was made.
abbrev pub Reads : ℕ → ℤ → List Call → List Call → Type 0
Reads h size old new =
    (new ≡ old) ⊎ ((n : ℤ) × (off : ℤ) × (new ≡ Call.blob_read h n off ∷ old) × Piece size off n)

-- A piece of the blob was read into a piece of the buffer.
abbrev pub Fills : ℕ → ℤ → ℤ → ℤ → List Call → List Call → Type 0
Fills h size len at old new =
    (new ≡ old)
    ⊎ ((n : ℤ) × (off : ℤ) × (new ≡ Call.blob_read h n off ∷ old)
        × Piece size off n
        × Piece len at n)

abbrev pub Writes : ℕ → ℤ → List Call → List Call → Type 0
Writes h size old new =
    (new ≡ old) ⊎ ((n : ℤ) × (off : ℤ) × (new ≡ Call.blob_write h n off ∷ old) × Piece size off n)

module _ {S : Type 0} (api : BlobApi S) where
  pub read_length-Within :
      (size off len : ℤ) → Within off size → Piece size off (read_length size off len)
  unfolding read_length
  read_length-Within size off len within =
      ground (arith, -ℤ_parts size off, +ℤ_parts off len, +ℤ_parts off (size -ℤ off))

  read_bytes-Reads :
      (b : Blob) (h : ℕ) (n : ℤ) (w : World S)
      → Piece (api.blob_bytes w.db h) b.curoffset n
      → Reads h (api.blob_bytes w.db h) w.trace (read_bytes api b h n w).2.trace
  unfolding read_bytes sqlite_call set_exc
  read_bytes-Reads b h n w p = elim (Bool-cases (api.new_bytes w.db n)) [
    | inl e ↦ inr (n, b.curoffset, ground arith, p)
    | inr e ↦ inl (ground arith)
  ]

  read_open-Reads :
      (b : Blob) (len : ℤ) (w : World S) (h : ℕ)
      → Within b.curoffset (api.blob_bytes w.db h)
      → Reads h (api.blob_bytes w.db h) w.trace (read_open api b len w h).2.trace
  unfolding read_open
  read_open-Reads b len w h within =
      elim (Bool-cases (eq_ℤ b.curoffset (api.blob_bytes w.db h) || eq_ℤ len (pos 0))) [
        | inl done ↦ inl (rw done)
        | inr more ↦ rw more (
            read_bytes-Reads b h (read_length (api.blob_bytes w.db h) b.curoffset len) w
              (read_length-Within (api.blob_bytes w.db h) b.curoffset len within))
      ]

  used_trace : (w : World S) → (threading_violation w).trace ≡ w.trace
  unfolding threading_violation
  used_trace w = ground arith

  -- `read`, with any length, asks SQLite at most for a piece of the blob, when the offset is in it.
  pub read-Reads :
      (b : Blob) (len : ℤ) (w : World S) (h : ℕ)
      → b.p_blob ≡ some h
      → Within b.curoffset (api.blob_bytes w.db h)
      → Reads h (api.blob_bytes w.db h) w.trace (read api b len w).2.trace
  unfolding read
  read-Reads b len w h e within =
      on_open_rule api (λ r. Reads h (api.blob_bytes w.db h) w.trace r.2.trace) b w
        (read_open api b len w) (inl (used_trace w)) (inl refl)
        (λ g f _. let same : g ≡ h = ground arith in rw same (read_open-Reads b len w h within))

  fill_buffer-Fills :
      (b : Blob) (h : ℕ) (buffer : List ℕ) (at n : ℤ) (w : World S)
      → Piece (api.blob_bytes w.db h) b.curoffset n
      → Piece (pos (length buffer)) at n
      → Fills h
          (api.blob_bytes w.db h)
          (pos (length buffer))
          at
          w.trace
          (fill_buffer api b h buffer at n w).2.trace
  unfolding fill_buffer sqlite_call set_exc
  fill_buffer-Fills b h buffer at n w p q = inr (n, b.curoffset, ground arith, p, q)

  pub into_length_nonneg :
      (len at length' : ℤ)
      → pos 0 ≤ℤ len
      → pos_part len < 2 ^ 62
      → (ltb_ℤ at (pos 0) || ltb_ℤ len at) ≡ false
      → pos 0 ≤ℤ into_length len at length'
  unfolding into_length
  into_length_nonneg len at length' le small c1 =
      ground (arith, -ℤ_parts len at, wrap64_nonneg (len -ℤ at))

  -- The checks of `read_into` leave a piece of the blob and of the buffer, also where the sum of
  -- offset and length wraps.
  pub checked_pieces :
      (size cur len at n : ℤ)
      → Within cur size
      → IsInt32 size
      → pos 0 ≤ℤ len
      → pos_part len < 2 ^ 62
      → pos 0 ≤ℤ n
      → (ltb_ℤ at (pos 0) || ltb_ℤ len at) ≡ false
      → ltb_ℤ len (wrap64 (at +ℤ n)) ≡ false
      → ltb_ℤ (size -ℤ cur) n ≡ false
      → Piece size cur n × Piece len at n
  checked_pieces size cur len at n within int pos_len small pos_n c1 c2 c3 =
      ground (arith, -ℤ_parts size cur, +ℤ_parts cur n, +ℤ_parts at n, wrap64_nonneg (at +ℤ n))

  read_into_open-Fills :
      (b : Blob) (buffer : List ℕ) (at len : ℤ) (w : World S) (h : ℕ)
      → Within b.curoffset (api.blob_bytes w.db h)
      → IsInt32 (api.blob_bytes w.db h)
      → length buffer < 2 ^ 62
      → Fills h
          (api.blob_bytes w.db h)
          (pos (length buffer))
          at
          w.trace
          (read_into_open api b (some buffer) at len w h).2.trace
  unfolding read_into_open
  read_into_open-Fills b buffer at len w h within int small =
      elim (Bool-cases (ltb_ℤ at (pos 0) || ltb_ℤ (pos (length buffer)) at)) [
        | inl c1 ↦ inl (rw c1)
        | inr c1 ↦
            let n = into_length (pos (length buffer)) at len in
            elim (Bool-cases (ltb_ℤ (pos (length buffer)) (wrap64 (at +ℤ n)))) [
              | inl c2 ↦ inl (rw (c1, c2))
              | inr c2 ↦ elim (Bool-cases (ltb_ℤ (api.blob_bytes w.db h -ℤ b.curoffset) n)) [
                | inl c3 ↦ inl (rw (c1, c2, c3))
                | inr c3 ↦
                    let pieces =
                      checked_pieces (api.blob_bytes w.db h) b.curoffset (pos (length buffer)) at n
                        within int (omega arith) small
                        (into_length_nonneg (pos (length buffer)) at len (omega arith) small c1) c1
                        c2 c3 in
                    rw (c1, c2, c3) (fill_buffer-Fills b h buffer at n w pieces.0 pieces.1)
              ]
            ]
      ]

  -- `read_into` reads a piece of the blob into a piece of the buffer, or makes no call, whatever
  -- offset and length it is given, when the offset of the blob is in it and the buffer is shorter
  -- than 2 ^ 62.
  pub read_into-Fills :
      (b : Blob) (buffer : List ℕ) (at len : ℤ) (w : World S) (h : ℕ)
      → b.p_blob ≡ some h
      → Within b.curoffset (api.blob_bytes w.db h)
      → IsInt32 (api.blob_bytes w.db h)
      → length buffer < 2 ^ 62
      → Fills h
          (api.blob_bytes w.db h)
          (pos (length buffer))
          at
          w.trace
          (read_into api b (some buffer) at len w).2.trace
  unfolding read_into
  read_into-Fills b buffer at len w h e within int small =
      on_open_rule api
        (λ r. Fills h (api.blob_bytes w.db h) (pos (length buffer)) at w.trace r.2.trace) b w
        (read_into_open api b (some buffer) at len w) (inl (used_trace w)) (inl refl)
        (λ g f _.
          let same : g ≡ h = ground arith in
          rw same (read_into_open-Fills b buffer at len w h within int small))

  pub write_fits :
      (len cur size : ℤ)
      → Within cur size
      → IsInt32 size
      → pos 0 ≤ℤ len
      → pos_part len < 2 ^ 62
      → ltb_ℤ size (wrap64 (len +ℤ cur)) ≡ false
      → cur +ℤ len ≤ℤ size
  write_fits len cur size within int le small c =
      ground (arith, +ℤ_parts len cur, +ℤ_parts cur len, wrap64_nonneg (len +ℤ cur))

  write_open-Writes :
      (b : Blob) (bytes : List ℕ) (w : World S) (h : ℕ)
      → Within b.curoffset (api.blob_bytes w.db h)
      → IsInt32 (api.blob_bytes w.db h)
      → length bytes < 2 ^ 62
      → Writes h (api.blob_bytes w.db h) w.trace (write_open api b (some bytes) w h).2.trace
  unfolding write_open sqlite_call set_exc
  write_open-Writes b bytes w h within int small =
      let end = pos (length bytes) +ℤ b.curoffset in
      elim (Bool-cases (ltb_ℤ (wrap32 (wrap64 end)) (pos 0))) [
        | inl c1 ↦ inl (rw c1)
        | inr c1 ↦ elim (Bool-cases (ltb_ℤ (api.blob_bytes w.db h) (wrap64 end))) [
          | inl c2 ↦ inl (rw (c1, c2))
          | inr c2 ↦ inr (
            pos (length bytes),
            b.curoffset,
            ground arith,
            (
              omega arith,
              within.0,
              write_fits (pos (length bytes)) b.curoffset (api.blob_bytes w.db h) within int
                  (omega arith) small c2,
            ),
          )
        ]
      ]

  -- `write` writes a piece of the blob or makes no call, when the offset is in the blob and the
  -- data is shorter than 2 ^ 62: a blob is never written past its end.
  pub write-Writes :
      (b : Blob) (bytes : List ℕ) (w : World S) (h : ℕ)
      → b.p_blob ≡ some h
      → Within b.curoffset (api.blob_bytes w.db h)
      → IsInt32 (api.blob_bytes w.db h)
      → length bytes < 2 ^ 62
      → Writes h (api.blob_bytes w.db h) w.trace (write api b (some bytes) w).2.trace
  unfolding write
  write-Writes b bytes w h e within int small =
      on_open_rule api (λ r. Writes h (api.blob_bytes w.db h) w.trace r.2.trace) b w
        (write_open api b (some bytes) w) (inl (used_trace w)) (inl refl)
        (λ g f _.
          let same : g ≡ h = ground arith in
          rw same (write_open-Writes b bytes w h within int small))
