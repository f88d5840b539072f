-- ===== src/Blob/Session.antt =====
-- The offset of an open blob over a session of method calls (src/blob.c).
use apsw.Prelude.{
  ℕ, ◌<◌, ◌^◌, ◌≡◌, refl, none, some, List, [], ◌∷◌, arith, length, ◌||◌, ◌∙◌, Bool-cases, inl, inr,
}
use apsw.Prelude.Int.{ℤ, pos, ◌+ℤ◌, ◌-ℤ◌, ltb_ℤ, eq_ℤ, wrap32, wrap64, IsInt32, +ℤ_parts}
use apsw.World.{World, sqlite_call}
use apsw.Blob.{
  BlobApi, Blob, Ret, on_open, seek_to, seek_open, seek, write_open, write, read_open, read_bytes,
  read_length, read, read_into_open, into_length, fill_buffer, read_into, reopen_open, reopen,
}
use apsw.Blob.Valid.{Within, BlobLaws, on_open_rule, wrap32_of_IsInt32}
use apsw.Blob.Bounds.{Piece, read_length-Within, checked_pieces, into_length_nonneg, write_fits}
use apsw.Blob.Moves.{Within-int}

-- A call of a method that moves the offset, as part of a session.
pub data Op : Type 0 where
  reads : ℤ → Op
  reads_into : List ℕ → ℤ → ℤ → Op
  seeks : ℤ → ℤ → Op
  writes : List ℕ → Op
  reopens : ℤ → Op

-- Buffers and data are shorter than 2 ^ 62.
abbrev pub Small : List Op → Type 0
Small [] = Unit {0}
Small (reads_into buffer at len ∷ ops) = (length buffer < 2 ^ 62) × Small ops
Small (writes bytes ∷ ops) = (length bytes < 2 ^ 62) × Small ops
Small (_ ∷ ops) = Small ops

module _ {S : Type 0} (api : BlobApi S) where
  abbrev pub void {ℓ} : {A : Type ℓ} → Ret api A → Ret api (Unit {0})
  void (none, b, w) = (none, b, w)
  void (some a, b, w) = (some tt, b, w)

  unfoldable pub perform : Blob → Op → World S → Ret api (Unit {0})
  perform b (reads len) w = void (read api b len w)
  perform b (reads_into buffer at len) w = void (read_into api b (some buffer) at len w)
  perform b (seeks off whence) w = seek api b off whence w
  perform b (writes bytes) w = write api b (some bytes) w
  perform b (reopens rowid) w = reopen api b rowid w

  -- The calls of a session in turn, up to the first that raises.
  unfoldable pub run : Blob → List Op → World S → Ret api (Unit {0})
  run b [] w = (some tt, b, w)
  run b (op ∷ ops) w =
      let (r, b', w') = perform b op w in elim r [ none ↦ (none, b', w') | some _ ↦ run b' ops w' ]

wrap32-Within : (a size : ℤ) → Within a size → IsInt32 size → wrap32 a ≡ a
wrap32-Within a size h int = wrap32_of_IsInt32 a (Within-int a size h int)

module _ {S : Type 0} (api : BlobApi S) (laws : BlobLaws api) where
  -- If the method returned, the offset is in the blob that the handle then shows.
  abbrev pub Stays {ℓ} : {A : Type ℓ} → ℕ → Ret api A → Type 0
  Stays h (none, b, w) = Unit
  Stays h (some a, b, w) = Within b.curoffset (api.blob_bytes w.db h)

  read_bytes-Stays :
      (b : Blob) (h : ℕ) (n : ℤ) (w : World S)
      → Piece (api.blob_bytes w.db h) b.curoffset n
      → Stays h (read_bytes api b h n w)
  unfolding read_bytes sqlite_call
  read_bytes-Stays b h n w p =
      ground (arith, laws.read_keeps w.db h n b.curoffset, +ℤ_parts b.curoffset n)

  read_open-Stays :
      (b : Blob) (len : ℤ) (w : World S) (h : ℕ)
      → Within b.curoffset (api.blob_bytes w.db h)
      → Stays h (read_open api b len w h)
  unfolding read_open
  read_open-Stays b len w h within =
      elim (Bool-cases (eq_ℤ b.curoffset (api.blob_bytes w.db h) || eq_ℤ len (pos 0))) [
        | inl done ↦ rw done within
        | inr more ↦ rw more (
            read_bytes-Stays b h (read_length (api.blob_bytes w.db h) b.curoffset len) w
              (read_length-Within api (api.blob_bytes w.db h) b.curoffset len within))
      ]

  fill_buffer-Stays :
      (b : Blob) (h : ℕ) (buffer : List ℕ) (at n : ℤ) (w : World S)
      → Piece (api.blob_bytes w.db h) b.curoffset n
      → Stays h (fill_buffer api b h buffer at n w)
  unfolding fill_buffer sqlite_call
  fill_buffer-Stays b h buffer at n w p = ground (
    arith,
    laws.read_keeps w.db h n b.curoffset,
    wrap32-Within (b.curoffset +ℤ n) (api.blob_bytes w.db h)
        (omega (arith, +ℤ_parts b.curoffset n), omega arith) (laws.size_int w.db h),
    +ℤ_parts b.curoffset n,
  )

  seek_to-Stays :
      (b : Blob) (target : ℤ) (w : World S) (h : ℕ)
      → Stays h (seek_to api b target (api.blob_bytes w.db h) w)
  unfolding seek_to
  seek_to-Stays b target w h = ground arith

  seek_open-Stays :
      (b : Blob) (off whence : ℤ) (w : World S) (h : ℕ) → Stays h (seek_open api b off whence w h)
  unfolding seek_open
  seek_open-Stays b off whence w h = ground (
    arith,
    seek_to-Stays b off w h,
    seek_to-Stays b (wrap32 (b.curoffset +ℤ off)) w h,
    seek_to-Stays b (wrap32 (api.blob_bytes w.db h +ℤ off)) w h,
  )

  write_open-Stays :
      (b : Blob) (bytes : List ℕ) (w : World S) (h : ℕ)
      → Within b.curoffset (api.blob_bytes w.db h)
      → length bytes < 2 ^ 62
      → Stays h (write_open api b (some bytes) w h)
  unfolding write_open sqlite_call
  write_open-Stays b bytes w h within small = ground (
    arith,
    laws.write_keeps w.db h bytes b.curoffset,
    write_fits api (pos (length bytes)) b.curoffset (api.blob_bytes w.db h) within
        (laws.size_int w.db h) (omega arith) small,
    wrap32-Within (b.curoffset +ℤ pos (length bytes)) (api.blob_bytes w.db h),
    laws.size_int w.db h,
    +ℤ_parts b.curoffset (pos (length bytes)),
  )

  reopen_open-Stays :
      (b : Blob) (rowid : ℤ) (w : World S) (h : ℕ) → Stays h (reopen_open api b rowid w h)
  unfolding reopen_open sqlite_call
  reopen_open-Stays b rowid w h =
      ground (arith, laws.size_nonneg (api.blob_reopen w.db h rowid).2 h)

  -- Returning, a method keeps the handle, and the offset in its blob.
  abbrev Keeps {ℓ} : {A : Type ℓ} → Blob → ℕ → Ret api A → Type 0
  Keeps b h r = Stays h r × (r.1.p_blob ≡ b.p_blob)

  void-Keeps {ℓ} :
      {A : Type ℓ} (b : Blob) (h : ℕ) (r : Ret api A) → Keeps b h r → Keeps b h (void api r)
  void-Keeps b h (none, b', w) k = k
  void-Keeps b h (some a, b', w) k = k

  on_open-Keeps {ℓ} :
      {A : Type ℓ} (b : Blob) (w : World S) (body : ℕ → Ret api A) (h : ℕ)
      → b.p_blob ≡ some h
      → Keeps b h (body h)
      → Keeps b h (on_open api b w body)
  on_open-Keeps b w body h e k =
      on_open_rule api (Keeps b h) b w body (tt, refl) (tt, refl)
        (λ g f _. let same : g ≡ h = ground arith in rw same k)

  read_open-Keeps :
      (b : Blob) (len : ℤ) (w : World S) (h : ℕ)
      → Within b.curoffset (api.blob_bytes w.db h)
      → Keeps b h (read_open api b len w h)
  read_open-Keeps b len w h within =
      (read_open-Stays b len w h within, unfold read_open read_bytes in ground arith)

  -- The checks come one after the other; each refusal keeps the blob as it was.
  read_into_open-Keeps :
      (b : Blob) (buffer : List ℕ) (at len : ℤ) (w : World S) (h : ℕ)
      → Within b.curoffset (api.blob_bytes w.db h)
      → length buffer < 2 ^ 62
      → Keeps b h (read_into_open api b (some buffer) at len w h)
  unfolding read_into_open
  read_into_open-Keeps b buffer at len w h within small =
      let n = into_length (pos (length buffer)) at len in
      let pieces =
        checked_pieces api (api.blob_bytes w.db h) b.curoffset (pos (length buffer)) at n within
          (laws.size_int w.db h) (omega arith) small in
      let nonneg = into_length_nonneg api (pos (length buffer)) at len (omega arith) small in
      elim (Bool-cases (ltb_ℤ at (pos 0) || ltb_ℤ (pos (length buffer)) at)) [
        | inl c1 ↦ rw c1 (tt, refl)
        | inr c1 ↦ elim (Bool-cases (ltb_ℤ (pos (length buffer)) (wrap64 (at +ℤ n)))) [
          | inl c2 ↦ rw (c1, c2) (tt, refl)
          | inr c2 ↦ elim (Bool-cases (ltb_ℤ (api.blob_bytes w.db h -ℤ b.curoffset) n)) [
            | inl c3 ↦ rw (c1, c2, c3) (tt, refl)
            | inr c3 ↦
                rw (c1, c2, c3)
                  (
                    fill_buffer-Stays b h buffer at n w (pieces (nonneg c1) c1 c2 c3).0,
                    unfold fill_buffer in ground arith,
                  )
          ]
        ]
      ]

  perform-Keeps :
      (b : Blob) (op : Op) (w : World S) (h : ℕ)
      → b.p_blob ≡ some h
      → Within b.curoffset (api.blob_bytes w.db h)
      → Small (op ∷ [])
      → Keeps b h (perform api b op w)
  unfolding perform read read_into seek write reopen
  perform-Keeps b (reads len) w h e within small =
      void-Keeps b h (read api b len w)
        (on_open-Keeps b w (read_open api b len w) h e (read_open-Keeps b len w h within))
  perform-Keeps b (reads_into buffer at len) w h e within small =
      void-Keeps b h (read_into api b (some buffer) at len w) (
        on_open-Keeps b w (read_into_open api b (some buffer) at len w) h e
          (read_into_open-Keeps b buffer at len w h within small.0))
  perform-Keeps b (seeks off whence) w h e within small =
      on_open-Keeps b w (seek_open api b off whence w) h e
        (seek_open-Stays b off whence w h, unfold seek_open seek_to in ground arith)
  perform-Keeps b (writes bytes) w h e within small =
      on_open-Keeps b w (write_open api b (some bytes) w) h e
        (write_open-Stays b bytes w h within small.0, unfold write_open in ground arith)
  perform-Keeps b (reopens rowid) w h e within small =
      on_open-Keeps b w (reopen_open api b rowid w) h e
        (reopen_open-Stays b rowid w h, unfold reopen_open in ground arith)

  Small-head : (op : Op) (ops : List Op) → Small (op ∷ ops) → Small (op ∷ []) × Small ops
  Small-head (reads len) ops s = (tt, s)
  Small-head (reads_into buffer at len) ops s = ((s.0, tt), s.1)
  Small-head (seeks off whence) ops s = (tt, s)
  Small-head (writes bytes) ops s = ((s.0, tt), s.1)
  Small-head (reopens rowid) ops s = (tt, s)

  -- After any session of reads, reads into buffers, seeks, writes and changes of row that all
  -- return, the offset is in the blob, if it was at the start, SQLite keeps its promises on sizes
  -- and the buffers are shorter than 2 ^ 62.
  pub run-Stays :
      (b : Blob) (ops : List Op) (w : World S) (h : ℕ)
      → b.p_blob ≡ some h
      → Within b.curoffset (api.blob_bytes w.db h)
      → Small ops
      → Stays h (run api b ops w)
  unfolding run
  run-Stays b [] w h e within small = within
  run-Stays b (op ∷ ops) w h e within small =
      let parts = Small-head op ops small in
      go (perform api b op w) (perform-Keeps b op w h e within parts.0)
        (λ b' w' e' within'. run-Stays b' ops w' h e' within' parts.1)
    where
      go :
          (r : Ret api (Unit {0}))
          → Keeps b h r
          → ((b' : Blob) (w' : World S)
              → b'.p_blob ≡ some h
              → Within b'.curoffset (api.blob_bytes w'.db h)
              → Stays h (run api b' ops w'))
          → Stays h (elim r.0 [ none ↦ (none, r.1, r.2) | some _ ↦ run api r.1 ops r.2 ])
      go (none, b', w') k next = tt
      go (some u, b', w') k next = next b' w' (k.1 ∙ e) k.0
