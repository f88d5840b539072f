-- ===== src/Blob/Transfer.antt =====
-- What a read and a write of a blob transfer, and that a session keeps its offset in the blob
-- (src/blob.c).
use apsw.Prelude.{
  ℕ, ◌+◌, ◌-◌, ◌≤◌, ◌<◌, ◌^◌, ◌≡◌, ◌∙◌, true, false, none, some, List, ◌∷◌, arith, length, ◌==◌,
  if◌then◌else◌, min,
}
use apsw.Prelude.Int.{ℤ, pos, pos_part, ◌+ℤ◌, ltb_ℤ, eq_ℤ_iff, wrap32, wrap64}
use apsw.World.{World, Call, sqlite_call, set_exc, occurred}
use apsw.Blob.{BlobApi, Blob, write_open, write, read_open, read_bytes, read}
use apsw.Blob.Valid.{on_open_lem, read_length-min}

-- How many bytes a read of this length gives: what is asked for, and at most what is left.
abbrev pub amount : ℕ → ℕ → ℤ → ℕ
amount size cur len = if ltb_ℤ len (pos 0) then size - cur else min (pos_part len) (size - cur)

module _ {S : Type 0} (api : BlobApi S) where
  write_open_fits :
      (b : Blob) (bytes : List ℕ) (w : World S) (h cur size : ℕ)
      → b.curoffset ≡ pos cur
      → api.blob_bytes w.db h ≡ pos size
      → size < 2 ^ 31
      → cur + length bytes ≤ size
      → let r = api.blob_write w.db h bytes b.curoffset in
        let w' =
          (sqlite_call
            (Call.blob_write h (pos (length bytes)) b.curoffset)
            (λ d. api.blob_write d h bytes b.curoffset)
            w).1 in
        write_open api b (some bytes) w h ≡ (
          if r.0 == 0
          then (some tt, record b { curoffset = pos (cur + length bytes) }, w')
          else (none, b, set_exc r.0 w'))
  unfolding write_open sqlite_call ◌+ℤ◌ wrap32 wrap64
  write_open_fits b bytes w h cur size e f int fits = ground arith

  write_open_too_big :
      (b : Blob) (bytes : List ℕ) (w : World S) (h cur size : ℕ)
      → b.curoffset ≡ pos cur
      → api.blob_bytes w.db h ≡ pos size
      → cur < 2 ^ 31
      → length bytes < 2 ^ 62
      → size < cur + length bytes
      → let r = write_open api b (some bytes) w h in
        (r.0 ≡ none) × (r.1 ≡ b) × (r.2.db ≡ w.db) × (r.2.trace ≡ w.trace) × (occurred r.2 ≡ true)
  unfolding write_open sqlite_call ◌+ℤ◌ wrap32 wrap64
  write_open_too_big b bytes w h cur size e f int small over = ground arith

  -- A write that fits is given to SQLite whole, at the offset; the offset moves by its length if
  -- SQLite accepts it, and stays if not. The blob is open and not in use, and its size an `int`.
  pub write_fits_exact :
      (b : Blob) (bytes : List ℕ) (w : World S) (h cur size : ℕ)
      → b.p_blob ≡ some h
      → b.inuse ≡ false
      → b.curoffset ≡ pos cur
      → api.blob_bytes w.db h ≡ pos size
      → size < 2 ^ 31
      → cur + length bytes ≤ size
      → let r = api.blob_write w.db h bytes b.curoffset in
        let w' =
          (sqlite_call
            (Call.blob_write h (pos (length bytes)) b.curoffset)
            (λ d. api.blob_write d h bytes b.curoffset)
            w).1 in
        write api b (some bytes) w ≡ (
          if r.0 == 0
          then (some tt, record b { curoffset = pos (cur + length bytes) }, w')
          else (none, b, set_exc r.0 w'))
  unfolding write
  write_fits_exact b bytes w h cur size has_handle free e f int fits =
      on_open_lem api b w (write_open api b (some bytes) w) h has_handle free
      ∙ write_open_fits b bytes w h cur size e f int fits

  -- A write that would go past the end raises, and changes neither the blob nor SQLite's state.
  -- The blob is open and not in use, its offset an `int`, and the data shorter than 2 ^ 62.
  pub write_too_big_exact :
      (b : Blob) (bytes : List ℕ) (w : World S) (h cur size : ℕ)
      → b.p_blob ≡ some h
      → b.inuse ≡ false
      → b.curoffset ≡ pos cur
      → api.blob_bytes w.db h ≡ pos size
      → cur < 2 ^ 31
      → length bytes < 2 ^ 62
      → size < cur + length bytes
      → let r = write api b (some bytes) w in
        (r.0 ≡ none) × (r.1 ≡ b) × (r.2.db ≡ w.db) × (r.2.trace ≡ w.trace) × (occurred r.2 ≡ true)
  unfolding write
  write_too_big_exact b bytes w h cur size has_handle free e f int small over =
      rw (on_open_lem api b w (write_open api b (some bytes) w) h has_handle free)
        (write_open_too_big b bytes w h cur size e f int small over)

  read_open-some :
      (b : Blob) (len : ℤ) (w : World S) (h cur size : ℕ) (d' : S)
      → b.curoffset ≡ pos cur
      → api.blob_bytes w.db h ≡ pos size
      → cur ≤ size
      → w.exc ≡ none
      → 0 < amount size cur len
      → api.new_bytes w.db (pos (amount size cur len)) ≡ true
      → api.blob_read w.db h (pos (amount size cur len)) (pos cur) ≡ (0, none, d')
      → read_open api b len w h ≡ (
        some (api.read_data w.db h (pos (amount size cur len)) (pos cur)),
        record b { curoffset = pos (cur + amount size cur len) },
        record w {
          db = d';
          trace = Call.blob_read h (pos (amount size cur len)) (pos cur) ∷ w.trace;
        },
      )
  unfolding read_open read_bytes sqlite_call ◌+ℤ◌
  read_open-some b len w h cur size d' e f le clean more enough reply =
      ground (arith, read_length-min size cur len le, eq_ℤ_iff len (pos 0))

  -- A read gives as many bytes as were asked for and are left, from the offset, and moves the
  -- offset behind them, when there are any and SQLite and the allocation succeed. The blob is open
  -- and not in use, with its offset in it, and no exception is pending.
  pub read_exact :
      (b : Blob) (len : ℤ) (w : World S) (h cur size : ℕ) (d' : S)
      → b.p_blob ≡ some h
      → b.inuse ≡ false
      → b.curoffset ≡ pos cur
      → api.blob_bytes w.db h ≡ pos size
      → cur ≤ size
      → w.exc ≡ none
      → 0 < amount size cur len
      → api.new_bytes w.db (pos (amount size cur len)) ≡ true
      → api.blob_read w.db h (pos (amount size cur len)) (pos cur) ≡ (0, none, d')
      → read api b len w ≡ (
        some (api.read_data w.db h (pos (amount size cur len)) (pos cur)),
        record b { curoffset = pos (cur + amount size cur len) },
        record w {
          db = d';
          trace = Call.blob_read h (pos (amount size cur len)) (pos cur) ∷ w.trace;
        },
      )
  unfolding read
  read_exact b len w h cur size d' has_handle free e f le clean more enough reply =
      on_open_lem api b w (read_open api b len w) h has_handle free
      ∙ read_open-some b len w h cur size d' e f le clean more enough reply
