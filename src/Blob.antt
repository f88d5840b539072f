-- ===== src/Blob.antt =====
-- Incremental blob I/O and zero blobs (src/blob.c). A method returns its value, `none` for NULL,
-- with the object and the world after it. Its arguments are those that the argument parser hands
-- over.
pub mod Valid
pub mod Bounds
pub mod Moves
pub mod Transfer
pub mod Session
pub mod Life
pub mod Zeroblob
pub mod Tests
use apsw.Prelude.{
  ℕ, zero, suc, ◌+◌, ◌<◌, ◌≡◌, Bool, true, false, Option, none, some, List, [], ◌∷◌, ◌++◌, ◌==◌,
  if◌then◌else◌, ◌&&◌, ◌||◌, not, length, take, drop,
}
use apsw.Prelude.Int.{ℤ, pos, negsuc, pos_part, ◌+ℤ◌, ◌-ℤ◌, ltb_ℤ, eq_ℤ, wrap32, wrap64}
use apsw.Errors.{Exn, ExcClass, sqlite_ok}
use apsw.World.{
  World, Call, sqlite_call, set_exc, occurred, err_format, threading_violation, write_unraisable,
  remove_dependent,
}

-- What is called of SQLite and of Python: the size, a read (its code, and the bytes that it gives),
-- a write, the end, the change of row; and whether a `bytes` of a length can be made.
pub record BlobApi (S : Type 0) : Type 0 where
  pub blob_bytes : S → ℕ → ℤ
  pub blob_read : S → ℕ → ℤ → ℤ → ℕ × Option Exn × S
  pub read_data : S → ℕ → ℤ → ℤ → List ℕ
  pub blob_write : S → ℕ → List ℕ → ℤ → ℕ × Option Exn × S
  pub blob_close : S → ℕ → ℕ × Option Exn × S
  pub blob_reopen : S → ℕ → ℤ → ℕ × Option Exn × S
  pub new_bytes : S → ℤ → Bool
  pub new_bytes_error : Exn
  pub buffer_error : Exn

-- `id` tells the object from others; `curoffset` is a C `int`.
pub record Blob : Type 0 where
  pub id : ℕ
  pub connection : Option ℕ
  pub p_blob : Option ℕ
  pub inuse : Bool
  pub curoffset : ℤ

-- `APSWBlob_init`.
unfoldable pub blob_init : ℕ → ℕ → ℕ → Blob
blob_init id con blob = record {
  id = id;
  connection = some con;
  p_blob = some blob;
  inuse = false;
  curoffset = pos 0;
}

-- The modes of a close: raise the error, ignore it, or report it elsewhere.
pub data Force : Type 0 where
  raise_error ignore_error report_error : Force

abbrev pub force_of : Bool → Force
force_of false = raise_error
force_of true = ignore_error

-- How much `read` asks for: what remains, if the length is negative or too large.
unfoldable pub read_length : ℤ → ℤ → ℤ → ℤ
read_length size offset length' =
    let wanted = if ltb_ℤ length' (pos 0) then size -ℤ offset else length' in
    if ltb_ℤ size (offset +ℤ wanted) then size -ℤ offset else wanted

-- How much `read_into` asks for: what the buffer has room for, if the length is negative.
unfoldable pub into_length : ℤ → ℤ → ℤ → ℤ
into_length len offset length' = if ltb_ℤ length' (pos 0) then wrap64 (len -ℤ offset) else length'

-- The buffer with the bytes of a read written at an offset.
abbrev pub splice : List ℕ → ℤ → List ℕ → List ℕ
splice buffer offset bytes =
    take (pos_part offset) buffer ++ (bytes ++ drop (pos_part offset + length bytes) buffer)

module _ {S : Type 0} (api : BlobApi S) where
  abbrev pub Ret {ℓ} : Type ℓ → Type ℓ
  Ret A = Option A × Blob × World S

  -- `CHECK_USE` and `CHECK_BLOB_CLOSED` on the two fields that they read, then the rest of the
  -- method on the open handle.
  unfoldable pub guarded {ℓ} : {A : Type ℓ} → Bool → Option ℕ → Blob → World S → (ℕ → Ret A) → Ret A
  guarded true p b w body = (none, b, threading_violation w)
  guarded false none b w body =
      (none, b, err_format ExcClass.value_error "I/O operation on closed blob" w)
  guarded false (some h) b w body = body h

  unfoldable pub on_open {ℓ} : {A : Type ℓ} → Blob → World S → (ℕ → Ret A) → Ret A
  on_open b w body = guarded b.inuse b.p_blob b w body

  -- What a close does with an error code; the flag says that it set an exception.
  unfoldable pub close_error : Force → ℕ → World S → World S × Bool
  close_error raise_error res w = if res == sqlite_ok then (w, false) else (set_exc res w, true)
  close_error ignore_error res w = (w, false)
  close_error report_error res w =
      if res == sqlite_ok then (w, false) else (write_unraisable (set_exc res w), false)

  unfoldable pub close_handle : Option ℕ → Force → World S → World S × Bool
  close_handle none force w = (w, false)
  close_handle (some h) force w =
      let (res, w') = sqlite_call (Call.blob_close h) (λ d. api.blob_close d h) w in
      close_error force res w'

  unfoldable pub leave_connection : Option ℕ → ℕ → World S → World S
  leave_connection none id w = w
  leave_connection (some con) id w = remove_dependent con (some id) w

  -- `APSWBlob_close_internal` without the keeping of the exception of `force` 2.
  unfoldable pub close_body : Blob → Force → World S → Bool × Blob × World S
  close_body b force w =
      let (w', setexc) = close_handle b.p_blob force w in
      (setexc, record b { p_blob = none; connection = none }, leave_connection b.connection b.id w')

  -- `APSWBlob_close_internal`.
  unfoldable pub close_internal : Blob → Force → World S → Bool × Blob × World S
  close_internal b report_error w =
      let (setexc, b', w') = close_body b report_error (record w { exc = none }) in
      (setexc, b', record w' { exc = w.exc })
  close_internal b force w = close_body b force w

  -- `APSWBlob_dealloc`.
  unfoldable pub dealloc : Blob → World S → World S
  dealloc b w = (close_internal b report_error w).2

  unfoldable pub length_method : Blob → World S → Ret ℤ
  length_method b w = on_open b w λ h. (some (api.blob_bytes w.db h), b, w)

  unfoldable pub read_bytes : Blob → ℕ → ℤ → World S → Ret (List ℕ)
  read_bytes b h n w =
      if not (api.new_bytes w.db n)
      then (none, b, record w { exc = some api.new_bytes_error })
      else let (res, w') =
          sqlite_call (Call.blob_read h n b.curoffset) (λ d. api.blob_read d h n b.curoffset) w in
        if occurred w'
        then (none, b, w')
        else if not (res == sqlite_ok)
        then (none, b, set_exc res w')
        else (
          some (api.read_data w.db h n b.curoffset),
          record b { curoffset = b.curoffset +ℤ n },
          w',
        )

  -- `APSWBlob_read`; of this and the next methods first the part on an open handle.
  unfoldable pub read_open : Blob → ℤ → World S → ℕ → Ret (List ℕ)
  read_open b length' w h =
      let size = api.blob_bytes w.db h in
      if eq_ℤ b.curoffset size || eq_ℤ length' (pos 0)
      then (some [], b, w)
      else read_bytes b h (read_length size b.curoffset length') w

  unfoldable pub read : Blob → ℤ → World S → Ret (List ℕ)
  read b length' w = on_open b w (read_open b length' w)

  -- The part of `APSWBlob_read_into` after its checks; the value is the caller's buffer.
  unfoldable pub fill_buffer : Blob → ℕ → List ℕ → ℤ → ℤ → World S → Ret (List ℕ)
  fill_buffer b h buffer offset n w =
      let (res, w') =
        sqlite_call (Call.blob_read h n b.curoffset) (λ d. api.blob_read d h n b.curoffset) w in
      if occurred w'
      then (none, b, w')
      else if not (res == sqlite_ok)
      then (none, b, set_exc res w')
      else (
        some (splice buffer offset (api.read_data w.db h n b.curoffset)),
        record b { curoffset = wrap32 (b.curoffset +ℤ n) },
        w',
      )

  -- `APSWBlob_read_into`. A buffer that is not contiguous or not writable is `none`. The sums of
  -- `long long` wrap.
  unfoldable pub read_into_open : Blob → Option (List ℕ) → ℤ → ℤ → World S → ℕ → Ret (List ℕ)
  read_into_open b none offset length' w h = (none, b, record w { exc = some api.buffer_error })
  read_into_open b (some buffer) offset length' w h =
      let size = api.blob_bytes w.db h in
      let len = pos (length buffer) in
      let n = into_length len offset length' in
      if ltb_ℤ offset (pos 0) || ltb_ℤ len offset
      then (
        none,
        b,
        err_format ExcClass.value_error "offset is less than zero or beyond end of buffer" w,
      )
      else if ltb_ℤ len (wrap64 (offset +ℤ n))
      then (none, b, err_format ExcClass.value_error "Data would go beyond end of buffer" w)
      else if ltb_ℤ (size -ℤ b.curoffset) n
      then (none, b, err_format ExcClass.value_error "More data requested than blob length" w)
      else fill_buffer b h buffer offset n w

  unfoldable pub read_into : Blob → Option (List ℕ) → ℤ → ℤ → World S → Ret (List ℕ)
  read_into b buffer offset length' w = on_open b w (read_into_open b buffer offset length' w)

  -- The test and the move of one `case` of `APSWBlob_seek`, in the arithmetic of `int`.
  unfoldable pub seek_to : Blob → ℤ → ℤ → World S → Ret (Unit {0})
  seek_to b target size w =
      if ltb_ℤ target (pos 0) || ltb_ℤ size target
      then (
        none,
        b,
        err_format ExcClass.value_error
            "The resulting offset would be less than zero or past the end of the blob" w,
      )
      else (some tt, record b { curoffset = target }, w)

  -- `APSWBlob_seek`.
  unfoldable pub seek_open : Blob → ℤ → ℤ → World S → ℕ → Ret (Unit {0})
  seek_open b offset whence w h =
      let size = api.blob_bytes w.db h in
      if eq_ℤ whence (pos 0)
      then seek_to b offset size w
      else if eq_ℤ whence (pos 1)
      then seek_to b (wrap32 (b.curoffset +ℤ offset)) size w
      else if eq_ℤ whence (pos 2)
      then seek_to b (wrap32 (size +ℤ offset)) size w
      else (none, b, err_format ExcClass.value_error "whence parameter should be 0, 1 or 2" w)

  unfoldable pub seek : Blob → ℤ → ℤ → World S → Ret (Unit {0})
  seek b offset whence w = on_open b w (seek_open b offset whence w)

  -- `APSWBlob_tell`.
  unfoldable pub tell : Blob → World S → Ret ℤ
  tell b w = on_open b w λ h. (some b.curoffset, b, w)

  -- `APSWBlob_write`. The data is `none` where its buffer cannot be had.
  unfoldable pub write_open : Blob → Option (List ℕ) → World S → ℕ → Ret (Unit {0})
  write_open b none w h = (none, b, record w { exc = some api.buffer_error })
  write_open b (some bytes) w h =
      let calc_end = wrap64 (pos (length bytes) +ℤ b.curoffset) in
      if ltb_ℤ (wrap32 calc_end) (pos 0)
      then (none, b, err_format ExcClass.value_error "Data is too large (integer overflow)" w)
      else if ltb_ℤ (api.blob_bytes w.db h) calc_end
      then (none, b, err_format ExcClass.value_error "Data would go beyond end of blob" w)
      else let (res, w') =
          sqlite_call (Call.blob_write h (pos (length bytes)) b.curoffset)
            (λ d. api.blob_write d h bytes b.curoffset) w in
        if not (res == sqlite_ok)
        then (none, b, set_exc res w')
        else (some tt, record b { curoffset = wrap32 (b.curoffset +ℤ pos (length bytes)) }, w')

  unfoldable pub write : Blob → Option (List ℕ) → World S → Ret (Unit {0})
  write b source w = on_open b w (write_open b source w)

  abbrev finish_close : Bool × Blob × World S → Ret (Unit {0})
  finish_close (setexc, b, w) = ((if setexc then none else some tt), b, w)

  -- `APSWBlob_close`.
  unfoldable pub close : Blob → Bool → World S → Ret (Unit {0})
  close b force w =
      if b.inuse
      then (none, b, threading_violation w)
      else finish_close (close_internal b (force_of force) w)

  -- `APSWBlob_enter`, which returns the object itself, and `APSWBlob_exit`.
  unfoldable pub enter : Blob → World S → Ret (Unit {0})
  enter b w = on_open b w λ h. (some tt, b, w)

  unfoldable pub exit : Blob → World S → Ret (Unit {0})
  exit b w = on_open b w λ h. finish_close (close_internal b raise_error w)

  -- `APSWBlob_reopen`.
  unfoldable pub reopen_open : Blob → ℤ → World S → ℕ → Ret (Unit {0})
  reopen_open b rowid w h =
      let b' = record b { curoffset = pos 0 } in
      let (res, w') = sqlite_call (Call.blob_reopen h) (λ d. api.blob_reopen d h rowid) w in
      if occurred w'
      then (none, b', w')
      else if not (res == sqlite_ok)
      then (none, b', set_exc res w')
      else (some tt, b', w')

  unfoldable pub reopen : Blob → ℤ → World S → Ret (Unit {0})
  reopen b rowid w = on_open b w (reopen_open b rowid w)
