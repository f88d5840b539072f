-- ===== src/Vfs/Python.antt =====
-- The class VFSFile: its methods call those of a file of SQLite (the functions `apswvfsfilepy_*` of
-- src/vfs.c).
use apsw.Prelude.{
  ℕ, zero, suc, true, Option, none, some, List, ◌==◌, if◌then◌else◌, ◌||◌, not, ltb, take, get_or,
}
use Prim.Native.String.{String}
use apsw.Prelude.Int.{ℤ, pos, negsuc}
use apsw.Errors.{ExcClass, sqlite_ok}
use apsw.World.{World, occurred, err_format, set_exc}
use apsw.Vfs.{
  FileCall, Plain, Reply, null, reply_none, reply_int, reply_bool, reply_bytes, FileObject,
  BaseFile, sqlite_ioerr_short_read,
}
use apsw.Vfs.File.{truth}

-- The loop that looks for the last byte that is not zero, from `n` bytes on.
unfoldable pub shorten : ℕ → List ℕ → ℕ
shorten zero buffy = 0
shorten (suc n) buffy = let rest = shorten n buffy in if get_or buffy n 0 == 0 then rest else suc n

-- The message of `VFSFILENOTIMPLEMENTED`.
abbrev pub not_implemented : FileCall → String
not_implemented (FileCall.read n m) = "VFSNotImplementedError: File method xRead is not implemented"
not_implemented (FileCall.plain (Plain.write b n)) =
    "VFSNotImplementedError: File method xWrite is not implemented"
not_implemented (FileCall.plain (Plain.truncate n)) =
    "VFSNotImplementedError: File method xTruncate is not implemented"
not_implemented (FileCall.plain (Plain.sync n)) =
    "VFSNotImplementedError: File method xSync is not implemented"
not_implemented (FileCall.plain (Plain.lock n)) =
    "VFSNotImplementedError: File method xLock is not implemented"
not_implemented (FileCall.plain (Plain.unlock n)) =
    "VFSNotImplementedError: File method xUnlock is not implemented"
not_implemented FileCall.file_size =
    "VFSNotImplementedError: File method xFileSize is not implemented"
not_implemented FileCall.check_reserved_lock =
    "VFSNotImplementedError: File method xCheckReservedLock is not implemented"
not_implemented FileCall.sector_size =
    "VFSNotImplementedError: File method xSectorSize is not implemented"
not_implemented FileCall.device_characteristics =
    "VFSNotImplementedError: File method xDeviceCharacteristics is not implemented"
not_implemented FileCall.close = "VFSNotImplementedError: File method xClose is not implemented"

module _ {S : Type 0} where
  -- `CHECKVFSFILEPY` and `VFSFILENOTIMPLEMENTED`, then the method.
  unfoldable pub on_base :
      Option (BaseFile S)
      → FileCall
      → (BaseFile S → World S → Reply × World S)
      → World S
      → Reply × World S
  on_base none call f w = (
    null,
    err_format ExcClass.vfs_file_closed "VFSFileClosed: Attempting operation on closed file" w,
  )
  on_base (some b) call f w =
      if ltb b.i_version 1 || not (b.implements call)
      then (null, err_format ExcClass.vfs_not_implemented (not_implemented call) w)
      else f b w

  -- None where the result code is SQLITE_OK.
  unfoldable pub none_or_error : ℕ × World S → Reply × World S
  none_or_error (res, w) = if res == sqlite_ok then (reply_none, w) else (null, set_exc res w)

  -- The bytes read; of a short read those up to the last one that is not zero.
  unfoldable pub read_bytes : ℕ → (ℕ × List ℕ) × World S → Reply × World S
  read_bytes amount ((res, buffy), w) =
      if res == sqlite_ok
      then (reply_bytes buffy, w)
      else if res == sqlite_ioerr_short_read
      then (reply_bytes (take (shorten amount buffy) buffy), w)
      else (null, set_exc res w)

  unfoldable pub py_read : ℤ → ℤ → BaseFile S → World S → Reply × World S
  py_read (negsuc n) offset b w =
      (null, err_format ExcClass.system_error "Negative size passed to PyBytes_FromStringAndSize" w)
  py_read (pos amount) offset b w = read_bytes amount (b.x_read amount offset w)

  -- A value where the result code is SQLITE_OK.
  unfoldable pub value_or_error : (ℤ → Reply) → (ℕ × ℤ) × World S → Reply × World S
  value_or_error f ((res, v), w) =
      if not (res == sqlite_ok) then (null, set_exc res w) else (f v, w)

  unfoldable pub py_sector_size : BaseFile S → World S → Reply × World S
  py_sector_size b w =
      let (res, w') = b.x_sector_size w in (if occurred w' then null else reply_int res, w')

  unfoldable pub py_device_characteristics : BaseFile S → World S → Reply × World S
  py_device_characteristics b w =
      let (res, w') = b.x_device_characteristics w in (reply_int res, w')

  -- `apswvfsfilepy_xClose`, which has no base any more.
  unfoldable pub py_close : Option (BaseFile S) → World S → (Reply × World S) × Option (BaseFile S)
  py_close none w = ((reply_none, w), none)
  py_close (some b) w = (none_or_error (b.x_close w), none)

  unfoldable pub py_write : List ℕ → ℤ → BaseFile S → World S → Reply × World S
  py_write bytes offset b w = none_or_error (b.x_plain (Plain.write bytes offset) w)

  unfoldable pub py_truncate : ℤ → BaseFile S → World S → Reply × World S
  py_truncate newsize b w = none_or_error (b.x_plain (Plain.truncate newsize) w)

  unfoldable pub py_sync : ℤ → BaseFile S → World S → Reply × World S
  py_sync flags b w = none_or_error (b.x_plain (Plain.sync flags) w)

  unfoldable pub py_lock : ℤ → BaseFile S → World S → Reply × World S
  py_lock level b w = none_or_error (b.x_plain (Plain.lock level) w)

  unfoldable pub py_unlock : ℤ → BaseFile S → World S → Reply × World S
  py_unlock level b w = none_or_error (b.x_plain (Plain.unlock level) w)

  unfoldable pub py_plain : Plain → BaseFile S → World S → Reply × World S
  py_plain (Plain.write bytes offset) = py_write bytes offset
  py_plain (Plain.truncate newsize) = py_truncate newsize
  py_plain (Plain.sync flags) = py_sync flags
  py_plain (Plain.lock level) = py_lock level
  py_plain (Plain.unlock level) = py_unlock level

  unfoldable pub py_file_size : BaseFile S → World S → Reply × World S
  py_file_size b w = value_or_error reply_int (b.x_file_size w)

  unfoldable pub py_check_reserved_lock : BaseFile S → World S → Reply × World S
  py_check_reserved_lock b w =
      value_or_error (λ n. reply_bool (truth n)) (b.x_check_reserved_lock w)

  -- The method that a call of the object finds.
  unfoldable pub file_method : Option (BaseFile S) → FileCall → World S → Reply × World S
  file_method base (FileCall.read amount offset) =
      on_base base (FileCall.read amount offset) (py_read amount offset)
  file_method base (FileCall.plain call) = on_base base (FileCall.plain call) (py_plain call)
  file_method base FileCall.file_size = on_base base FileCall.file_size py_file_size
  file_method base FileCall.check_reserved_lock =
      on_base base FileCall.check_reserved_lock py_check_reserved_lock
  file_method base FileCall.sector_size = on_base base FileCall.sector_size py_sector_size
  file_method base FileCall.device_characteristics =
      on_base base FileCall.device_characteristics py_device_characteristics
  file_method base FileCall.close = λ w. (py_close base w).0

  -- A file whose class inherits every method of VFSFile.
  unfoldable pub inherited : BaseFile S → FileObject S
  inherited b = record { method = file_method (some b); has_device_characteristics = true }
