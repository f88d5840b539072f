-- ===== src/Vfs/File.antt =====
-- The methods that SQLite calls on a file (the functions `apswvfsfile_*` of src/vfs.c).
use apsw.Prelude.{
  ℕ, ◌-◌, ◌%◌, ◌^◌, Bool, true, false, Option, none, some, List, [], ◌++◌, ◌==◌, if◌then◌else◌, not,
  ltb, length, take, replicate,
}
use Prim.Native.String.{String}
use apsw.Prelude.Int.{ℤ, pos, negsuc}
use apsw.Errors.{ExcClass, sqlite_ok, sqlite_error, make_sqlite_msg_from_py_exception}
use apsw.World.{World, occurred, err_format, write_unraisable}
use apsw.Vfs.{
  FileCall, Plain, BaseFile, Reply, null, reply_none, reply_other, reply_int, reply_bool,
  reply_bytes, reply_unreadable, FileObject, chained, sqlite_busy, sqlite_ioerr_short_read,
}

-- `PyLong_AsInt` and `PyLong_AsLongLong`: the number, if it fits `bits` bits.
unfoldable pub fits : ℕ → ℤ → Bool
fits bits (pos n) = ltb n (2 ^ (bits - 1))
fits bits (negsuc n) = ltb n (2 ^ (bits - 1))

abbrev pub truth : ℤ → Bool
truth (pos n) = not (n == 0)
truth (negsuc n) = true

abbrev pub int_of_bool : Bool → ℤ
int_of_bool false = pos 0
int_of_bool true = pos 1

module _ {S : Type 0} where
  -- `MakeSqliteMsgFromPyException` on the error indicator.
  unfoldable pub sqlite_msg : World S → ℕ
  sqlite_msg w = elim w.exc [ none ↦ sqlite_error | some e ↦ make_sqlite_msg_from_py_exception e ]

  -- A reply of which only success matters.
  unfoldable pub done_reply : Reply × World S → ℕ × World S
  done_reply (null, w) = (sqlite_msg w, w)
  done_reply (reply_none, w) = (sqlite_ok, w)
  done_reply (reply_other, w) = (sqlite_ok, w)
  done_reply (reply_int n, w) = (sqlite_ok, w)
  done_reply (reply_bool b, w) = (sqlite_ok, w)
  done_reply (reply_bytes b, w) = (sqlite_ok, w)
  done_reply (reply_unreadable e, w) = (sqlite_ok, w)

  -- A number, with what it is made into; `none` where nothing is written.
  unfoldable pub number_reply {ℓ} :
      {A : Type ℓ} → ℕ → (ℤ → A) → String → Reply × World S → Option A × World S
  number_reply bits f msg (null, w) = (none, w)
  number_reply bits f msg (reply_int n, w) = if fits bits n then (some (f n), w) else (
    some (f (negsuc 0)),
    err_format ExcClass.overflow_error "Python int too large to convert to C int" w,
  )
  number_reply bits f msg (reply_bool b, w) = (some (f (int_of_bool b)), w)
  number_reply bits f msg (reply_none, w) = (none, err_format ExcClass.type_error msg w)
  number_reply bits f msg (reply_other, w) = (none, err_format ExcClass.type_error msg w)
  number_reply bits f msg (reply_bytes b, w) = (none, err_format ExcClass.type_error msg w)
  number_reply bits f msg (reply_unreadable e, w) = (none, err_format ExcClass.type_error msg w)

  -- The result code where only the error indicator tells, with what was written.
  unfoldable pub checked_number {ℓ} : {A : Type ℓ} → Option A × World S → (ℕ × Option A) × World S
  checked_number (v, w) = ((if occurred w then sqlite_msg w else sqlite_ok, v), w)

  -- A number that may be None, for which there is a default.
  unfoldable pub number_or : ℤ → String → Reply × World S → ℤ × World S
  number_or default msg (reply_none, w) = (default, w)
  number_or default msg r =
      let (v, w) = number_reply 32 (λ n. n) msg r in
      (if occurred w then default else elim v [ none ↦ default | some n ↦ n ], w)

  -- An exception that is there goes to the hook for exceptions that cannot be raised.
  unfoldable pub reported {ℓ} : {A : Type ℓ} → A × World S → A × World S
  reported (v, w) = (v, if occurred w then write_unraisable w else w)

  -- The buffer that SQLite gave, with the reply to `xRead`.
  unfoldable pub read_reply : ℕ → List ℕ → Reply × World S → (ℕ × List ℕ) × World S
  read_reply amount bufout (null, w) = ((sqlite_msg w, bufout), w)
  read_reply amount bufout (reply_bytes b, w) =
      if ltb (length b) amount
      then ((sqlite_ioerr_short_read, b ++ replicate (amount - length b) 0), w)
      else ((sqlite_ok, take amount b), w)
  read_reply amount bufout (reply_unreadable e, w) =
      ((sqlite_error, bufout), record w { exc = some e })
  read_reply amount bufout (other, w) = (
    (sqlite_error, bufout),
    err_format ExcClass.type_error "Object returned from xRead should be buffer (bytes etc)" w,
  )

  -- A lock that is busy is no error of Python.
  unfoldable pub unbusy : ℕ × World S → ℕ × World S
  unbusy (result, w) = (result, if result % 256 == sqlite_busy then record w { exc = none } else w)

  unfoldable pub lock_reply : Reply × World S → ℕ × World S
  lock_reply r = unbusy (done_reply r)

  -- A file is closed whatever its method does.
  unfoldable pub close_reply : Reply × World S → ℕ × World S
  close_reply r = let (result, w) = done_reply r in (if occurred w then sqlite_msg w else result, w)

  module _ (o : FileObject S) where
    unfoldable pub x_read : ℕ → ℤ → List ℕ → World S → (ℕ × List ℕ) × World S
    x_read amount offset bufout =
        chained (λ w. read_reply amount bufout (o.method (FileCall.read (pos amount) offset) w))

    unfoldable pub x_write : List ℕ → ℤ → World S → ℕ × World S
    x_write buffer offset =
        chained (λ w. done_reply (o.method (FileCall.plain (Plain.write buffer offset)) w))

    unfoldable pub x_unlock : ℤ → World S → ℕ × World S
    x_unlock flag = chained (λ w. done_reply (o.method (FileCall.plain (Plain.unlock flag)) w))

    unfoldable pub x_lock : ℤ → World S → ℕ × World S
    x_lock flag = chained (λ w. lock_reply (o.method (FileCall.plain (Plain.lock flag)) w))

    unfoldable pub x_truncate : ℤ → World S → ℕ × World S
    x_truncate size = chained (λ w. done_reply (o.method (FileCall.plain (Plain.truncate size)) w))

    unfoldable pub x_sync : ℤ → World S → ℕ × World S
    x_sync flags = chained (λ w. done_reply (o.method (FileCall.plain (Plain.sync flags)) w))

    unfoldable pub x_sector_size : World S → ℤ × World S
    x_sector_size = chained (λ w.
        number_or (pos 4096) "xSectorSize should return a number" (o.method FileCall.sector_size w))

    unfoldable pub x_device_characteristics : World S → ℤ × World S
    x_device_characteristics = chained (λ w.
        if o.has_device_characteristics
        then reported (
            number_or (pos 0) "xDeviceCharacteristics should return a number"
              (o.method FileCall.device_characteristics w))
        else (pos 0, w))

    unfoldable pub x_file_size : World S → (ℕ × Option ℤ) × World S
    x_file_size = chained (λ w. checked_number (
        number_reply 64 (λ n. n) "xFileSize should return a number"
          (o.method FileCall.file_size w)))

    unfoldable pub x_check_reserved_lock : World S → (ℕ × Option Bool) × World S
    x_check_reserved_lock = chained (λ w. checked_number (
        number_reply 32 truth "xCheckReservedLock should return a boolean/number"
          (o.method FileCall.check_reserved_lock w)))

    unfoldable pub x_close : World S → ℕ × World S
    x_close = chained (λ w. close_reply (o.method FileCall.close w))

    -- The table `apsw_io_methods_v1` of the calls that give a result code alone.
    unfoldable pub io_plain : Plain → World S → ℕ × World S
    io_plain (Plain.write buffer offset) = x_write buffer offset
    io_plain (Plain.truncate size) = x_truncate size
    io_plain (Plain.sync flags) = x_sync flags
    io_plain (Plain.lock flag) = x_lock flag
    io_plain (Plain.unlock flag) = x_unlock flag

    -- The file of SQLite that calls the object. Where a method writes no buffer, size or flag its
    -- result code is an error, and its caller looks at none of them.
    unfoldable pub as_file : BaseFile S
    as_file = record {
      i_version = 1;
      implements = λ call. true;
      x_read = λ amount offset w. x_read amount offset [] w;
      x_plain = io_plain;
      x_file_size = λ w.
          let ((res, v), w') = x_file_size w in ((res, elim v [ none ↦ pos 0 | some n ↦ n ]), w');
      x_check_reserved_lock = λ w.
          let ((res, v), w') = x_check_reserved_lock w in
          ((res, elim v [ none ↦ pos 0 | some b ↦ int_of_bool b ]), w');
      x_sector_size = x_sector_size;
      x_device_characteristics = x_device_characteristics;
      x_close = x_close;
    }
