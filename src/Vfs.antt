-- ===== src/Vfs.antt =====
-- Files of a virtual file system (src/vfs.c): SQLite calls the methods of a Python object, and the
-- class VFSFile, from which such an object may inherit, calls the methods of a file of SQLite.
pub mod File
pub mod Python
pub mod Padding
pub mod Through
pub mod ReadThrough
pub mod Tower
pub mod Report
pub mod Tests
use apsw.Prelude.{ℕ, Bool, Option, none, some, List}
use apsw.Prelude.Int.{ℤ}
use apsw.Errors.{Exn}
use apsw.World.{World, raise}

abbrev pub sqlite_busy : ℕ
sqlite_busy = 5

abbrev pub sqlite_ioerr_short_read : ℕ
sqlite_ioerr_short_read = 522

-- The calls of which only a result code comes back, with their arguments: the bytes and an offset, a
-- size, flags, a level.
pub data Plain : Type 0 where
  write : List ℕ → ℤ → Plain
  truncate sync lock unlock : ℤ → Plain

-- The methods of a file that are called; `read` with an amount and an offset.
pub data FileCall : Type 0 where
  read : ℤ → ℤ → FileCall
  plain : Plain → FileCall
  file_size check_reserved_lock sector_size device_characteristics close : FileCall

-- What a Python method gives: NULL, with the error indicator set, or an object. An unreadable one
-- has a buffer that Python refuses.
pub data Reply : Type 0 where
  null reply_none reply_other : Reply
  reply_int : ℤ → Reply
  reply_bool : Bool → Reply
  reply_bytes : List ℕ → Reply
  reply_unreadable : Exn → Reply

-- The Python object behind a file, and whether it has the optional method.
pub record FileObject (S : Type 0) : Type 0 where
  pub method : FileCall → World S → Reply × World S
  pub has_device_characteristics : Bool

-- A file of SQLite: the version of its methods, which it has, and the methods, with the buffer, the
-- size or the flag that they write.
pub record BaseFile (S : Type 0) : Type 0 where
  pub i_version : ℕ
  pub implements : FileCall → Bool
  pub x_read : ℕ → ℤ → World S → (ℕ × List ℕ) × World S
  pub x_plain : Plain → World S → ℕ × World S
  pub x_file_size : World S → (ℕ × ℤ) × World S
  pub x_check_reserved_lock : World S → (ℕ × ℤ) × World S
  pub x_sector_size : World S → ℤ × World S
  pub x_device_characteristics : World S → ℤ × World S
  pub x_close : World S → ℕ × World S

-- `CHAIN_EXC_BEGIN` and `CHAIN_EXC_END`: the exception that was there is put aside, and is the
-- context of a later one.
abbrev pub chained {ℓ} : {S : Type 0} {A : Type ℓ} → (World S → A × World S) → World S → A × World S
chained f w = let r = f (record w { exc = none }) in (r.0, record r.1 { exc = raise r.1.exc w.exc })
