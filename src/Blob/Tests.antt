-- ===== src/Blob/Tests.antt =====
-- Blobs at concrete inputs (src/blob.c).
use apsw.Prelude.{
  ℕ, zero, suc, ◌-◌, ◌^◌, ◌≡◌, inl, inr, refl, true, false, none, some, List, [], ◌∷◌, ◌++◌, arith,
  length, take, drop,
}
use apsw.Prelude.Int.{pos, negsuc, pos_part, ◌+ℤ◌}
use apsw.Errors.{ExcClass, raised}
use apsw.World.{World}
use apsw.Blob.{BlobApi, Blob, read_into, seek, write}
use apsw.Blob.Valid.{Within, BlobLaws}
use apsw.Blob.Bounds.{Fills, Writes, read_into-Fills, write-Writes}
use apsw.Blob.Moves.{seek_exact, seek_spec}
use apsw.Blob.Session.{reads, seeks, writes, Stays, run, run-Stays}

-- One blob of bytes, for every handle.
abbrev Db : Type 0
Db = List ℕ

abbrev overwrite : Db → List ℕ → ℕ → Db
overwrite d bytes zero = bytes ++ drop (length bytes) d
overwrite [] bytes (suc n) = []
overwrite (c ∷ d) bytes (suc n) = c ∷ overwrite d bytes n

-- A blob that can be read and not written.
abbrev demo : BlobApi Db
demo = record {
  blob_bytes = λ d h. pos 5;
  blob_read = λ d h n off. (0, none, d);
  read_data = λ d h n off. take (pos_part n) (drop (pos_part off) d);
  blob_write = λ d h bytes off. (0, none, overwrite d bytes (pos_part off));
  blob_close = λ d h. (0, none, d);
  blob_reopen = λ d h rowid. (0, none, d);
  new_bytes = λ d n. true;
  new_bytes_error = raised ExcClass.memory_error "";
  buffer_error = raised ExcClass.type_error "Expected a contiguous buffer";
}

demo_laws : BlobLaws demo
demo_laws = record {
  size_nonneg = λ d h. omega arith;
  size_int = λ d h. omega arith;
  read_keeps = λ d h n off e. refl;
  write_keeps = λ d h bytes off e. refl;
}

abbrev start : World Db
start = record {
  db = 10 ∷ 11 ∷ 12 ∷ 13 ∷ 14 ∷ [];
  exc = none;
  trace = [];
  conns = λ i. record { open_db = true; inuse = false; dependents = some 3 ∷ [] };
  unraised = [];
}

-- The object 3, of connection 0, on handle 8, at offset 2.
abbrev opened : Blob
opened = record { id = 3; connection = some 0; p_blob = some 8; inuse = false; curoffset = pos 2 }

within : Within (pos 2) (pos 5)
within = (omega arith, omega arith)

-- The offset and the length together are over 2 ^ 63.
read_into-Fills_example :
    Fills 8
      (pos 5)
      (pos 2)
      (pos 1)
      []
      (read_into demo opened (some (0 ∷ 0 ∷ [])) (pos 1) (pos (2 ^ 63 - 1)) start).2.trace
read_into-Fills_example =
    read_into-Fills demo opened (0 ∷ 0 ∷ []) (pos 1) (pos (2 ^ 63 - 1)) start 8 refl within
      (omega arith) (omega arith)

write-Writes_example : Writes 8 (pos 5) [] (write demo opened (some (1 ∷ 2 ∷ [])) start).2.trace
write-Writes_example =
    write-Writes demo opened (1 ∷ 2 ∷ []) start 8 refl within (omega arith) (omega arith)

-- From offset 2 by 2 ^ 31 - 1, which wraps.
seek_exact_example :
    seek demo opened (pos (2 ^ 31 - 1)) (pos 1) start
    ≡ seek_spec opened (pos 2 +ℤ pos (2 ^ 31 - 1)) (pos 5) start
seek_exact_example =
    seek_exact demo opened (pos (2 ^ 31 - 1)) (pos 1) (pos 2) start 8 refl refl within (omega arith)
      (omega arith) (inr (inl (refl, refl)))

run-Stays_example :
    Stays demo demo_laws 8
      (run demo opened (reads (pos 1) ∷ writes (7 ∷ []) ∷ seeks (negsuc 1) (pos 2) ∷ []) start)
run-Stays_example =
    run-Stays demo demo_laws opened
      (reads (pos 1) ∷ writes (7 ∷ []) ∷ seeks (negsuc 1) (pos 2) ∷ []) start 8 refl within
      (omega arith, tt)

abbrev busy : Blob
busy = record opened { inuse = true }
