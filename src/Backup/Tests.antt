-- ===== src/Backup/Tests.antt =====
-- Backups at concrete inputs (src/backup.c, src/connection.c).
use apsw.Prelude.{ℕ, ◌-◌, ◌≡◌, refl, true, false, none, some, [], ◌∷◌, arith, ◌==◌, if◌then◌else◌}
use apsw.Prelude.Int.{pos}
use apsw.World.{World, listed}
use apsw.Blob.{raise_error, report_error}
use apsw.Backup.{BackupApi, Backup, connection_backup, close_internal, result_agrees}
use apsw.Backup.Close.{Released, open_backup, close_internal-Released}
use apsw.Backup.Flags.{Opens}
use apsw.Backup.Making.{Fresh}
use apsw.Backup.Agreed.{connection_backup-Opens}
use apsw.Backup.RoundTrip.{after_close, backup_round_trip}

-- A library whose state is the number of pages left: a step copies two, and is DONE at none left;
-- the end is an error as long as there are some.
abbrev pages : BackupApi ℕ
pages = record {
  backup_init = λ n d name s sname. (0, none, 4);
  init_handle = λ n d name s sname. some 9;
  backup_step = λ n h npages. ((if n - 2 == 0 then 101 else 0), none, n - 2);
  backup_finish = λ n h. ((if n == 0 then 0 else 5), none, n);
  backup_remaining = λ n h. pos n;
  backup_pagecount = λ n h. pos 4;
  object_error = λ n. none;
  reference_error = λ n con. none;
  append_error = λ n con. none;
}

-- Connection 0 has a dead reference, and connection 1 a cursor.
abbrev world : World ℕ
world = record {
  db = 2;
  exc = none;
  trace = [];
  conns = λ c. record {
    open_db = true;
    inuse = false;
    dependents = if c == 1 then some 5 ∷ [] else none ∷ [];
  };
  unraised = [];
}

abbrev copying : Backup
copying = open_backup pages 7 0 1 9 false false

close_internal-Released_example :
    let r = close_internal pages copying report_error world in
    Released pages 9 7 0 1 world r.2 × (r.1.backup ≡ none) × (r.1.dest ≡ none) × (r.1.source ≡ none)
close_internal-Released_example =
    close_internal-Released pages 7 0 1 9 false false report_error world (omega arith)

new_object : Fresh pages 7 world
new_object c = ground arith

connection_backup-Opens_example :
    let r = connection_backup pages 7 0 "main" 1 "main" world in
    Opens pages 7 0 1 world r × (result_agrees pages r ≡ true)
connection_backup-Opens_example =
    connection_backup-Opens pages 7 0 1 "main" "main" world new_object refl (λ there. refl)

backup_round_trip_example :
    let v = after_close pages raise_error (connection_backup pages 7 0 "main" 1 "main" world) in
    ((v.conns 1).inuse ≡ false)
    × ((v.conns 1).open_db ≡ true)
    × ((x : ℕ) → listed x (v.conns 1).dependents ≡ listed x (some 5 ∷ []))
backup_round_trip_example =
    backup_round_trip pages 7 0 1 "main" "main" raise_error world refl new_object 1
