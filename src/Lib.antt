-- ===== src/Lib.antt =====
-- apsw, a Python wrapper of SQLite: a model of the C extension's objects that keep SQLite
-- handles, of the errors that pass between SQLite and Python, and of what the objects owe their
-- connection.
--
-- The parts, and the files that model them:
-- - Prelude: Boolean tests, lists, bytes and C integers that the other files share.
-- - Errors (src/exceptions.c): the table of exception classes, `make_exception` and
--   `MakeSqliteMsgFromPyException`. An exception is a value; a class of the table is known by
--   its result code.
-- - World (src/util.c, src/exceptions.c, src/connection.c): the Python error indicator, the
--   calls of SQLite so far with the newest first, the exceptions that the hook for unraisable ones
--   got, and of each connection the handle, the in-use
--   flag and the list of dependents. `sqlite_call`, `set_exc`, `threading_violation`,
--   `write_unraisable` and `remove_dependent` stand for the macros `PYSQLITE_*_CALL`, `SET_EXC`,
--   `CHECK_USE` and for the functions of these names.
-- - StatementCache (src/statementcache.c): `finalize`, `prepare_internal`, `prepare`, `next`,
--   `free` and `init` stand for the functions `statementcache_*`. The arrays are lists, and an
--   access outside them or through a null pointer is the result `none`. StatementCache/Prepare
--   has the operations that make statements; the files below it that follow have the proofs, by
--   subject.
-- - Blob (src/blob.c): a method is a function of its name. The methods of an open blob go
--   through `on_open`, which is the pair of macros `CHECK_USE` and `CHECK_BLOB_CLOSED`.
--   Blob/Zeroblob is the class zeroblob.
-- - Backup (src/backup.c, `Connection_backup` of src/connection.c): a method is a function of
--   its name, and `connection_backup` makes the object, with what is undone where there is no memory
--   for it. Asserts are taken as compiled out; `result_agrees` is the one on the result.
-- - Cursor (src/cursor.c): `resetcursor`, `close` and `dealloc` are in Cursor; `dobinding` and
--   `dobindings` in Cursor/Binding. The reset gives the statement back to the statement cache,
--   which is an argument. Cursor/Step is the loop of `APSWCursor_step`, a round of it at a time,
--   with the exec tracer, which may change the cursor, as it is called while the cursor is not in use;
--   Cursor/Traced has what follows when it closes it. Cursor/Execute has `execute`, `executemany` and `next`; Cursor/Get has
--   `get`; Cursor/Attributes has the making of a cursor and the small methods. Cursor/Coherent,
--   Rounds, Methods, Fetch and Session are on one subject, the pointers that these methods
--   follow; Cursor/Rows and Ends are on the fuel that `fetchall` needs.
-- - Connection (src/connection.c): `enter`, `exit` and `trace_and_exec` of Connection/Savepoint
--   are the methods `__enter__` and `__exit__` and their helper. SQLite's stack of savepoints is
--   a parameter.
-- - Functions (src/connection.c, src/util.c): the functions that SQLite calls for SQL functions in
--   Python. Functions has the conversion of arguments and results, Scalar `cbdispatch_func`,
--   Aggregate `cbdispatch_step` and `cbdispatch_final`, Parts and Window the functions `cbw_*`, where a call through a null
--   pointer and a failed assertion are `none`. What a
--   factory returns is a value of `Made`. Program has the program of Python that the calls of an
--   aggregate stand for. Register has the methods that register functions, one function for the three
--   kinds, with the references to the objects `FunctionCBInfo`.
-- - Hooks (src/connection.c, src/pyutil.c): Hooks/Setters has the methods that set a hook,
--   Hooks/Callbacks the functions that SQLite calls, under their names (`tracehook_callback` is
--   `tracehook_cb`), and Hooks/Answers what they make of the answer. Beside the fields of the object,
--   `Registered` holds which callbacks SQLite has accepted; `accepted` is the effect on it of a call of
--   SQLite, as SQLite documents it. Hooks/Events puts methods and events in any order.
-- - Vtable (src/vtable.c): `x_open`, `x_eof` and so on stand for the functions `apswvtabOpen`,
--   `apswvtabEof`; `transaction_method` for xBegin, xSync, xCommit and xRollback, and
--   `nested_transaction` for xSavepoint, xRelease and xRollbackTo; Vtable/Update has `x_update`. The
--   tuple of values that a method gets is the list of its items. Vtable/Scan has the calls that SQLite
--   makes of a cursor, in the order that it documents.
-- - Format (src/apsw.c): `format_sql_value` on None, an integer, a float, a text or bytes. The
--   writes into the new string are checked against its length. Format/Reader is a reader of SQL
--   expressions, which stands for SQLite: it gives the storage class, and refuses a chain of `||` that
--   is deeper than SQLite allows by default.
-- - Vfs (src/vfs.c): Vfs/File has the functions `apswvfsfile_*`, by which SQLite calls a Python
--   object, and Vfs/Python the functions `apswvfsfilepy_*`, by which the class VFSFile calls a
--   file of SQLite; `as_file` and `inherited` put one on the other.
-- A blob, a backup and a cursor each stand, as a weak reference, on the list of dependents of
-- their connection, and a backup on two; closing one takes it off.
--
-- What SQLite and Python do is a parameter, a record of functions on a state of SQLite that
-- nothing else reads (`StmtApi`, `BlobApi`, `BackupApi`, `CursorApi`, `ExecApi`, `RowApi`,
-- `SavepointApi`, `FunctionApi`, `SettingApi`, `RegisterApi`,
-- `VtableApi`, `BaseFile`). A function returns the result code, the exception that a callback
-- has left, and the next state. What a theorem needs of such a function is a hypothesis
-- (`BlobLaws`: sizes are C `int`s that are not negative, and a read or write keeps the size;
-- `RegisterLaws`: SQLite keeps a function or calls its destructor; `CursorLaws`: a cursor of Python
-- over a list; `StackLaws`: savepoint commands that succeed; `HandsOff`: an exec tracer leaves its
-- cursor alone; `QuietInit`: no callback raises while a backup is opened; `Honest`: a file's result
-- codes),
-- and the Tests files have functions that satisfy it.
--
-- Bounds: a C `int` and a `long long` are wrapped at 32 and 64 bits where the code adds; the
-- counters of the statement cache wrap at 32 bits, and a hash is a 64-bit pattern. Loops over an
-- array, a text, a list of dependents or the parameters of a statement recurse on these or on
-- the number of rounds that is left, so that no fuel can run out: the scan of the cache makes
-- `highest_used + 1` rounds, and the loop of the bindings as many as the statement has
-- parameters. `Cursor.Step.step`, `next_loop`, `get_loop` and `fetch_list` have fuel, which
-- counts the rounds of the loop of the code: SQLite, an iterator of Python or a row tracer can
-- keep those loops going for ever, so that no fuel is always enough; for `fetchall` Cursor/Ends says
-- which is, and for the `scan` of a virtual table Vtable/Scan. Running out is a result of its own,
-- `no_fuel`, or `none` for `scan`.
--
-- Not modelled: reference counts, but for those of Functions/Register, and the order of destructors; an object or a weak reference
-- that Python cannot allocate, except where a parameter says so; the texts of exceptions beyond
-- the fixed ones; the in-use flag while a call of SQLite runs, so that a callback that comes
-- back to the same object is modelled by a call on an object that is in use; a callback that
-- changes the same statement cache; a row tracer that closes or runs its cursor; the description of a cursor and its cache, and
-- `expanded_sql`; `xFileControl`, the shared memory methods of a file and the methods of a VFS
-- itself; the memory for the name of an SQL function in a traceback; the callbacks of collations; of
-- src/vtable.c xBestIndex, the making of tables and functions, and the values of an IN constraint. The rest of src/connection.c and src/apsw.c, the
-- argument parser and the Python layer have no model.
pub mod Prelude
pub mod Errors
pub mod World
pub mod StatementCache
pub mod Blob
pub mod Backup
pub mod Cursor
pub mod Connection
pub mod Functions
pub mod Hooks
pub mod Vtable
pub mod Format
pub mod Vfs
