-- ===== src/Cursor/Traced.antt =====
-- An exec tracer that closes its cursor (src/cursor.c).
use apsw.Prelude.{some}
use apsw.Prelude.Int.{pos}
use apsw.World.{World}
use apsw.StatementCache.{Statement, StatementCache}
use apsw.Cursor.{Cursor}
use apsw.Cursor.Execute.{RowApi}

module _ {S : Type 0} (api : RowApi S) where
  abbrev pub begun : Statement → Cursor → Cursor
  begun s c = record c { statement = some s; bindingsoffset = pos 0 }
