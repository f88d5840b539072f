-- ===== src/Format/Tests.antt =====
-- SQL values as text, at concrete inputs (src/apsw.c).
use apsw.Prelude.{arith, ℕ, List, [], ◌∷◌}
use apsw.Prelude.Int.{ℤ}
use apsw.Format.{Float, bytes, format_sql_value}
use apsw.Format.Reader.{sql_blob}
use apsw.Format.RoundTrip.{Reads, format_bytes-Reads}

abbrev no_int : ℤ → List ℕ
no_int n = []

abbrev no_float : Float → List ℕ
no_float f = []

format_bytes-Reads_example :
    Reads (format_sql_value no_int no_float (bytes (255 ∷ 0 ∷ []))) (sql_blob (255 ∷ 0 ∷ []))
format_bytes-Reads_example =
    format_bytes-Reads no_int no_float (255 ∷ 0 ∷ []) (omega arith, (omega arith, tt))
