-- ===== src/Format/RoundTrip.antt =====
-- The text of a value, read as SQL, is the value (src/apsw.c).
use apsw.Prelude.{
  ℕ, ◌+◌, if◌then◌else◌, ◌/◌, ◌%◌, ◌<◌, ◌≡◌, refl, ap, false, some, List, [], ◌∷◌, ◌++◌, ◌==◌,
  arith,
}
use apsw.Prelude.Int.{ℤ}
use apsw.Format.{
  Float, bytes, Formatted, formatted, type_error, overrun, quote, hex_digit, format_sql_value,
}
use apsw.Format.Buffer.{hex_text, format_bytes-hex_text}
use apsw.Format.Reader.{literal, in_blob, hex_value, advance, read, joins, Sql, sql_blob, read_sql}

hex_value-hex_digit : (n : ℕ) → n < 16 → hex_value (hex_digit n) ≡ some n
unfolding hex_digit
hex_value-hex_digit n lt = ground arith

-- Every one is a byte.
abbrev pub AllBytes : List ℕ → Type 0
AllBytes [] = Unit
AllBytes (c ∷ cs) = (c < 256) × AllBytes cs

hex_digit-ne-quote : (n : ℕ) → n < 16 → (hex_digit n == quote) ≡ false
unfolding hex_digit
hex_digit-ne-quote n lt = ground arith

read-hex_text : (cs : List ℕ) → AllBytes cs → read in_blob (hex_text cs ++ (quote ∷ [])) ≡ some cs
unfolding read advance
read-hex_text [] h = refl
read-hex_text (c ∷ cs) h =
    rw
      (
        hex_digit-ne-quote (c / 16) (omega (arith, h.0)),
        hex_value-hex_digit (c / 16) (omega (arith, h.0)),
        hex_value-hex_digit (c % 16) (omega arith),
        read-hex_text cs h.1,
      )
      (ap (λ (x : ℕ). some (x ∷ cs)) (omega arith))

-- How many nulls a text has.
abbrev pub nulls : List ℕ → ℕ
nulls [] = 0
nulls (c ∷ cs) = (if c == 0 then 1 else 0) + nulls cs

joins-hex_text : (cs : List ℕ) → AllBytes cs → joins in_blob (hex_text cs ++ (quote ∷ [])) ≡ 0
unfolding joins advance
joins-hex_text [] h = refl
joins-hex_text (c ∷ cs) h =
    rw
      (
        hex_digit-ne-quote (c / 16) (omega (arith, h.0)),
        hex_value-hex_digit (c / 16) (omega (arith, h.0)),
        hex_value-hex_digit (c % 16) (omega arith),
        joins-hex_text cs h.1,
      )
      (omega arith)

read_sql-blob :
    (t cs : List ℕ)
    → read literal (b'X' ∷ t) ≡ some cs
    → joins literal (b'X' ∷ t) ≡ 0
    → read_sql (b'X' ∷ t) ≡ some (sql_blob cs)
unfolding read_sql
read_sql-blob t cs e none_joined = rw (none_joined, e) refl

-- The text that the value comes to, read as SQL.
abbrev pub Reads : Formatted → Sql → Type 0
Reads (formatted t) v = read_sql t ≡ some v
Reads type_error v = ⊥
Reads overrun v = ⊥

-- Any bytes become a blob literal, which SQL reads as a blob of those bytes and not as a text, in a string that
-- is filled exactly.
pub format_bytes-Reads :
    (str_int : ℤ → List ℕ) (str_float : Float → List ℕ) (cs : List ℕ)
    → AllBytes cs
    → Reads (format_sql_value str_int str_float (bytes cs)) (sql_blob cs)
unfolding format_sql_value
format_bytes-Reads str_int str_float cs h = rw (format_bytes-hex_text cs) (
    read_sql-blob _ cs (unfold read advance in read-hex_text cs h)
      (unfold joins advance in omega (arith, joins-hex_text cs h)))
