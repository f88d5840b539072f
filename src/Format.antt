-- ===== src/Format.antt =====
-- The text of a value as an SQL expression (`formatsqlvalue` of src/apsw.c). A text is the list of
-- its code points.
pub mod Buffer
pub mod Reader
pub mod RoundTrip
pub mod Tests
use apsw.Prelude.{
  ℕ, zero, suc, ◌+◌, ◌-◌, ◌*◌, ◌/◌, ◌%◌, Bool, true, false, Option, none, some, List, [], ◌∷◌, ◌++◌,
  ◌==◌, ltb, if◌then◌else◌, ◌&&◌, not, length, set, replicate, ◌>>=◌,
}
use apsw.Prelude.Int.{ℤ}
use Prim.Native.Char.{code}
use Prim.Native.String.{String}
use Prim.Native.String

-- A float by what the code asks of it; `finite` is known by its bits.
pub data Float : Type 0 where
  nan : Float
  infinite : Bool → Float
  zero_float : Bool → Float
  finite : ℕ → Float

pub data Input : Type 0 where
  null : Input
  int : ℤ → Input
  float : Float → Input
  text bytes : List ℕ → Input
  other : Input

-- A text, TypeError, or a write outside the new string.
pub data Formatted : Type 0 where
  formatted : List ℕ → Formatted
  type_error : Formatted
  overrun : Formatted

-- The code points of an ASCII text.
abbrev pub codes : String → List ℕ
codes String.[] = []
codes (String.◌∷◌ c s) = code c ∷ codes s

abbrev pub quote : ℕ
quote = 39

-- What stands for an embedded null.
abbrev pub null_text : List ℕ
null_text = codes "'||X'00'||'"

-- The characters that are written for one of the input.
unfoldable pub piece : ℕ → List ℕ
piece c = if c == 0 then null_text else if c == quote then quote ∷ quote ∷ [] else c ∷ []

-- The first loop: the length of the output.
unfoldable pub count_chars : ℕ → List ℕ → ℕ
count_chars n [] = n
count_chars n (c ∷ cs) =
    count_chars (if c == quote then n + 2 else if c == 0 then n + 11 else n + 1) cs

unfoldable pub is_simple : List ℕ → Bool
is_simple [] = true
is_simple (c ∷ cs) = not (c == quote) && (not (c == 0) && is_simple cs)

-- `PyUnicode_WRITE`; `none` is a write outside the string.
unfoldable pub write_at : ℕ → ℕ → List ℕ → Option (List ℕ)
write_at i v buffer = if ltb i (length buffer) then some (set buffer i v) else none

-- Writes one after the other from a position on.
unfoldable pub write_all : List ℕ → ℕ → List ℕ → Option (ℕ × List ℕ)
write_all [] pos buffer = some (pos, buffer)
write_all (c ∷ cs) pos buffer = write_at pos c buffer >>= λ b. write_all cs (pos + 1) b

-- The second loop.
unfoldable pub write_text : List ℕ → ℕ → List ℕ → Option (ℕ × List ℕ)
write_text [] pos buffer = some (pos, buffer)
write_text (c ∷ cs) pos buffer = write_all (piece c) pos buffer >>= λ (p, b). write_text cs p b

unfoldable pub format_text : List ℕ → Option (List ℕ)
format_text cs =
    let n = count_chars 2 cs in
    write_at 0 quote (replicate n 0) >>= λ b. write_at (n - 1) quote b >>= λ b'.
    (if is_simple cs then write_all cs 1 b' else write_text cs 1 b') >>= λ (p, b''). some b''

-- "0123456789ABCDEF"[n].
unfoldable pub hex_digit : ℕ → ℕ
hex_digit n = if ltb n 10 then b'0' + n else b'A' + (n - 10)

-- The loop over the bytes.
unfoldable pub write_hex : List ℕ → ℕ → List ℕ → Option (ℕ × List ℕ)
write_hex [] pos buffer = some (pos, buffer)
write_hex (c ∷ cs) pos buffer =
    write_all (hex_digit (c / 16) ∷ hex_digit (c % 16) ∷ []) pos buffer >>= λ (p, b).
    write_hex cs p b

unfoldable pub format_bytes : List ℕ → Option (List ℕ)
format_bytes cs = write_all (b'X' ∷ quote ∷ []) 0 (replicate (length cs * 2 + 3) 0) >>= λ (p, b).
    write_hex cs p b >>= λ (p', b'). write_at p' quote b'

abbrev pub written : Option (List ℕ) → Formatted
written none = overrun
written (some t) = formatted t

-- `float`: not a number, infinities, the negative zero, and `str` of the rest.
unfoldable pub format_float : (Float → List ℕ) → Float → Formatted
format_float str nan = formatted (codes "NULL")
format_float str (infinite true) = formatted (codes "-1e999")
format_float str (infinite false) = formatted (codes "1e999")
format_float str (zero_float true) = formatted (codes "0.0")
format_float str (zero_float false) = formatted (str (zero_float false))
format_float str (finite f) = formatted (str (finite f))

-- `formatsqlvalue`, with Python's `str` of an integer and of a float.
unfoldable pub format_sql_value : (ℤ → List ℕ) → (Float → List ℕ) → Input → Formatted
format_sql_value str_int str_float null = formatted (codes "NULL")
format_sql_value str_int str_float (int n) = formatted (str_int n)
format_sql_value str_int str_float (float f) = format_float str_float f
format_sql_value str_int str_float (text cs) = written (format_text cs)
format_sql_value str_int str_float (bytes cs) = written (format_bytes cs)
format_sql_value str_int str_float other = type_error
