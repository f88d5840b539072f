-- ===== src/Format/Reader.antt =====
-- SQL's own reading of an expression of literals joined by `||`: texts, in which two quotes stand for
-- one, and blobs, of two hex digits for a byte. It is written from SQLite's description of literals,
-- and gives the code points, of which a byte is one, with the storage class. SQLite refuses an expression
-- whose tree is deeper than 1000, as it is built by default, which a chain of 1000 `||` is.
use apsw.Prelude.{
  ℕ, ◌+◌, ◌-◌, ◌*◌, Bool, true, false, Option, none, some, List, [], ◌∷◌, ◌==◌, leb, if◌then◌else◌,
  ◌&&◌, ◌>>=◌,
}
use apsw.Format.{quote}

pub data State : Type 0 where
  literal in_text after_quote after_bar after_x in_blob after_blob : State
  half_byte : ℕ → State

abbrev pub hex_value : ℕ → Option ℕ
hex_value c =
    if leb b'0' c && leb c b'9'
    then some (c - b'0')
    else if leb b'A' c && leb c b'F'
    then some (c - b'A' + 10)
    else if leb b'a' c && leb c b'f'
    then some (c - b'a' + 10)
    else none

-- The next state, with the code point that is read.
unfoldable pub advance : State → ℕ → Option (State × Option ℕ)
advance literal c =
    if c == quote then some (in_text, none) else if c == b'X' then some (after_x, none) else none
advance in_text c = if c == quote then some (after_quote, none) else some (in_text, some c)
advance after_quote c =
    if c == quote
    then some (in_text, some quote)
    else if c == b'|'
    then some (after_bar, none)
    else none
advance after_bar c = if c == b'|' then some (literal, none) else none
advance after_x c = if c == quote then some (in_blob, none) else none
advance in_blob c =
    if c == quote then some (after_blob, none) else (hex_value c >>= λ d. some (half_byte d, none))
advance (half_byte d) c = hex_value c >>= λ e. some (in_blob, some (d * 16 + e))
advance after_blob c = if c == b'|' then some (after_bar, none) else none

abbrev pub ends : State → Bool
ends after_quote = true
ends after_blob = true
ends _ = false

-- The second bar of a `||` follows.
abbrev pub is_bar : State → Bool
is_bar after_bar = true
is_bar _ = false

abbrev pub or_zero : Option ℕ → ℕ
or_zero none = 0
or_zero (some n) = n

abbrev pub emit : Option ℕ → Option (List ℕ) → Option (List ℕ)
emit none m = m
emit (some c) m = m >>= λ rest. some (c ∷ rest)

unfoldable pub read : State → List ℕ → Option (List ℕ)
read s [] = if ends s then some [] else none
read s (c ∷ cs) = advance s c >>= λ (s', out). emit out (read s' cs)

-- How many `||` there are, outside the literals.
unfoldable pub joins : State → List ℕ → ℕ
joins s [] = 0
joins s (c ∷ cs) =
    (if is_bar s then 1 else 0) + or_zero (advance s c >>= λ (s', out). some (joins s' cs))

-- A value of SQL, by its storage class.
pub data Sql : Type 0 where
  sql_text sql_blob : List ℕ → Sql

-- An expression that is one literal, or a chain that begins with a text and so is one.
unfoldable pub read_sql : List ℕ → Option Sql
read_sql [] = none
read_sql (c ∷ cs) =
    if leb 1000 (joins literal (c ∷ cs))
    then none
    else if c == quote
    then (read literal (c ∷ cs) >>= λ t. some (sql_text t))
    else if joins literal (c ∷ cs) == 0
    then (read literal (c ∷ cs) >>= λ b. some (sql_blob b))
    else none
