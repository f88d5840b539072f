-- ===== src/Format/Buffer.antt =====
-- The writes of `formatsqlvalue` stay within the string that it has made, and fill it
-- (src/apsw.c).
use apsw.Prelude.{
  ℕ, zero, suc, ◌+◌, ◌-◌, ◌*◌, ◌/◌, ◌%◌, ◌≡◌, refl, sym, ap, ◌∙◌, true, Option, some, List, [], ◌∷◌,
  ◌++◌, ◌==◌, if◌then◌else◌, length, set, replicate, length-append, length-replicate, ◌>>=◌,
  >>=-ext, >>=_assoc, arith, Bool-cases, inl, inr,
}
use mathlib.Core.List.{append_assoc}
use apsw.Format.{
  quote, piece, count_chars, is_simple, write_at, write_all, write_text, format_text, hex_digit,
  write_hex, format_bytes,
}

-- The text between the quotes, one piece for each character.
abbrev pub escape : List ℕ → List ℕ
escape [] = []
escape (c ∷ cs) = piece c ++ escape cs

abbrev pub hex_text : List ℕ → List ℕ
hex_text [] = []
hex_text (c ∷ cs) = hex_digit (c / 16) ∷ hex_digit (c % 16) ∷ hex_text cs

set-append :
    (pre : List ℕ) (z c : ℕ) (rest : List ℕ)
    → set (pre ++ (z ∷ rest)) (length pre) c ≡ pre ++ (c ∷ rest)
set-append [] z c rest = refl
set-append (x ∷ pre) z c rest = ap (λ l. x ∷ l) (set-append pre z c rest)

write_at-append :
    (pre : List ℕ) (z c : ℕ) (rest : List ℕ) (pos : ℕ)
    → pos ≡ length pre
    → write_at pos c (pre ++ (z ∷ rest)) ≡ some (pre ++ (c ∷ rest))
unfolding write_at
write_at-append pre z c rest pos e =
    rw e (ground (arith, length-append pre (z ∷ rest), set-append pre z c rest))

-- Writes into as many places as there are characters.
write_all-append_zeros :
    (cs zs pre post : List ℕ) (pos : ℕ)
    → pos ≡ length pre
    → length zs ≡ length cs
    → write_all cs pos (pre ++ (zs ++ post)) ≡ some (pos + length cs, pre ++ (cs ++ post))
unfolding write_all
write_all-append_zeros [] [] pre post pos e same = ground arith
write_all-append_zeros [] (z ∷ zs) pre post pos e same = absurd (omega (arith, same))
write_all-append_zeros (c ∷ cs) [] pre post pos e same = absurd (omega (arith, same))
write_all-append_zeros (c ∷ cs) (z ∷ zs) pre post pos e same =
    let next =
      write_all-append_zeros cs zs (pre ++ (c ∷ [])) post (pos + 1)
        (omega (arith, e, length-append pre (c ∷ []))) (omega (arith, same)) in
    rw (write_at-append pre z c (zs ++ post) pos e) (
      ap (write_all cs (pos + 1)) (sym (append_assoc pre (c ∷ []) (zs ++ post)))
      ∙ (next
          ∙ (ap (λ (l : List ℕ). some (pos + 1 + length cs, l))
                (append_assoc pre (c ∷ []) (cs ++ post))
              ∙ ap (λ (n : ℕ). some (n, pre ++ (c ∷ (cs ++ post)))) (omega arith))))

write_all-append :
    (xs ys : List ℕ) (pos : ℕ) (b : List ℕ)
    → write_all (xs ++ ys) pos b ≡ (write_all xs pos b >>= λ (p, b'). write_all ys p b')
unfolding write_all
write_all-append [] ys pos b = refl
write_all-append (x ∷ xs) ys pos b =
    >>=-ext (write_at pos x b) (λ b'. write_all-append xs ys (pos + 1) b')
    ∙ >>=_assoc (write_at pos x b) (write_all xs (pos + 1)) (λ (p, b'). write_all ys p b')

write_text-escape :
    (cs : List ℕ) (pos : ℕ) (b : List ℕ) → write_text cs pos b ≡ write_all (escape cs) pos b
unfolding write_text
write_text-escape [] pos b = unfold write_all in refl
write_text-escape (c ∷ cs) pos b =
    >>=-ext (write_all (piece c) pos b) (λ r. write_text-escape cs r.0 r.1)
    ∙ sym (write_all-append (piece c) (escape cs) pos b)

write_hex-hex_text :
    (cs : List ℕ) (pos : ℕ) (b : List ℕ) → write_hex cs pos b ≡ write_all (hex_text cs) pos b
unfolding write_hex
write_hex-hex_text [] pos b = unfold write_all in refl
write_hex-hex_text (c ∷ cs) pos b =
    let two = hex_digit (c / 16) ∷ hex_digit (c % 16) ∷ [] in
    >>=-ext (write_all two pos b) (λ r. write_hex-hex_text cs r.0 r.1)
    ∙ sym (write_all-append two (hex_text cs) pos b)

escape-is_simple : (cs : List ℕ) → is_simple cs ≡ true → escape cs ≡ cs
unfolding is_simple piece
escape-is_simple [] e = refl
escape-is_simple (c ∷ cs) e = ground (arith, escape-is_simple cs)

length-piece : (c : ℕ) → length (piece c) ≡ (if c == 0 then 11 else if c == quote then 2 else 1)
unfolding piece
length-piece c = elim (Bool-cases (c == 0)) [ inl e ↦ rw e refl | inr e ↦ rw e (ground arith) ]

-- The first loop counts the characters of the output.
count_chars-escape : (n : ℕ) (cs : List ℕ) → count_chars n cs ≡ n + length (escape cs)
unfolding count_chars
count_chars-escape n [] = omega arith
count_chars-escape n (c ∷ cs) = ground (
  arith,
  length-piece c,
  length-append (piece c) (escape cs),
  count_chars-escape (n + 2) cs,
  count_chars-escape (n + 11) cs,
  count_chars-escape (n + 1) cs,
)

abbrev zeros : ℕ → List ℕ
zeros n = replicate n 0

zeros-snoc : (n : ℕ) → zeros (suc n) ≡ zeros n ++ (0 ∷ [])
zeros-snoc zero = refl
zeros-snoc (suc n) = ap (λ (l : List ℕ). 0 ∷ l) (zeros-snoc n)

-- Both ways through the second loop write the same.
body : List ℕ → ℕ → List ℕ → Option (ℕ × List ℕ)
body cs pos b = if is_simple cs then write_all cs pos b else write_text cs pos b

body-escape : (cs : List ℕ) (pos : ℕ) (b : List ℕ) → body cs pos b ≡ write_all (escape cs) pos b
unfolding body
body-escape cs pos b = elim (Bool-cases (is_simple cs)) [
  | inl e ↦ rw e (ap (λ l. write_all l pos b) (sym (escape-is_simple cs e)))
  | inr e ↦ rw e (write_text-escape cs pos b)
]

-- The two quotes are written first.
frame_lem :
    (m n : ℕ)
    → m ≡ suc (suc n)
    → (write_at 0 quote (zeros m) >>= λ b. write_at (m - 1) quote b)
      ≡ some (quote ∷ (zeros n ++ (quote ∷ [])))
frame_lem m n e =
    let first : write_at 0 quote (zeros m) ≡ some (quote ∷ (zeros n ++ (0 ∷ []))) = rw e (
      write_at-append [] 0 quote (zeros (suc n)) 0 (omega arith)
      ∙ ap (λ (l : List ℕ). some (quote ∷ l)) (zeros-snoc n)) in
    rw first (
      write_at-append (quote ∷ zeros n) 0 quote [] (m - 1)
        (omega (arith, e, length-replicate {A = ℕ} n 0)))

-- No write leaves the string that was made for the text, and together they fill it: a quote, a piece
-- for each character, and a quote.
pub format_text-escape : (cs : List ℕ) → format_text cs ≡ some (quote ∷ (escape cs ++ (quote ∷ [])))
unfolding format_text body
format_text-escape cs =
    let n = length (escape cs) in
    let count : count_chars 2 cs ≡ suc (suc n) = omega (arith, count_chars-escape 2 cs) in
    let all : write_all (escape cs) 1 (quote ∷ (zeros n ++ (quote ∷ [])))
        ≡ some (1 + n, quote ∷ (escape cs ++ (quote ∷ []))) =
      write_all-append_zeros (escape cs) (zeros n) (quote ∷ []) (quote ∷ []) 1 (omega arith)
        (length-replicate n 0) in
    let second : body cs 1 (quote ∷ (zeros n ++ (quote ∷ [])))
        ≡ some (1 + n, quote ∷ (escape cs ++ (quote ∷ []))) =
      body-escape cs 1 _ ∙ all in
    >>=_assoc (write_at 0 quote (zeros (count_chars 2 cs)))
      (λ b. write_at (count_chars 2 cs - 1) quote b) (λ b. body cs 1 b >>= λ (p, b'). some b')
    ∙ (ap (λ (m : Option (List ℕ)). m >>= λ b. body cs 1 b >>= λ (p, b'). some b')
          (frame_lem (count_chars 2 cs) n count)
        ∙ ap (λ (m : Option (ℕ × List ℕ)). m >>= λ (p, b'). some b') second)

length-hex_text : (cs : List ℕ) → length (hex_text cs) ≡ length cs * 2
length-hex_text [] = omega arith
length-hex_text (c ∷ cs) = omega (arith, length-hex_text cs)

-- The same of the text of a blob.
pub format_bytes-hex_text :
    (cs : List ℕ) → format_bytes cs ≡ some (b'X' ∷ quote ∷ (hex_text cs ++ (quote ∷ [])))
unfolding format_bytes
format_bytes-hex_text cs =
    let n = length (hex_text cs) in
    let three : zeros (length cs * 2 + 3) ≡ 0 ∷ 0 ∷ (zeros n ++ (0 ∷ [])) =
      ap zeros {x = length cs * 2 + 3} {y = suc (suc (suc n))} (omega (arith, length-hex_text cs))
      ∙ ap (λ (l : List ℕ). 0 ∷ 0 ∷ l) (zeros-snoc n) in
    let start : write_all (b'X' ∷ quote ∷ []) 0 (zeros (length cs * 2 + 3))
        ≡ some (2, b'X' ∷ quote ∷ (zeros n ++ (0 ∷ []))) =
      rw three (
        write_all-append_zeros (b'X' ∷ quote ∷ []) (0 ∷ 0 ∷ []) [] (zeros n ++ (0 ∷ [])) 0
          (omega arith) refl) in
    let middle : write_hex cs 2 (b'X' ∷ quote ∷ (zeros n ++ (0 ∷ [])))
        ≡ some (2 + n, b'X' ∷ quote ∷ (hex_text cs ++ (0 ∷ []))) =
      write_hex-hex_text cs 2 _
      ∙ write_all-append_zeros (hex_text cs) (zeros n) (b'X' ∷ quote ∷ []) (0 ∷ []) 2 (omega arith)
          (length-replicate n 0) in
    rw (start, middle)
      (write_at-append (b'X' ∷ quote ∷ hex_text cs) 0 quote [] (2 + n) (omega arith))
