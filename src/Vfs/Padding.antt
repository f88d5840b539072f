-- ===== src/Vfs/Padding.antt =====
-- The zeros at the end of a short read (src/vfs.c).
use apsw.Prelude.{
  ℕ, zero, suc, ◌+◌, ◌-◌, ◌≡◌, ◌<◌, ◌≤◌, refl, sym, ap, ◌∙◌, List, [], ◌∷◌, ◌++◌, ◌==◌, ltb, length,
  take, replicate, get_or, arith, Bool-cases, inl, inr,
}
use mathlib.Core.Path.{ap₂}
use apsw.Vfs.Python.{shorten}

-- Bytes that are zeros from the `k`-th on are those before it, and zeros.
zeros_after :
    (k m : ℕ) (xs : List ℕ)
    → length xs ≡ k + m
    → ((i : ℕ) → k ≤ i → get_or xs i 0 ≡ 0)
    → take k xs ++ replicate m 0 ≡ xs
zeros_after zero zero [] e h = refl
zeros_after zero (suc m) [] e h = absurd (omega (arith, e))
zeros_after (suc k) m [] e h = absurd (omega (arith, e))
zeros_after zero zero (x ∷ xs) e h = absurd (omega (arith, e))
zeros_after zero (suc m) (x ∷ xs) e h =
    ap₂ (λ a l. a ∷ l) (sym (h 0 (omega arith)))
      (zeros_after zero m xs (omega (arith, e)) (λ i le. h (suc i) (omega arith)))
zeros_after (suc k) m (x ∷ xs) e h =
    ap (λ l. x ∷ l) (zeros_after k m xs (omega (arith, e)) (λ i le. h (suc i) (omega (arith, le))))

shorten-zeros : (n : ℕ) (xs : List ℕ) (i : ℕ) → shorten n xs ≤ i → i < n → get_or xs i 0 ≡ 0
unfolding shorten
shorten-zeros zero xs i h lt = absurd (omega (arith, lt))
shorten-zeros (suc n) xs i h lt = elim (Bool-cases (get_or xs n 0 == 0)) [
  | inl e ↦ elim (Bool-cases (i == n)) [
    | inl f ↦ ap (λ j. get_or xs j 0) {y = n} (ground (arith, f)) ∙ ground (arith, e)
    | inr f ↦ shorten-zeros n xs i (ground (arith, h, e)) (ground (arith, lt, f))
  ]
  | inr e ↦ absurd (ground (arith, h, e, lt))
]

pub shorten_le : (n : ℕ) (xs : List ℕ) → shorten n xs ≤ n
unfolding shorten
shorten_le zero xs = omega arith
shorten_le (suc n) xs = ground (arith, shorten_le n xs)

get_or-beyond : (xs : List ℕ) (i : ℕ) → length xs ≤ i → get_or xs i 0 ≡ 0
get_or-beyond [] i h = refl
get_or-beyond (x ∷ xs) zero h = absurd (omega (arith, h))
get_or-beyond (x ∷ xs) (suc i) h = get_or-beyond xs i (omega (arith, h))

-- The bytes before the zeros at the end, with zeros again.
pub shorten-pad :
    (xs : List ℕ)
    → take (shorten (length xs) xs) xs ++ replicate (length xs - shorten (length xs) xs) 0 ≡ xs
shorten-pad xs =
    zeros_after (shorten (length xs) xs) (length xs - shorten (length xs) xs) xs
      (omega (arith, shorten_le (length xs) xs))
      (λ i le. elim (Bool-cases (ltb i (length xs))) [
        | inl e ↦ shorten-zeros (length xs) xs i le (ground (arith, e))
        | inr e ↦ get_or-beyond xs i (ground (arith, e))
      ])

pub take_all : (xs : List ℕ) → take (length xs) xs ≡ xs
take_all [] = refl
take_all (x ∷ xs) = ap (λ l. x ∷ l) (take_all xs)
