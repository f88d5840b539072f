-- ===== src/StatementCache/Ring.antt =====
-- The cache as a queue (src/statementcache.c): slots in the order of eviction, the oldest first.
use apsw.Prelude.{
  ℕ, zero, suc, ◌+◌, ◌≤◌, ◌<◌, ◌≡◌, refl, ap, Option, some, List, [], ◌∷◌, ◌++◌, arith, length, set,
  take, drop, get_elem?, get_elem?-lt, ◌==◌, if◌then◌else◌, Bool-cases, inl, inr, sym, ◌∙◌,
  length-set,
}
use mathlib.Core.List.{append-nil, append_assoc}
use apsw.StatementCache.{StatementCache, Statement, place}
use mathlib.Core.Path.{◌≡⟨◌⟩◌, ◌∎}
use native.Mathlib.Numerals.{add-one}
use apsw.StatementCache.Slots.{Inv}

-- The slots from the one whose turn it is, around to the one before it.
abbrev pub ring : StatementCache → List (Option Statement)
ring sc = drop sc.next_eviction sc.caches ++ take sc.next_eviction sc.caches

module _ {A : Type 0} where
  drop-get_elem? :
      (i : ℕ) (xs : List A) {a : A} → get_elem? xs i ≡ some a → drop i xs ≡ a ∷ drop (suc i) xs
  drop-get_elem? i [] e = absurd (ground arith)
  drop-get_elem? zero (x ∷ xs) e = ground arith
  drop-get_elem? (suc i) (x ∷ xs) e = drop-get_elem? i xs e

  drop-set : (i : ℕ) (xs : List A) (a : A) → drop (suc i) (set xs i a) ≡ drop (suc i) xs
  drop-set i [] a = refl
  drop-set zero (x ∷ xs) a = refl
  drop-set (suc i) (x ∷ xs) a = drop-set i xs a

  take-set :
      (i : ℕ) (xs : List A) (a : A)
      → i < length xs
      → take (suc i) (set xs i a) ≡ take i xs ++ a ∷ []
  take-set i [] a h = elim h [ ]
  take-set zero (x ∷ xs) a h = refl
  take-set (suc i) (x ∷ xs) a h = ap (◌∷◌ x) (take-set i xs a (omega arith))

  drop-length : (xs : List A) (n : ℕ) → length xs ≤ n → drop n xs ≡ []
  drop-length [] zero h = refl
  drop-length [] (suc n) h = refl
  drop-length (x ∷ xs) zero h = absurd (omega arith)
  drop-length (x ∷ xs) (suc n) h = drop-length xs n (omega arith)

  take-length : (xs : List A) (n : ℕ) → length xs ≤ n → take n xs ≡ xs
  take-length [] zero h = refl
  take-length [] (suc n) h = refl
  take-length (x ∷ xs) zero h = absurd (omega arith)
  take-length (x ∷ xs) (suc n) h = ap (◌∷◌ x) (take-length xs n (omega arith))

  -- The rotation that a write at `i` makes, at the last place and before it.
  rotate_last :
      (i : ℕ) (xs : List A) (a : A)
      → length xs ≡ suc i
      → set xs i a ++ [] ≡ drop (suc i) xs ++ (take i xs ++ a ∷ [])
  rotate_last i xs a e =
      set xs i a ++ []
      ≡⟨ append-nil (set xs i a) ⟩ set xs i a
      ≡⟨ sym (take-length (set xs i a) (suc i) (omega (arith, length-set xs i a))) ⟩
        take (suc i) (set xs i a)
      ≡⟨ take-set i xs a (omega arith) ⟩ take i xs ++ a ∷ []
      ≡⟨ ap (λ t. t ++ (take i xs ++ a ∷ [])) (sym (drop-length xs (suc i) (omega arith))) ⟩
        drop (suc i) xs ++ (take i xs ++ a ∷ []) ∎

  rotate_inner :
      (i : ℕ) (xs : List A) (a : A)
      → i < length xs
      → drop (suc i) (set xs i a) ++ take (suc i) (set xs i a)
        ≡ drop (suc i) xs ++ (take i xs ++ a ∷ [])
  rotate_inner i xs a h = rw (drop-set i xs a, take-set i xs a h)

  rotate :
      (i n : ℕ) (xs : List A) (a : A)
      → length xs ≡ n
      → i < n
      → let j = if i + 1 == n then 0 else i + 1 in
        drop j (set xs i a) ++ take j (set xs i a) ≡ drop (suc i) xs ++ (take i xs ++ a ∷ [])
  rotate i n xs a e h = elim (Bool-cases (i + 1 == n)) [
    | inl last ↦ rw last (rotate_last i xs a (ground arith))
    | inr more ↦ rw (more, add-one) (rotate_inner i xs a (omega arith))
  ]

-- Placing a statement takes the oldest slot off the front of the queue and puts the statement at
-- its back, in a cache whose arrays are in step and have an entry.
pub ring-place :
    (sc : StatementCache) (s : Statement)
    → Inv sc
    → 0 < sc.maxentries
    → (oldest : Option Statement) × (rest : List (Option Statement)) × (ring sc ≡ oldest ∷ rest)
      × (get_elem? sc.caches sc.next_eviction ≡ some oldest)
      × (ring (place sc s) ≡ rest ++ some s ∷ [])
unfolding place
ring-place sc s v room =
    let i = sc.next_eviction in
    let (oldest, at) = get_elem?-lt sc.caches i (omega (arith, v.caches_length, v.next_lt room)) in
    (
      oldest,
      drop (suc i) sc.caches ++ take i sc.caches,
      ap (λ t. t ++ take i sc.caches) (drop-get_elem? i sc.caches at),
      at,
      rotate i sc.maxentries sc.caches (some s) v.caches_length (v.next_lt room)
          ∙ sym (append_assoc (drop (suc i) sc.caches) (take i sc.caches) (some s ∷ [])),
    )
