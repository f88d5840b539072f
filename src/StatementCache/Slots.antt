-- ===== src/StatementCache/Slots.antt =====
-- The two arrays of the cache, slot by slot (src/statementcache.c).
use apsw.Prelude.{
  ℕ, zero, suc, ◌+◌, ◌≤◌, ◌<◌, ◌≡◌, ◌≢◌, refl, Option, none, some, List, [], ◌∷◌, arith, length,
  set, get_elem?, replicate, max, length-set, length-replicate, true, Bool-cases, inl, inr, ◌⊎◌,
  ◌==◌, ◌&&◌,
}
use apsw.StatementCache.{StatementCache, Statement, Options, sentinel_hash, place, same_query}
use apsw.StatementCache.Prepare.{scan, init}

-- A slot is empty exactly when its hash is the sentinel, and else holds a statement of that hash.
abbrev pub Slot : ℕ → Option Statement → Type 0
Slot h none = h ≡ sentinel_hash
Slot h (some s) = (h ≡ s.hash) × (s.hash ≢ sentinel_hash)

-- The first `n` slots are so, and the others have never been used.
abbrev pub Slots : ℕ → List ℕ → List (Option Statement) → Type 0
Slots n [] [] = Unit
Slots n [] (c ∷ cs) = ⊥
Slots n (h ∷ hs) [] = ⊥
Slots zero (h ∷ hs) (c ∷ cs) = (c ≡ none) × Slots zero hs cs
Slots (suc n) (h ∷ hs) (c ∷ cs) = Slot h c × Slots n hs cs

pub set_within-Slots :
    (n i : ℕ) (hs : List ℕ) (cs : List (Option Statement)) (h : ℕ) (c : Option Statement)
    → Slots n hs cs
    → i < n
    → Slot h c
    → Slots n (set hs i h) (set cs i c)
set_within-Slots n i [] [] h c v lt t = tt
set_within-Slots n i [] (c' ∷ cs) h c v lt t = absurd v
set_within-Slots n i (h' ∷ hs) [] h c v lt t = absurd v
set_within-Slots zero i (h' ∷ hs) (c' ∷ cs) h c v lt t = absurd (omega arith)
set_within-Slots (suc n) zero (h' ∷ hs) (c' ∷ cs) h c v lt t = (t, v.1)
set_within-Slots (suc n) (suc i) (h' ∷ hs) (c' ∷ cs) h c v lt t =
    (v.0, set_within-Slots n i hs cs h c v.1 (omega arith) t)

pub set_end-Slots :
    (n : ℕ) (hs : List ℕ) (cs : List (Option Statement)) (h : ℕ) (c : Option Statement)
    → Slots n hs cs
    → Slot h c
    → Slots (suc n) (set hs n h) (set cs n c)
set_end-Slots n [] [] h c v t = tt
set_end-Slots n [] (c' ∷ cs) h c v t = absurd v
set_end-Slots n (h' ∷ hs) [] h c v t = absurd v
set_end-Slots zero (h' ∷ hs) (c' ∷ cs) h c v t = (t, v.1)
set_end-Slots (suc n) (h' ∷ hs) (c' ∷ cs) h c v t = (v.0, set_end-Slots n hs cs h c v.1 t)

pub get-Slots :
    (n i : ℕ) (hs : List ℕ) (cs : List (Option Statement)) {s : Statement}
    → Slots n hs cs
    → get_elem? cs i ≡ some (some s)
    → s.hash ≢ sentinel_hash
get-Slots n i [] [] v e = absurd (ground arith)
get-Slots n i [] (c ∷ cs) v e = absurd v
get-Slots n i (h ∷ hs) [] v e = absurd v
get-Slots zero zero (h ∷ hs) (c ∷ cs) v e = absurd (ground arith)
get-Slots (suc n) zero (h ∷ hs) (c ∷ cs) v e = ground arith
get-Slots zero (suc i) (h ∷ hs) (c ∷ cs) v e = get-Slots zero i hs cs v.1 e
get-Slots (suc n) (suc i) (h ∷ hs) (c ∷ cs) v e = get-Slots n i hs cs v.1 e

replicate-Slots : (n : ℕ) → Slots zero (replicate n 0) (replicate n none)
replicate-Slots zero = tt
replicate-Slots (suc n) = (refl, replicate-Slots n)

pub record Inv (sc : StatementCache) : Type 0 where
  pub hashes_length : length sc.hashes ≡ sc.maxentries
  pub caches_length : length sc.caches ≡ sc.maxentries
  pub slots : Slots (suc sc.highest_used) sc.hashes sc.caches
  pub next_used : sc.next_eviction ≤ suc sc.highest_used
  pub next_lt : 0 < sc.maxentries → sc.next_eviction < sc.maxentries
  pub highest_lt : 0 < sc.maxentries → sc.highest_used < sc.maxentries
  pub bin_small : length sc.recycle_bin ≤ 3

pub init-Inv : (size : ℕ) → Inv (init size)
unfolding init
init-Inv zero = ground arith
init-Inv (suc n) = record {
  hashes_length = omega (arith, length-replicate {A = ℕ} n 0);
  caches_length = omega (arith, length-replicate {A = Option Statement} n none);
  slots = (refl, replicate-Slots n);
  next_used = omega arith;
  next_lt = omega arith;
  highest_lt = omega arith;
  bin_small = omega arith;
}

le-cases :
    (high next : ℕ)
    → next ≤ suc high
    → ((next ≡ suc high) × (max high (suc high) ≡ suc high))
      ⊎ ((next ≤ high) × (max high next ≡ high))
le-cases high next le = elim (Bool-cases (next == suc high)) [
  | inl e ↦ inl (ground arith, omega arith)
  | inr e ↦ let lt : next ≤ high = ground arith in inr (lt, omega arith)
]

place-Slots :
    (high next : ℕ) (hs : List ℕ) (cs : List (Option Statement)) (h : ℕ) (c : Option Statement)
    → Slots (suc high) hs cs
    → next ≤ suc high
    → Slot h c
    → Slots (suc (max high next)) (set hs next h) (set cs next c)
place-Slots high next hs cs h c v le t = elim (le-cases high next le) [
  | inl (e, m) ↦ rw (e, m) (set_end-Slots (suc high) hs cs h c v t)
  | inr (lt, m) ↦ rw m (set_within-Slots (suc high) next hs cs h c v (omega arith) t)
]

-- Placing a cacheable statement keeps the arrays in step.
pub place-Inv :
    (sc : StatementCache) (s : Statement)
    → Inv sc
    → 0 < sc.maxentries
    → s.hash ≢ sentinel_hash
    → Inv (place sc s)
unfolding place
place-Inv sc s v room cacheable = record {
  hashes_length = omega (arith, length-set sc.hashes sc.next_eviction s.hash, v.hashes_length);
  caches_length = omega (arith, length-set sc.caches sc.next_eviction (some s), v.caches_length);
  slots =
      place-Slots sc.highest_used sc.next_eviction sc.hashes sc.caches s.hash (some s) v.slots
        v.next_used (refl, cacheable);
  next_used = ground arith;
  next_lt = ground arith;
  highest_lt = ground arith;
  bin_small = v.bin_small;
}

-- The scan never leaves the arrays nor follows a null pointer when the hash is not the sentinel.
pub scan-ne-none :
    (utf8 : List ℕ) (o : Options) (hash n i : ℕ) (hs : List ℕ) (cs : List (Option Statement))
    → Slots n hs cs
    → n ≤ length hs
    → hash ≢ sentinel_hash
    → scan utf8 o hash n i hs cs ≢ none
unfolding scan
scan-ne-none utf8 o hash zero i hs cs v le real = ground arith
scan-ne-none utf8 o hash (suc n) i [] cs v le real = absurd (omega arith)
scan-ne-none utf8 o hash (suc n) i (h ∷ hs) [] v le real = absurd v
scan-ne-none utf8 o hash (suc n) i (h ∷ hs) (none ∷ cs) v le real =
    ground (arith, scan-ne-none utf8 o hash n (suc i) hs cs v.1 (omega arith) real)
scan-ne-none utf8 o hash (suc n) i (h ∷ hs) (some s ∷ cs) v le real =
    ground (arith, scan-ne-none utf8 o hash n (suc i) hs cs v.1 (omega arith) real)

-- What the scan returns: a slot, in use, whose statement answers the query.
abbrev pub Found :
    List ℕ → Options → ℕ → ℕ → ℕ → List ℕ → List (Option Statement) → ℕ → Statement → Type 0
Found utf8 o hash n i hs cs j s =
    (k : ℕ) × (j ≡ i + k)
    × (k < n)
    × (get_elem? hs k ≡ some hash)
    × (get_elem? cs k ≡ some (some s))
    × (same_query utf8 o s ≡ true)

later-Found :
    (utf8 : List ℕ) (o : Options) (hash n i h : ℕ) (c : Option Statement) (hs : List ℕ)
    (cs : List (Option Statement)) (j : ℕ) (s : Statement)
    → Found utf8 o hash n (suc i) hs cs j s
    → Found utf8 o hash (suc n) i (h ∷ hs) (c ∷ cs) j s
later-Found utf8 o hash n i h c hs cs j s (k, e, lt, a, b, d) =
    (suc k, omega arith, omega arith, a, b, d)

pub scan-Found :
    (utf8 : List ℕ) (o : Options) (hash n i : ℕ) (hs : List ℕ) (cs : List (Option Statement))
    (j : ℕ) (s : Statement)
    → scan utf8 o hash n i hs cs ≡ some (some (j, s))
    → Found utf8 o hash n i hs cs j s
unfolding scan
scan-Found utf8 o hash zero i hs cs j s e = absurd (ground arith)
scan-Found utf8 o hash (suc n) i [] cs j s e = absurd (ground arith)
scan-Found utf8 o hash (suc n) i (h ∷ hs) [] j s e = absurd (ground arith)
scan-Found utf8 o hash (suc n) i (h ∷ hs) (none ∷ cs) j s e =
    later-Found utf8 o hash n i h none hs cs j s
      (scan-Found utf8 o hash n (suc i) hs cs j s (ground arith))
scan-Found utf8 o hash (suc n) i (h ∷ hs) (some t ∷ cs) j s e =
    elim (Bool-cases (h == hash && same_query utf8 o t)) [
      | inl here ↦ (0, ground arith, omega arith, ground arith, ground arith, ground arith)
      | inr on ↦
          later-Found utf8 o hash n i h (some t) hs cs j s
            (scan-Found utf8 o hash n (suc i) hs cs j s (ground arith))
    ]
