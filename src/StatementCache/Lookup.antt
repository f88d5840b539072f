-- ===== src/StatementCache/Lookup.antt =====
-- A query is answered from the cache when the cache has it (src/statementcache.c).
use apsw.Prelude.{
  ℕ, zero, suc, ◌≤◌, ◌<◌, ◌≡◌, ◌≢◌, refl, ap, true, Option, none, some, List, [], ◌∷◌, arith,
  length, get_elem?, take, bytes_eq→eq, bytes_eq_refl,
}
use apsw.Prelude.Int.{eq_ℤ_iff}
use apsw.World.{World}
use apsw.StatementCache.{
  StmtApi, StatementCache, Statement, Options, sentinel_hash, max_item_size, apsw_hash_bytes,
  same_query, options_eq,
}
use apsw.StatementCache.Prepare.{scan, look, hit, may_cache, prepare_internal}
use apsw.StatementCache.Slots.{Slots, Inv, scan-Found, scan-ne-none}

pub options_eq→eq : (a b : Options) → options_eq a b ≡ true → a ≡ b
unfolding options_eq
options_eq→eq a b h =
    ground (arith, eq_ℤ_iff a.prepare_flags b.prepare_flags, eq_ℤ_iff a.explain b.explain)

options_eq_refl : (a : Options) → options_eq a a ≡ true
unfolding options_eq
options_eq_refl a =
    ground (arith, eq_ℤ_iff a.prepare_flags a.prepare_flags, eq_ℤ_iff a.explain a.explain)

-- What the test of a slot promises: the options are the same, and the text too where there is one.
pub record Answers (utf8 : List ℕ) (o : Options) (s : Statement) : Type 0 where
  pub same_options : s.options ≡ o
  pub same_size : s.utf8_size ≡ length utf8
  pub same_text : (t : List ℕ) → s.utf8 ≡ some t → take (length utf8) t ≡ utf8

pub same_query-Answers :
    (utf8 : List ℕ) (o : Options) (s : Statement) → same_query utf8 o s ≡ true → Answers utf8 o s
unfolding same_query
same_query-Answers utf8 o s h = record {
  same_options = options_eq→eq s.options o (ground arith);
  same_size = ground arith;
  same_text = λ t e. bytes_eq→eq (take (length utf8) t) utf8 (ground arith);
}

take_self : (xs : List ℕ) → take (length xs) xs ≡ xs
take_self [] = refl
take_self (x ∷ xs) = ap (◌∷◌ x) (take_self xs)

pub same_query_self :
    (utf8 : List ℕ) (s : Statement)
    → s.utf8 ≡ some utf8
    → s.utf8_size ≡ length utf8
    → same_query utf8 s.options s ≡ true
unfolding same_query
same_query_self utf8 s e f =
    ground (arith, take_self utf8, bytes_eq_refl utf8, options_eq_refl s.options)

scan_hits :
    (utf8 : List ℕ) (o : Options) (hash n i k : ℕ) (hs : List ℕ) (cs : List (Option Statement))
    (s : Statement)
    → Slots n hs cs
    → k < n
    → get_elem? cs k ≡ some (some s)
    → s.hash ≡ hash
    → same_query utf8 o s ≡ true
    → scan utf8 o hash n i hs cs ≢ some none
unfolding scan
scan_hits utf8 o hash zero i k hs cs s v lt at e q = absurd (omega arith)
scan_hits utf8 o hash (suc n) i k [] cs s v lt at e q = ground arith
scan_hits utf8 o hash (suc n) i k (h ∷ hs) [] s v lt at e q = ground arith
scan_hits utf8 o hash (suc n) i zero (h ∷ hs) (c ∷ cs) s v lt at e q = ground arith
scan_hits utf8 o hash (suc n) i (suc k) (h ∷ hs) (none ∷ cs) s v lt at e q =
    ground (arith, scan_hits utf8 o hash n (suc i) k hs cs s v.1 (omega arith) at e q)
scan_hits utf8 o hash (suc n) i (suc k) (h ∷ hs) (some t ∷ cs) s v lt at e q =
    ground (arith, scan_hits utf8 o hash n (suc i) k hs cs s v.1 (omega arith) at e q)

module _ {S : Type 0} (api : StmtApi S) where
  -- A statement of the cache that answers, and the call that hands it out.
  abbrev pub IsHit : StatementCache → List ℕ → ℕ → Options → World S → Type 0
  IsHit sc utf8 query o w =
      (i : ℕ) × (s : Statement) × (get_elem? sc.caches i ≡ some (some s))
      × Answers utf8 o s
      × (prepare_internal api sc utf8 query o w ≡ hit api sc i s w)

  look_hits :
      (sc : StatementCache) (utf8 : List ℕ) (query : ℕ) (o : Options) (w : World S)
      (r : Option (Option (ℕ × Statement)))
      → may_cache sc utf8 o ≡ true
      → scan utf8 o (apsw_hash_bytes utf8) (suc sc.highest_used) 0 sc.hashes sc.caches ≡ r
      → r ≢ none
      → r ≢ some none
      → IsHit sc utf8 query o w
  unfolding prepare_internal look
  look_hits sc utf8 query o w none m e f g = absurd (f refl)
  look_hits sc utf8 query o w (some none) m e f g = absurd (g refl)
  look_hits sc utf8 query o w (some (some (i, s))) m e f g =
      let found =
        scan-Found utf8 o (apsw_hash_bytes utf8) (suc sc.highest_used) 0 sc.hashes sc.caches i s
          e in
      let same : i ≡ found.0 = omega (arith, found.1) in
      (i, s, rw same found.4, same_query-Answers utf8 o s found.5, rw (m, e))

  -- A query that may be cached is answered by a statement of the cache, with the same options and
  -- text, whenever some slot in use holds a statement that answers it, in a cache whose arrays are
  -- in step and for a text whose hash is not the sentinel.
  pub prepare_internal-IsHit :
      (sc : StatementCache) (utf8 : List ℕ) (query k : ℕ) (o : Options) (s : Statement)
      (w : World S)
      → Inv sc
      → 0 < sc.maxentries
      → length utf8 < max_item_size
      → o.can_cache ≡ true
      → k ≤ sc.highest_used
      → get_elem? sc.caches k ≡ some (some s)
      → s.hash ≡ apsw_hash_bytes utf8
      → apsw_hash_bytes utf8 ≢ sentinel_hash
      → same_query utf8 o s ≡ true
      → IsHit sc utf8 query o w
  prepare_internal-IsHit sc utf8 query k o s w v room short cached le at e real q =
      look_hits sc utf8 query o w _ (ground arith) refl
        (scan-ne-none utf8 o (apsw_hash_bytes utf8) (suc sc.highest_used) 0 sc.hashes sc.caches
          v.slots (omega (arith, v.hashes_length, v.highest_lt room)) real)
        (scan_hits utf8 o (apsw_hash_bytes utf8) (suc sc.highest_used) 0 k sc.hashes sc.caches s
          v.slots (omega arith) at e q)
