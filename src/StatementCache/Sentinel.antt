-- ===== src/StatementCache/Sentinel.antt =====
-- A text whose hash is the sentinel (src/statementcache.c): the scan takes an empty slot for a
-- match.
use apsw.Prelude.{
  ℕ, zero, suc, ◌≤◌, ◌<◌, ◌≡◌, refl, true, Option, none, some, List, [], ◌∷◌, arith, length,
  get_elem?,
}
use apsw.World.{World}
use apsw.StatementCache.{
  StmtApi, StatementCache, Statement, Options, sentinel_hash, max_item_size, apsw_hash_bytes,
}
use apsw.StatementCache.Prepare.{scan, look, prepare_internal}
use apsw.StatementCache.Slots.{Slots, Inv}

scan-sentinel :
    (utf8 : List ℕ) (o : Options) (n i k : ℕ) (hs : List ℕ) (cs : List (Option Statement))
    → Slots n hs cs
    → k < n
    → get_elem? cs k ≡ some none
    → scan utf8 o sentinel_hash n i hs cs ≡ none
unfolding scan
scan-sentinel utf8 o zero i k hs cs v lt e = absurd (omega arith)
scan-sentinel utf8 o (suc n) i k [] cs v lt e = refl
scan-sentinel utf8 o (suc n) i k (h ∷ hs) [] v lt e = absurd v
scan-sentinel utf8 o (suc n) i k (h ∷ hs) (none ∷ cs) v lt e = ground arith
scan-sentinel utf8 o (suc n) i zero (h ∷ hs) (some s ∷ cs) v lt e = absurd (ground arith)
scan-sentinel utf8 o (suc n) i (suc k) (h ∷ hs) (some s ∷ cs) v lt e =
    ground (arith, scan-sentinel utf8 o n (suc i) k hs cs v.1 (omega arith) e)

module _ {S : Type 0} (api : StmtApi S) where
  -- A query that may be cached, whose hash is -1, makes the code follow a null pointer whenever
  -- one of the slots in use so far is empty, in a cache with an entry and its arrays in step.
  pub prepare_internal_sentinel :
      (sc : StatementCache) (utf8 : List ℕ) (query k : ℕ) (o : Options) (w : World S)
      → Inv sc
      → 0 < sc.maxentries
      → k ≤ sc.highest_used
      → get_elem? sc.caches k ≡ some none
      → length utf8 < max_item_size
      → o.can_cache ≡ true
      → apsw_hash_bytes utf8 ≡ sentinel_hash
      → prepare_internal api sc utf8 query o w ≡ none
  unfolding prepare_internal look
  prepare_internal_sentinel sc utf8 query k o w v room le empty short cached bad = ground (
    arith,
    scan-sentinel utf8 o (suc sc.highest_used) 0 k sc.hashes sc.caches v.slots (omega arith) empty,
  )
