-- ===== src/StatementCache/Reuse.antt =====
-- A statement that was put back serves the next query of its text (src/statementcache.c).
use apsw.Prelude.{
  ℕ, ◌≤◌, ◌<◌, ◌≡◌, ◌≢◌, refl, ◌∙◌, ap, true, Option, none, some, List, arith, length, get_elem?,
  get_elem?-set_self, ◌==◌, Bool-cases, inl, inr,
}
use mathlib.Core.Path.{subst}
use apsw.World.{World, Call, sqlite_call}
use apsw.StatementCache.{
  StmtApi, StatementCache, Statement, sentinel_hash, max_item_size, apsw_hash_bytes, place, evict,
  free_statement, finalize, finalize_cached,
}
use apsw.StatementCache.Slots.{Inv}
use apsw.StatementCache.Totality.{Kept, Done, finalize-Done}
use apsw.StatementCache.Lookup.{IsHit, prepare_internal-IsHit, same_query_self}

-- What of a cache the slots show.
pub record SameSlots (sc sc' : StatementCache) : Type 0 where
  pub caches_same : sc'.caches ≡ sc.caches
  pub highest_same : sc'.highest_used ≡ sc.highest_used

module _ {S : Type 0} (api : StmtApi S) where
  evict-SameSlots :
      (e : Option Statement) (sc : StatementCache) (w : World S) → SameSlots sc (evict api e sc w).0
  unfolding evict free_statement
  evict-SameSlots none sc w = ground arith
  evict-SameSlots (some e) sc w = ground arith

  abbrev IsPlaced : StatementCache → Statement → Option (ℕ × StatementCache × World S) → Type 0
  IsPlaced sc s none = Unit
  IsPlaced sc s (some (res, sc', w)) = SameSlots (place sc s) sc'

  cached-IsPlaced :
      (sc : StatementCache) (s : Statement) (w : World S) (c : Option (Option Statement))
      → get_elem? sc.caches sc.next_eviction ≡ c
      → IsPlaced sc s (finalize_cached api sc s w)
  unfolding finalize_cached
  cached-IsPlaced sc s w none e = rw e tt
  cached-IsPlaced sc s w (some old) e = rw e (
      let w' : World S =
        (sqlite_call (Call.reset s.vdbestatement) (λ d. api.reset d s.vdbestatement) w).1 in
      let same = evict-SameSlots old (place sc s) w' in
      record { caches_same = same.caches_same; highest_same = same.highest_same })

  finalize-IsPlaced :
      (sc : StatementCache) (s : Statement) (w : World S)
      → s.hash ≢ sentinel_hash
      → IsPlaced sc s (finalize api sc (some s) w)
  unfolding finalize
  finalize-IsPlaced sc s w real = elim (Bool-cases (s.hash == sentinel_hash)) [
    | inl e ↦ absurd (real (ground arith))
    | inr e ↦ rw e (cached-IsPlaced sc s w _ refl)
  ]

  placed_at :
      (sc : StatementCache) (s : Statement)
      → Inv sc
      → 0 < sc.maxentries
      → (get_elem? (place sc s).caches sc.next_eviction ≡ some (some s))
        × (sc.next_eviction ≤ (place sc s).highest_used)
  unfolding place
  placed_at sc s v room = (
    get_elem?-set_self sc.caches sc.next_eviction (some s)
        (omega (arith, v.caches_length, v.next_lt room)),
    omega arith,
  )

  -- After a statement with its full text has been put back, the next query of that text and those
  -- options is answered from the cache and not prepared again, in a cache with an entry and its
  -- arrays in step, if the text is short enough and its hash is not the sentinel.
  pub finalize_reused :
      (sc : StatementCache) (s : Statement) (utf8 : List ℕ) (query : ℕ) (w w2 : World S) {res : ℕ}
      {sc' : StatementCache} {w' : World S}
      → Inv sc
      → 0 < sc.maxentries
      → length utf8 < max_item_size
      → s.options.can_cache ≡ true
      → s.utf8 ≡ some utf8
      → s.utf8_size ≡ length utf8
      → s.hash ≡ apsw_hash_bytes utf8
      → s.hash ≢ sentinel_hash
      → finalize api sc (some s) w ≡ some (res, sc', w')
      → IsHit api sc' utf8 query s.options w2
  finalize_reused sc s utf8 query w w2 {sc'} v room short cached text size hash real e =
      let kept : Kept sc sc' =
        subst (Done api sc) e (finalize-Done api sc (some s) w v (λ _. room)) in
      let same : SameSlots (place sc s) sc' =
        subst (IsPlaced sc s) e (finalize-IsPlaced sc s w real) in
      let at = placed_at sc s v room in
      prepare_internal-IsHit api sc' utf8 query sc.next_eviction s.options s w2 kept.inv
        (omega (arith, kept.max_same)) short cached (omega (arith, at.1, same.highest_same))
        (ap (λ cs. get_elem? cs sc.next_eviction) same.caches_same ∙ at.0) hash
        (λ bad. real (hash ∙ bad)) (same_query_self utf8 s text size)
