-- ===== src/StatementCache/Totality.antt =====
-- No operation of the cache leaves its arrays or follows a null pointer, each keeps the arrays in
-- step, and a result code is reported exactly with its statement (src/statementcache.c).
use apsw.Prelude.{
  ℕ, zero, suc, ◌+◌, ◌≤◌, ◌<◌, ◌≡◌, ◌≢◌, inl, inr, refl, Option, none, some, List, [], ◌∷◌, arith,
  length, set, drop, get_elem?-lt, length-set, Bool-cases, ◌==◌, ◌>>=◌, ◌∙◌,
}
use apsw.World.{World, Call, sqlite_call, set_exc, raise}
use apsw.StatementCache.{
  StmtApi, StatementCache, Statement, Options, sentinel_hash, place, free_statement, evict,
  finalize, finalize_cached, finalize_uncached, apsw_hash_bytes,
}
use apsw.StatementCache.Prepare.{
  look, may_cache, scan, next, next_text, next_if, swap_in, free_from, hit, allocate, skip_blanks,
  finish_miss, explain_miss, miss, prepare_internal, Out, fill,
}
use apsw.StatementCache.Slots.{Inv, place-Inv, scan-ne-none, scan-Found, set_within-Slots}

-- A statement that may be put into the cache: a cache of no entries makes none.
abbrev pub Fits : StatementCache → Statement → Type 0
Fits sc s = s.hash ≢ sentinel_hash → 0 < sc.maxentries

pub record Kept (sc sc' : StatementCache) : Type 0 where
  pub inv : Inv sc'
  pub max_same : sc'.maxentries ≡ sc.maxentries

abbrev pub Reported : ℕ → Option Statement → Type 0
Reported res none = res ≢ 0
Reported res (some s) = res ≡ 0

abbrev pub FitsOut : StatementCache → Option Statement → Type 0
FitsOut sc none = Unit
FitsOut sc (some s) = Fits sc s

module _ {S : Type 0} (api : StmtApi S) where
  free_statement-Kept :
      (sc : StatementCache) (s : Statement) (w : World S)
      → Inv sc
      → Kept sc (free_statement api sc s w).1
  unfolding free_statement
  free_statement-Kept sc s w v = ground arith

  evict-Kept :
      (e : Option Statement) (sc : StatementCache) (w : World S)
      → Inv sc
      → Kept sc (evict api e sc w).0
  unfolding evict
  evict-Kept none sc w v = ground arith
  evict-Kept (some e) sc w v = ground (arith, free_statement-Kept sc e w v)

  place-max : (sc : StatementCache) (s : Statement) → (place sc s).maxentries ≡ sc.maxentries
  unfolding place
  place-max sc s = refl

  -- The result of an operation that only changes the cache.
  abbrev pub Done : StatementCache → Option (ℕ × StatementCache × World S) → Type 0
  Done sc none = ⊥
  Done sc (some (res, sc', w)) = Kept sc sc'

  finalize_cached-Done :
      (sc : StatementCache) (s : Statement) (w : World S)
      → Inv sc
      → 0 < sc.maxentries
      → s.hash ≢ sentinel_hash
      → Done sc (finalize_cached api sc s w)
  unfolding finalize_cached
  finalize_cached-Done sc s w v room real =
      let w' : World S =
        (sqlite_call (Call.reset s.vdbestatement) (λ d. api.reset d s.vdbestatement) w).1 in
      let (e, at) =
        get_elem?-lt sc.caches sc.next_eviction (omega (arith, v.caches_length, v.next_lt room)) in
      let kept = evict-Kept e (place sc s) w' (place-Inv sc s v room real) in
      rw at (record { inv = kept.inv; max_same = kept.max_same ∙ place-max sc s })

  -- Giving a statement back never leaves the arrays and keeps them in step, in a cache whose arrays
  -- are in step, for a statement that the cache has handed out.
  pub finalize-Done :
      (sc : StatementCache) (s : Option Statement) (w : World S)
      → Inv sc
      → FitsOut sc s
      → Done sc (finalize api sc s w)
  unfolding finalize finalize_uncached
  finalize-Done sc none w v fits = record { inv = v; max_same = refl }
  finalize-Done sc (some s) w v fits = elim (Bool-cases (s.hash == sentinel_hash)) [
    | inl e ↦ rw e (free_statement-Kept sc s w v)
    | inr e ↦ rw e (finalize_cached-Done sc s w v (fits (ground arith)) (ground arith))
  ]

  -- The result of an operation that hands out a statement.
  abbrev pub HandsOut : StatementCache → Out api → Type 0
  HandsOut sc none = ⊥
  HandsOut sc (some (res, s, sc', w)) = Kept sc sc' × Reported res s × FitsOut sc s

  -- A failed lookup of a cached statement: it goes back, and nothing is handed out.
  hit-HandsOut :
      (sc : StatementCache) (i : ℕ) (s : Statement) (w : World S)
      → Inv sc
      → i ≤ sc.highest_used
      → 0 < sc.maxentries
      → HandsOut sc (hit api sc i s w)
  unfolding hit
  hit-HandsOut sc i s w v le room =
      let sc' : StatementCache = record sc {
        hashes = set sc.hashes i sentinel_hash;
        caches = set sc.caches i none;
      } in
      let v' : Inv sc' = record {
        hashes_length = omega (arith, length-set sc.hashes i sentinel_hash, v.hashes_length);
        caches_length =
            omega (arith, length-set {A = Option Statement} sc.caches i none, v.caches_length);
        slots =
            set_within-Slots (suc sc.highest_used) i sc.hashes sc.caches sentinel_hash none v.slots
              (omega arith) refl;
        next_used = v.next_used;
        next_lt = v.next_lt;
        highest_lt = v.highest_lt;
        bin_small = v.bin_small;
      } in
      ground (
        arith,
        finalize-Done sc' (some s)
            (set_exc
              (sqlite_call (Call.clear_bindings s.vdbestatement)
                (λ d. api.clear_bindings d s.vdbestatement) w).0
              (sqlite_call (Call.clear_bindings s.vdbestatement)
                (λ d. api.clear_bindings d s.vdbestatement) w).1)
            v' (λ _. room),
      )

  finish_miss-HandsOut :
      (sc : StatementCache) (utf8 : List ℕ) (query : ℕ) (o : Options) (hash : ℕ) (vdbe : Option ℕ)
      (orig_tail tail : ℕ) (w : World S)
      → Inv sc
      → (hash ≢ sentinel_hash → 0 < sc.maxentries)
      → HandsOut sc (finish_miss api sc utf8 query o hash vdbe orig_tail tail w)
  unfolding finish_miss allocate fill
  finish_miss-HandsOut sc utf8 query o hash vdbe orig_tail tail w v room = ground arith

  explain_miss-HandsOut :
      (sc : StatementCache) (utf8 : List ℕ) (query : ℕ) (o : Options) (hash : ℕ) (vdbe : Option ℕ)
      (orig_tail tail : ℕ) (w : World S)
      → Inv sc
      → (hash ≢ sentinel_hash → 0 < sc.maxentries)
      → HandsOut sc (explain_miss api sc utf8 query o hash vdbe orig_tail tail w)
  unfolding explain_miss
  explain_miss-HandsOut sc utf8 query o hash vdbe orig_tail tail w v room = ground (
    arith,
    finish_miss-HandsOut sc utf8 query o hash vdbe orig_tail tail w v room,
    finish_miss-HandsOut sc utf8 query o hash vdbe orig_tail tail
        (sqlite_call (Call.explain vdbe) (λ d. api.stmt_explain d vdbe o.explain) w).1 v room,
  )

  miss-HandsOut :
      (sc : StatementCache) (utf8 : List ℕ) (query : ℕ) (o : Options) (hash : ℕ) (w : World S)
      → Inv sc
      → (hash ≢ sentinel_hash → 0 < sc.maxentries)
      → HandsOut sc (miss api sc utf8 query o hash w)
  unfolding miss
  miss-HandsOut sc utf8 query o hash w v room =
      let p = api.prepare_v3 w.db utf8 o.prepare_flags in
      let w' : World S = record w {
        db = p.next;
        exc = raise p.exn w.exc;
        trace = Call.prepare_made p.vdbe ∷ w.trace;
      } in
      ground (
        arith,
        explain_miss-HandsOut sc utf8 query o hash p.vdbe p.tail
            (p.tail + skip_blanks (drop p.tail utf8)) w' v room,
        explain_miss-HandsOut sc utf8 query o sentinel_hash p.vdbe p.tail
            (p.tail + skip_blanks (drop p.tail utf8)) w' v (λ h. absurd (h refl)),
      )

  look-HandsOut :
      (sc : StatementCache) (utf8 : List ℕ) (query : ℕ) (o : Options) (hash : ℕ) (w : World S)
      (r : Option (Option (ℕ × Statement)))
      → Inv sc
      → 0 < sc.maxentries
      → hash ≢ sentinel_hash
      → scan utf8 o hash (suc sc.highest_used) 0 sc.hashes sc.caches ≡ r
      → HandsOut sc (look api sc utf8 query o hash r w)
  unfolding look
  look-HandsOut sc utf8 query o hash w none v room real e = absurd (
      scan-ne-none utf8 o hash (suc sc.highest_used) 0 sc.hashes sc.caches v.slots
        (omega (arith, v.hashes_length, v.highest_lt room)) real e)
  look-HandsOut sc utf8 query o hash w (some none) v room real e =
      miss-HandsOut sc utf8 query o hash w v (λ _. room)
  look-HandsOut sc utf8 query o hash w (some (some (i, s))) v room real e =
      let found = scan-Found utf8 o hash (suc sc.highest_used) 0 sc.hashes sc.caches i s e in
      hit-HandsOut sc i s w v (omega (arith, found.1, found.2)) room

  -- Preparing a query never leaves the arrays, follows a null pointer or breaks the cache, in
  -- a cache whose arrays are in step, if the hash of the text is not the sentinel. It returns a
  -- statement exactly when it returns SQLITE_OK, and that statement may be cached later.
  pub prepare_internal-HandsOut :
      (sc : StatementCache) (utf8 : List ℕ) (query : ℕ) (o : Options) (w : World S)
      → Inv sc
      → apsw_hash_bytes utf8 ≢ sentinel_hash
      → HandsOut sc (prepare_internal api sc utf8 query o w)
  unfolding prepare_internal
  prepare_internal-HandsOut sc utf8 query o w v real = elim (Bool-cases (may_cache sc utf8 o)) [
    | inr e ↦ rw e (miss-HandsOut sc utf8 query o sentinel_hash w v (λ h. absurd (h refl)))
    | inl e ↦
        rw e (look-HandsOut sc utf8 query o (apsw_hash_bytes utf8) w _ v (ground arith) real refl)
  ]

  swap_in-HandsOut :
      (sc sc' : StatementCache) (new : Option Statement) (res : ℕ)
      (done : Option (ℕ × StatementCache × World S))
      → Kept sc sc'
      → Reported res new
      → FitsOut sc new
      → Done sc' done
      → HandsOut sc (swap_in api new res done)
  unfolding swap_in
  swap_in-HandsOut sc sc' new res none kept rep f h = absurd h
  swap_in-HandsOut sc sc' none res (some (res2, sc'', w)) kept rep f h =
      ground (arith, finalize-Done sc'' none w h.inv tt)
  swap_in-HandsOut sc sc' (some s) res (some (res2, sc'', w)) kept rep f h = ground (
    arith,
    finalize-Done sc'' (some s) w h.inv (λ c. omega (arith, h.max_same, kept.max_same, f c)),
  )

  next_text-HandsOut :
      (sc : StatementCache) (old : Statement) (utf8 : List ℕ) (query : ℕ) (w : World S)
      → Inv sc
      → Fits sc old
      → apsw_hash_bytes (drop old.query_size utf8) ≢ sentinel_hash
      → HandsOut sc (next_text api sc old utf8 query w)
  unfolding next_text
  next_text-HandsOut sc old utf8 query w v fits real =
      after (prepare_internal api sc (drop old.query_size utf8) query old.options w)
        (prepare_internal-HandsOut sc (drop old.query_size utf8) query old.options w v real)
    where
      after :
          (out : Out api)
          → HandsOut sc out
          → HandsOut sc
              (out >>= λ (res, new, sc', w'). swap_in api new res (finalize api sc' (some old) w'))
      after none h = absurd h
      after (some (res, new, sc', w')) h =
          swap_in-HandsOut sc sc' new res (finalize api sc' (some old) w') h.0 h.1 h.2
            (finalize-Done sc' (some old) w' h.0.inv (λ c. omega (arith, h.0.max_same, fits c)))

  next_if-HandsOut :
      (sc : StatementCache) (old : Statement) (t : Option (List ℕ)) (q : Option ℕ) (utf8 : List ℕ)
      (query : ℕ) (w : World S)
      → Inv sc
      → Fits sc old
      → t ≡ some utf8
      → q ≡ some query
      → apsw_hash_bytes (drop old.query_size utf8) ≢ sentinel_hash
      → HandsOut sc (next_if api sc old t q w)
  unfolding next_if
  next_if-HandsOut sc old none q utf8 query w v fits e f real = absurd (ground arith)
  next_if-HandsOut sc old (some t) none utf8 query w v fits e f real = absurd (ground arith)
  next_if-HandsOut sc old (some t) (some q) utf8 query w v fits e f real =
      let same : t ≡ utf8 = ground arith in
      let same' : q ≡ query = ground arith in
      rw (same, same') (next_text-HandsOut sc old utf8 query w v fits real)

  -- Going on to the next query of a text stays inside the arrays and keeps them in step, gives up
  -- the old statement, and returns a statement exactly when it returns SQLITE_OK, if the old one
  -- has a text and a query and the hash of the rest of the text is not the sentinel.
  pub next-HandsOut :
      (sc : StatementCache) (old : Statement) (utf8 : List ℕ) (query : ℕ) (w : World S)
      → Inv sc
      → Fits sc old
      → old.utf8 ≡ some utf8
      → old.query ≡ some query
      → apsw_hash_bytes (drop old.query_size utf8) ≢ sentinel_hash
      → HandsOut sc (next api sc old w)
  unfolding next
  next-HandsOut sc old utf8 query w v fits has_text has_query real =
      next_if-HandsOut sc old old.utf8 old.query utf8 query w v fits has_text has_query real

  free_from-ne-none :
      (n : ℕ) (cs : List (Option Statement)) (sc : StatementCache) (w : World S)
      → n ≤ length cs
      → free_from api n cs sc w ≢ none
  unfolding free_from
  free_from-ne-none zero cs sc w le = ground arith
  free_from-ne-none (suc n) [] sc w le = absurd (omega arith)
  free_from-ne-none (suc n) (none ∷ cs) sc w le = free_from-ne-none n cs sc w (omega arith)
  free_from-ne-none (suc n) (some s ∷ cs) sc w le =
      free_from-ne-none n cs (free_statement api sc s w).1 (free_statement api sc s w).2
        (omega arith)
