-- ===== src/StatementCache/Balance.antt =====
-- Every statement handle that SQLite made is finalized once, is in the cache, or is with a caller
-- (src/statementcache.c).
use apsw.Prelude.{
  ℕ, zero, suc, ◌+◌, ◌≡◌, refl, Option, none, some, List, [], ◌∷◌, arith, get_elem?, set, ◌==◌,
  if◌then◌else◌, drop, Option-cases, inl, inr, Bool-cases,
}
use mathlib.Core.Path.{subst}
use apsw.Errors.{ExcClass}
use apsw.World.{World, Call, sqlite_call, set_exc, set_exc-trace, raise, err_format}
use apsw.StatementCache.{
  StmtApi, StatementCache, Statement, Options, sentinel_hash, apsw_hash_bytes, place,
  free_statement, evict, finalize, finalize_cached, finalize_uncached,
}
use apsw.StatementCache.Prepare.{
  scan, look, may_cache, hit, discard, allocate, fill, finish_miss, explain_miss, miss,
  prepare_internal, Out, skip_blanks,
}
use apsw.StatementCache.Slots.{Slots, scan-Found}

abbrev pub is_handle : ℕ → Option ℕ → ℕ
is_handle h none = 0
is_handle h (some g) = if g == h then 1 else 0

-- How often a handle was made, finalized, stands in the slots, is a statement's.
abbrev pub opened : ℕ → List Call → ℕ
opened h [] = 0
opened h (Call.prepare_made v ∷ cs) = is_handle h v + opened h cs
opened h (c ∷ cs) = opened h cs

abbrev pub closed : ℕ → List Call → ℕ
closed h [] = 0
closed h (Call.finalize v ∷ cs) = is_handle h v + closed h cs
closed h (c ∷ cs) = closed h cs

abbrev pub owned : ℕ → Option Statement → ℕ
owned h none = 0
owned h (some s) = is_handle h s.vdbestatement

abbrev pub held : ℕ → List (Option Statement) → ℕ
held h [] = 0
held h (c ∷ cs) = owned h c + held h cs

held-set :
    (h : ℕ) (cs : List (Option Statement)) (i : ℕ) (old new : Option Statement)
    → get_elem? cs i ≡ some old
    → held h (set cs i new) + owned h old ≡ held h cs + owned h new
held-set h [] i old new e = absurd (ground arith)
held-set h (c ∷ cs) zero old new e = ground arith
held-set h (c ∷ cs) (suc i) old new e = omega (arith, held-set h cs i old new e)

pub held-unused :
    (h : ℕ) (hs : List ℕ) (cs : List (Option Statement)) → Slots zero hs cs → held h cs ≡ 0
held-unused h [] [] v = refl
held-unused h [] (c ∷ cs) v = absurd v
held-unused h (x ∷ hs) [] v = refl
held-unused h (x ∷ hs) (c ∷ cs) v = ground (arith, held-unused h hs cs v.1)

module _ {S : Type 0} (api : StmtApi S) (h k : ℕ) where
  -- `k` counts the handle among the statements that callers have.
  abbrev pub Balanced : StatementCache → World S → ℕ → Type 0
  Balanced sc w n = opened h w.trace ≡ closed h w.trace + (held h sc.caches + n)

  abbrev pub AfterDone : Option (ℕ × StatementCache × World S) → Type 0
  AfterDone none = Unit
  AfterDone (some (res, sc, w)) = Balanced sc w k

  abbrev pub AfterOut : Out api → Type 0
  AfterOut none = Unit
  AfterOut (some (res, s, sc, w)) = Balanced sc w (k + owned h s)

  pub free_statement-Balanced :
      (sc : StatementCache) (s : Statement) (w : World S) (n : ℕ)
      → Balanced sc w (n + owned h (some s))
      → Balanced (free_statement api sc s w).1 (free_statement api sc s w).2 n
  unfolding free_statement sqlite_call
  free_statement-Balanced sc s w n b = ground arith

  evict-Balanced :
      (e : Option Statement) (sc : StatementCache) (w : World S)
      → Balanced sc w (k + owned h e)
      → Balanced (evict api e sc w).0 (evict api e sc w).1 k
  unfolding evict
  evict-Balanced none sc w b = omega arith
  evict-Balanced (some e) sc w b = free_statement-Balanced sc e w k b

  finalize_cached-Balanced :
      (sc : StatementCache) (s : Statement) (w : World S)
      → Balanced sc w (k + owned h (some s))
      → AfterDone (finalize_cached api sc s w)
  unfolding finalize_cached
  finalize_cached-Balanced sc s w b = elim (Option-cases (get_elem? sc.caches sc.next_eviction)) [
    | inl e ↦ rw e tt
    | inr (e, at) ↦
        let w' : World S =
          (sqlite_call (Call.reset s.vdbestatement) (λ d. api.reset d s.vdbestatement) w).1 in
        rw at (
          evict-Balanced e (place sc s) w' (
            unfold place sqlite_call in
            omega (arith, held-set h sc.caches sc.next_eviction e (some s) at)))
  ]

  pub finalize-Balanced :
      (sc : StatementCache) (s : Option Statement) (w : World S)
      → Balanced sc w (k + owned h s)
      → AfterDone (finalize api sc s w)
  unfolding finalize finalize_uncached
  finalize-Balanced sc none w b = omega arith
  finalize-Balanced sc (some s) w b = elim (Bool-cases (s.hash == sentinel_hash)) [
    | inl e ↦ rw e (free_statement-Balanced sc s w k b)
    | inr e ↦ rw e (finalize_cached-Balanced sc s w b)
  ]

  discard-Balanced :
      (v : Option ℕ) (sc : StatementCache) (w : World S)
      → Balanced sc w (k + is_handle h v)
      → Balanced sc (discard api v w) k
  unfolding discard sqlite_call
  discard-Balanced v sc w b = omega arith

  hit-Balanced :
      (sc : StatementCache) (i : ℕ) (s : Statement) (w : World S)
      → get_elem? sc.caches i ≡ some (some s)
      → Balanced sc w k
      → AfterOut (hit api sc i s w)
  unfolding hit sqlite_call
  hit-Balanced sc i s w at b =
      let sc' : StatementCache = record sc {
        hashes = set sc.hashes i sentinel_hash;
        caches = set sc.caches i none;
      } in
      let r = api.clear_bindings w.db s.vdbestatement in
      let w' : World S = record w {
        db = r.2;
        exc = raise r.1 w.exc;
        trace = Call.clear_bindings s.vdbestatement ∷ w.trace;
      } in
      ground (
        arith,
        held-set h sc.caches i (some s) none at,
        set_exc-trace r.0 w',
        finalize-Balanced sc' (some s) (set_exc r.0 w'),
      )

  finish_miss-Balanced :
      (sc : StatementCache) (utf8 : List ℕ) (query : ℕ) (o : Options) (hash : ℕ) (vdbe : Option ℕ)
      (orig_tail tail : ℕ) (w : World S)
      → Balanced sc w (k + is_handle h vdbe)
      → AfterOut (finish_miss api sc utf8 query o hash vdbe orig_tail tail w)
  unfolding finish_miss allocate fill
  finish_miss-Balanced sc utf8 query o hash vdbe orig_tail tail w b =
      let w' : World S = record w { db = (api.calloc w.db).1 } in
      ground (arith, set_exc-trace 7 (discard api vdbe w'), discard-Balanced vdbe sc w')

  explain_miss-Balanced :
      (sc : StatementCache) (utf8 : List ℕ) (query : ℕ) (o : Options) (hash : ℕ) (vdbe : Option ℕ)
      (orig_tail tail : ℕ) (w : World S)
      → Balanced sc w (k + is_handle h vdbe)
      → AfterOut (explain_miss api sc utf8 query o hash vdbe orig_tail tail w)
  unfolding explain_miss sqlite_call
  explain_miss-Balanced sc utf8 query o hash vdbe orig_tail tail w b =
      let r = api.stmt_explain w.db vdbe o.explain in
      let w' : World S = record w {
        db = r.2;
        exc = raise r.1 w.exc;
        trace = Call.explain vdbe ∷ w.trace;
      } in
      ground (
        arith,
        finish_miss-Balanced sc utf8 query o hash vdbe orig_tail tail w,
        finish_miss-Balanced sc utf8 query o hash vdbe orig_tail tail w',
        set_exc-trace r.0 w',
        discard-Balanced vdbe sc (set_exc r.0 w'),
      )

  miss-Balanced :
      (sc : StatementCache) (utf8 : List ℕ) (query : ℕ) (o : Options) (hash : ℕ) (w : World S)
      → Balanced sc w k
      → AfterOut (miss api sc utf8 query o hash w)
  unfolding miss
  miss-Balanced sc utf8 query o hash w b =
      let p = api.prepare_v3 w.db utf8 o.prepare_flags in
      let w' : World S = record w {
        db = p.next;
        exc = raise p.exn w.exc;
        trace = Call.prepare_made p.vdbe ∷ w.trace;
      } in
      ground (
        arith,
        set_exc-trace p.res w',
        discard-Balanced p.vdbe sc (set_exc p.res w'),
        discard-Balanced p.vdbe sc (err_format ExcClass.value_error "null character in query" w'),
        explain_miss-Balanced sc utf8 query o hash p.vdbe p.tail
            (p.tail + skip_blanks (drop p.tail utf8)) w',
        explain_miss-Balanced sc utf8 query o sentinel_hash p.vdbe p.tail
            (p.tail + skip_blanks (drop p.tail utf8)) w',
      )

  found-Balanced :
      (sc : StatementCache) (utf8 : List ℕ) (query : ℕ) (o : Options) (hash : ℕ) (w : World S)
      (r : Option (Option (ℕ × Statement)))
      → scan utf8 o hash (suc sc.highest_used) 0 sc.hashes sc.caches ≡ r
      → Balanced sc w k
      → AfterOut (look api sc utf8 query o hash r w)
  unfolding look
  found-Balanced sc utf8 query o hash w none e b = tt
  found-Balanced sc utf8 query o hash w (some none) e b = miss-Balanced sc utf8 query o hash w b
  found-Balanced sc utf8 query o hash w (some (some (i, s))) e b =
      let found = scan-Found utf8 o hash (suc sc.highest_used) 0 sc.hashes sc.caches i s e in
      let same : i ≡ found.0 = omega (arith, found.1) in hit-Balanced sc i s w (rw same found.4) b

  pub prepare_internal-Balanced :
      (sc : StatementCache) (utf8 : List ℕ) (query : ℕ) (o : Options) (w : World S)
      → Balanced sc w k
      → AfterOut (prepare_internal api sc utf8 query o w)
  unfolding prepare_internal
  prepare_internal-Balanced sc utf8 query o w b = elim (Bool-cases (may_cache sc utf8 o)) [
    | inr e ↦ rw e (miss-Balanced sc utf8 query o sentinel_hash w b)
    | inl e ↦ rw e (found-Balanced sc utf8 query o (apsw_hash_bytes utf8) w _ refl b)
  ]

  -- A statement that the cache takes back is finalized, or stands in a slot, and the one that it
  -- pushes out is finalized: of each handle, as many were made as were finalized, are in the slots
  -- and are with other callers.
  pub finalize_balance :
      (sc : StatementCache) (s : Option Statement) (w : World S) {res : ℕ} {sc' : StatementCache}
      {w' : World S}
      → opened h w.trace ≡ closed h w.trace + (held h sc.caches + (k + owned h s))
      → finalize api sc s w ≡ some (res, sc', w')
      → opened h w'.trace ≡ closed h w'.trace + (held h sc'.caches + k)
  finalize_balance sc s w b e = subst AfterDone e (finalize-Balanced sc s w b)

  -- However preparing a query ends, each handle that was made is finalized, in a slot, with the
  -- caller in the statement that it gets, or with other callers.
  pub prepare_internal_balance :
      (sc : StatementCache) (utf8 : List ℕ) (query : ℕ) (o : Options) (w : World S) {res : ℕ}
      {s : Option Statement} {sc' : StatementCache} {w' : World S}
      → opened h w.trace ≡ closed h w.trace + (held h sc.caches + k)
      → prepare_internal api sc utf8 query o w ≡ some (res, s, sc', w')
      → opened h w'.trace ≡ closed h w'.trace + (held h sc'.caches + (k + owned h s))
  prepare_internal_balance sc utf8 query o w b e =
      subst AfterOut e (prepare_internal-Balanced sc utf8 query o w b)
