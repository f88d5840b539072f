-- ===== src/StatementCache/Prepare.antt =====
-- Looking a query up, preparing it, going on to the next query of a text, and the life of the
-- whole cache (src/statementcache.c).
use apsw.Prelude.{
  ℕ, zero, suc, ◌+◌, Bool, false, Option, none, some, List, [], ◌∷◌, ltb, leb, ◌==◌, if◌then◌else◌,
  ◌&&◌, ◌||◌, not, u32, ◌>>=◌, is_some, length, get_or, set, drop, replicate,
}
use apsw.Prelude.Int.{pos, ltb_ℤ}
use apsw.Errors.{ExcClass, sqlite_ok, sqlite_error, sqlite_nomem}
use apsw.World.{World, Call, sqlite_call, set_exc, err_format, occurred, raise}
use apsw.StatementCache.{
  StmtApi, Options, Statement, StatementCache, max_item_size, sentinel_hash, apsw_hash_bytes,
  free_statement, finalize, same_query,
}

-- The loop over the slots up to `highest_used`: `n` rounds from slot `i`, over the rest of the two
-- arrays. `some none` is a miss.
unfoldable pub scan :
    List ℕ
    → Options
    → ℕ
    → ℕ
    → ℕ
    → List ℕ
    → List (Option Statement)
    → Option (Option (ℕ × Statement))
scan utf8 options hash zero i hs cs = some none
scan utf8 options hash (suc n) i [] cs = none
scan utf8 options hash (suc n) i (h ∷ hs) [] = none
scan utf8 options hash (suc n) i (h ∷ hs) (c ∷ cs) =
    let rest = scan utf8 options hash n (suc i) hs cs in
    if h == hash
    then (elim c [
      | none ↦ none
      | some s ↦ if same_query utf8 options s then some (some (i, s)) else rest
    ])
    else rest

abbrev pub is_blank : ℕ → Bool
is_blank c = c == b' ' || (c == 9 || (c == b';' || (c == 13 || c == 10)))

-- How many blanks and semicolons the text begins with.
unfoldable pub skip_blanks : List ℕ → ℕ
skip_blanks [] = 0
skip_blanks (c ∷ cs) = if is_blank c then suc (skip_blanks cs) else 0

abbrev empty_options : Options
empty_options = record { can_cache = false; prepare_flags = pos 0; explain = pos 0 }

-- What `PyMem_Calloc` returns.
abbrev zeroed : Statement
zeroed = record {
  vdbestatement = none;
  query = none;
  utf8 = none;
  utf8_size = 0;
  query_size = 0;
  hash = 0;
  options = empty_options;
  uses = 0;
}

-- The guard of the lookup.
abbrev pub may_cache : StatementCache → List ℕ → Options → Bool
may_cache sc utf8 options =
    not (sc.maxentries == 0) && (ltb (length utf8) max_item_size && options.can_cache)

module _ {S : Type 0} (api : StmtApi S) where
  -- A result code, the statement that is handed out, the cache and the world.
  abbrev pub Out : Type 0
  Out = Option (ℕ × Option Statement × StatementCache × World S)

  -- `sqlite3_finalize` of a statement that is given up.
  unfoldable pub discard : Option ℕ → World S → World S
  discard vdbe w = (sqlite_call (Call.finalize vdbe) (λ d. api.finalize d vdbe) w).1

  -- A cache hit on slot `i`.
  unfoldable pub hit : StatementCache → ℕ → Statement → World S → Out
  hit sc i s w =
      let sc' = record sc {
        hashes = set sc.hashes i sentinel_hash;
        caches = set sc.caches i none;
      } in
      let (res, w') =
        sqlite_call (Call.clear_bindings s.vdbestatement)
          (λ d. api.clear_bindings d s.vdbestatement) w in
      if not (res == sqlite_ok)
      then (finalize api sc' (some s) (set_exc res w') >>= λ out. some (res, none, out.1, out.2))
      else some (
        sqlite_ok,
        some (record s { uses = u32 (s.uses + 1) }),
        record sc' { hits = u32 (sc.hits + 1) },
        w',
      )

  -- The struct for a new statement: from the recycle bin, or allocated.
  unfoldable pub allocate : StatementCache → World S → Option Statement × StatementCache × World S
  allocate sc w = elim sc.recycle_bin [
    | s ∷ rest ↦ (some s, record sc { recycle_bin = rest }, w)
    | [] ↦
        let (enough, d) = api.calloc w.db in
        ((if enough then some zeroed else none), sc, record w { db = d })
  ]

  abbrev count_miss : StatementCache → ℕ → Options → StatementCache
  count_miss sc size options =
      let sc' = record sc { misses = u32 (sc.misses + 1) } in
      if not options.can_cache
      then record sc' { no_cache = u32 (sc.no_cache + 1) }
      else if leb max_item_size size
      then record sc' { too_big = u32 (sc.too_big + 1) }
      else sc'

  -- Every field of the struct is set; `sqlite_text` is `sqlite3_sql`, asked for only when there is
  -- nothing behind the query.
  unfoldable pub fill :
      Statement → List ℕ → ℕ → Options → ℕ → Option ℕ → ℕ → Bool → Option (List ℕ) → Statement
  fill s utf8 query options hash vdbe tail own_text sqlite_text =
      let text = if own_text then sqlite_text else some utf8 in
      record s {
        vdbestatement = vdbe;
        query = if own_text then none else some query;
        utf8 = text;
        utf8_size = if is_some text then length utf8 else 0;
        query_size = if is_some text then tail else 0;
        hash = hash;
        options = options;
        uses = 1;
      }

  -- From the allocation to the end of `statementcache_prepare_internal`.
  unfoldable pub finish_miss :
      StatementCache → List ℕ → ℕ → Options → ℕ → Option ℕ → ℕ → ℕ → World S → Out
  finish_miss sc utf8 query options hash vdbe orig_tail tail w =
      let (slot, sc', w') = allocate sc w in
      elim slot [
        | none ↦ some (sqlite_nomem, none, sc', set_exc sqlite_nomem (discard vdbe w'))
        | some s ↦
            let sc'' = count_miss sc' (length utf8) options in
            let text : Option (List ℕ) = elim vdbe [ none ↦ none | some h ↦ api.sql w'.db h ] in
            let own = is_some vdbe && (tail == orig_tail && tail == length utf8) in
            some (
              sqlite_ok,
              some (fill s utf8 query options hash vdbe tail own text),
              (if is_some vdbe then sc'' else record sc'' { no_vdbe = u32 (sc''.no_vdbe + 1) }),
              w',
            )
      ]

  -- `sqlite3_stmt_explain`, if it is asked for.
  unfoldable pub explain_miss :
      StatementCache → List ℕ → ℕ → Options → ℕ → Option ℕ → ℕ → ℕ → World S → Out
  explain_miss sc utf8 query options hash vdbe orig_tail tail w =
      if ltb_ℤ options.explain (pos 0)
      then finish_miss sc utf8 query options hash vdbe orig_tail tail w
      else let (res, w') =
          sqlite_call (Call.explain vdbe) (λ d. api.stmt_explain d vdbe options.explain) w in
        if not (res == sqlite_ok)
        then some (res, none, sc, discard vdbe (set_exc res w'))
        else finish_miss sc utf8 query options hash vdbe orig_tail tail w'

  -- A cache miss.
  unfoldable pub miss : StatementCache → List ℕ → ℕ → Options → ℕ → World S → Out
  miss sc utf8 query options hash w =
      let p = api.prepare_v3 w.db utf8 options.prepare_flags in
      let w' = record w {
        db = p.next;
        exc = raise p.exn w.exc;
        trace = Call.prepare_made p.vdbe ∷ w.trace;
      } in
      if not (p.res == sqlite_ok) || occurred w'
      then some (
        (if p.res == sqlite_ok then sqlite_error else p.res),
        none,
        sc,
        discard p.vdbe (set_exc p.res w'),
      )
      else if get_or utf8 p.tail 0 == 0 && ltb p.tail (length utf8)
      then some (
        sqlite_error,
        none,
        sc,
        discard p.vdbe (err_format ExcClass.value_error "null character in query" w'),
      )
      else explain_miss sc utf8 query options (if is_some p.vdbe then hash else sentinel_hash)
          p.vdbe p.tail (p.tail + skip_blanks (drop p.tail utf8)) w'

  -- What follows the scan, by its outcome.
  unfoldable pub look :
      StatementCache → List ℕ → ℕ → Options → ℕ → Option (Option (ℕ × Statement)) → World S → Out
  look sc utf8 query options hash none w = none
  look sc utf8 query options hash (some none) w = miss sc utf8 query options hash w
  look sc utf8 query options hash (some (some (i, s))) w = hit sc i s w

  -- `statementcache_prepare_internal`.
  unfoldable pub prepare_internal : StatementCache → List ℕ → ℕ → Options → World S → Out
  prepare_internal sc utf8 query options w =
      if may_cache sc utf8 options
      then (let hash = apsw_hash_bytes utf8 in
          look sc utf8 query options hash
            (scan utf8 options hash (suc sc.highest_used) 0 sc.hashes sc.caches) w)
      else miss sc utf8 query options sentinel_hash w

  -- `statementcache_prepare`.
  unfoldable pub prepare :
      StatementCache → ℕ → Options → World S → Option (Option Statement × StatementCache × World S)
  prepare sc query options w = elim (api.as_utf8 w.db query) [
    | none ↦ some (none, sc, record w { exc = some api.as_utf8_error })
    | some utf8 ↦
        prepare_internal sc utf8 query options w >>= λ out. some (out.1, out.2, set_exc out.0 out.3)
  ]

  -- The statement after `old`, once the finalizing of `old` and of a failed successor is done.
  unfoldable pub swap_in : Option Statement → ℕ → Option (ℕ × StatementCache × World S) → Out
  swap_in new res done = done >>= λ (res2, sc, w).
      if not (res == sqlite_ok) || not (res2 == sqlite_ok)
      then (finalize api sc new w >>= λ last.
          some ((if res2 == sqlite_ok then res else res2), none, last.1, last.2))
      else some (sqlite_ok, new, sc, w)

  -- `statementcache_next` on a statement with more text, which has a text and a query.
  unfoldable pub next_text : StatementCache → Statement → List ℕ → ℕ → World S → Out
  next_text sc old utf8 query w =
      prepare_internal sc (drop old.query_size utf8) query old.options w >>= λ (res, new, sc', w').
      swap_in new res (finalize api sc' (some old) w')

  -- The text and the query are both there, or the source's assertion fails.
  unfoldable pub next_if : StatementCache → Statement → Option (List ℕ) → Option ℕ → World S → Out
  next_if sc old (some utf8) (some query) w = next_text sc old utf8 query w
  next_if sc old _ _ w = none

  -- `statementcache_next`: a result code, and the statement that the caller now has.
  unfoldable pub next : StatementCache → Statement → World S → Out
  next sc old w = next_if sc old old.utf8 old.query w

  -- The loop of `statementcache_free` over the slots.
  unfoldable pub free_from :
      ℕ → List (Option Statement) → StatementCache → World S → Option (StatementCache × World S)
  free_from zero cs sc w = some (sc, w)
  free_from (suc n) [] sc w = none
  free_from (suc n) (none ∷ cs) sc w = free_from n cs sc w
  free_from (suc n) (some s ∷ cs) sc w =
      let (_, sc', w') = free_statement api sc s w in free_from n cs sc' w'

  -- The arrays may be null, as the empty list.
  unfoldable pub free_all :
      ℕ → List (Option Statement) → StatementCache → World S → Option (World S)
  free_all highest_used [] sc w = some w
  free_all highest_used (c ∷ cs) sc w =
      free_from (suc highest_used) (c ∷ cs) sc w >>= λ (sc', w'). some w'

  -- `statementcache_free`, as the world after it.
  unfoldable pub free : StatementCache → World S → Option (World S)
  free sc w = free_all sc.highest_used sc.caches sc w

-- `statementcache_init`, where its allocations succeed: `calloc` gives zeros, and the loop
-- reaches slot 0 only, because `highest_used` is still 0.
unfoldable pub init : ℕ → StatementCache
init size = record {
  hashes = set (replicate size 0) 0 sentinel_hash;
  caches = replicate size none;
  recycle_bin = [];
  highest_used = 0;
  maxentries = size;
  next_eviction = 0;
  evictions = 0;
  no_cache = 0;
  hits = 0;
  misses = 0;
  no_vdbe = 0;
  too_big = 0;
}
