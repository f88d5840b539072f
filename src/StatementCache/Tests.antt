-- ===== src/StatementCache/Tests.antt =====
-- The statement cache at concrete inputs (src/statementcache.c).
use apsw.Prelude.{
  ℕ, suc, ◌+◌, ◌<◌, ◌≡◌, ◌≢◌, refl, Bool, true, false, Option, none, some, List, [], ◌∷◌, ◌++◌,
  arith, get_elem?, ◌==◌,
}
use apsw.Prelude.Int.{pos, negsuc}
use apsw.Errors.{Exn, raised, ExcClass}
use apsw.World.{World, Call, sqlite_call}
use apsw.StatementCache.{
  StmtApi, StatementCache, Statement, Options, sentinel_hash, apsw_hash_bytes, hash_step, hash_from,
  same_query, options_eq, place, evict, finalize, finalize_cached,
}
use apsw.StatementCache.Prepare.{
  scan, look, hit, allocate, fill, finish_miss, explain_miss, miss, prepare_internal, swap_in,
  next_text, next_if, next, init, skip_blanks,
}
use apsw.StatementCache.Slots.{Inv, init-Inv, place-Inv}
use apsw.StatementCache.Totality.{HandsOut, prepare_internal-HandsOut}
use apsw.StatementCache.Ring.{ring, ring-place}
use apsw.StatementCache.Sentinel.{prepare_internal_sentinel}
use apsw.StatementCache.Balance.{opened, closed, held, finalize_balance, prepare_internal_balance}
use apsw.StatementCache.Lookup.{IsHit, prepare_internal-IsHit}
use apsw.StatementCache.Reuse.{finalize_reused}

-- A SQLite that numbers its statements, ends a query at the first semicolon or the end, and knows
-- the last text.
abbrev query_end : List ℕ → ℕ
query_end [] = 0
query_end (c ∷ cs) = elim (suc_if c) [ true ↦ 1 | false ↦ suc (query_end cs) ]
  where
    suc_if : ℕ → Bool
    suc_if c = c == b';'

abbrev Db : Type 0
Db = ℕ × List ℕ

abbrev fine : Db → Option ℕ → ℕ × Option Exn × Db
fine d v = (0, none, d)

abbrev demo : StmtApi Db
demo = record {
  prepare_v3 = λ d utf8 flags. record {
    res = 0;
    vdbe = some d.0;
    tail = query_end utf8;
    exn = none;
    next = (suc d.0, utf8);
  };
  reset = fine;
  finalize = fine;
  clear_bindings = fine;
  stmt_explain = λ d v n. (0, none, d);
  sql = λ d h. some d.1;
  calloc = λ d. (true, d);
  as_utf8 = λ d q. some d.1;
  as_utf8_error = raised ExcClass.value_error "surrogates not allowed";
}

abbrev start : World Db
start = record {
  db = (1, []);
  exc = none;
  trace = [];
  conns = λ i. record { open_db = true; inuse = false; dependents = [] };
  unraised = [];
}

abbrev plain : Options
plain = record { can_cache = true; prepare_flags = pos 0; explain = negsuc 0 }

-- "a;" and "b".
abbrev text_a : List ℕ
text_a = b'a' ∷ b';' ∷ []

abbrev text_ab : List ℕ
text_ab = b'a' ∷ b';' ∷ b'b' ∷ []

abbrev statement_a : Statement
statement_a = record {
  vdbestatement = some 1;
  query = none;
  utf8 = some text_a;
  utf8_size = 2;
  query_size = 2;
  hash = 850;
  options = plain;
  uses = 1;
}

-- The first of the two queries of "a;b".
abbrev statement_ab : Statement
statement_ab = record {
  vdbestatement = some 1;
  query = some 9;
  utf8 = some text_ab;
  utf8_size = 3;
  query_size = 2;
  hash = 6560;
  options = plain;
  uses = 1;
}

abbrev opened_one : World Db
opened_one = record start { db = (2, text_a); trace = Call.prepare_made (some 1) ∷ [] }

hash_a : apsw_hash_bytes text_a ≡ 850
unfolding apsw_hash_bytes hash_from hash_step
hash_a = refl

hash_ab : apsw_hash_bytes text_ab ≡ 6560
unfolding apsw_hash_bytes hash_from hash_step
hash_ab = refl

hash_b : apsw_hash_bytes (b'b' ∷ []) ≢ sentinel_hash
unfolding apsw_hash_bytes hash_from hash_step
hash_b e = absurd (omega arith)

hash_a-ne : apsw_hash_bytes text_a ≢ sentinel_hash
hash_a-ne e = absurd (omega (arith, hash_a))

-- "select 1 --@A@FGADEDA@BCADA@A@G@@@@@@", a comment at its end, hashes to -1.
abbrev bad_text : List ℕ
bad_text =
    115 ∷ 101 ∷ 108 ∷ 101 ∷ 99 ∷ 116 ∷ 32 ∷ 49 ∷ 32 ∷ 45 ∷ 45 ∷ 64 ∷ 65 ∷ 64 ∷ 70 ∷ 71 ∷ 65 ∷ 68
    ∷ 69 ∷ 68 ∷ 65 ∷ 64 ∷ 66 ∷ 67 ∷ 65 ∷ 68 ∷ 65 ∷ 64 ∷ 65 ∷ 64 ∷ 71 ∷ 64 ∷ 64 ∷ 64 ∷ 64 ∷ 64 ∷ 64
    ∷ []

hash_bad : apsw_hash_bytes bad_text ≡ sentinel_hash
unfolding apsw_hash_bytes hash_from hash_step
hash_bad = refl

prepare_internal_sentinel_example : prepare_internal demo (init 100) bad_text 9 plain start ≡ none
unfolding init
prepare_internal_sentinel_example =
    prepare_internal_sentinel demo (init 100) bad_text 9 0 plain start (init-Inv 100) (omega arith)
      (omega arith) refl (omega arith) refl hash_bad

prepare_internal-HandsOut_example :
    HandsOut demo (init 2) (prepare_internal demo (init 2) text_a 9 plain start)
prepare_internal-HandsOut_example =
    prepare_internal-HandsOut demo (init 2) text_a 9 plain start (init-Inv 2) hash_a-ne

fits : statement_ab.hash ≢ sentinel_hash → 0 < (init 2).maxentries
unfolding init
fits h = omega arith

-- The cache that holds `statement_a`, in its first slot.
abbrev holding : StatementCache
holding = place (init 2) statement_a

holding-Inv : Inv holding
unfolding init
holding-Inv = place-Inv (init 2) statement_a (init-Inv 2) (omega arith) (λ e. absurd (omega arith))

abbrev reset_one : World Db
reset_one = record opened_one { trace = Call.reset (some 1) ∷ opened_one.trace }

finalize_run : finalize demo (init 2) (some statement_a) opened_one ≡ some (0, holding, reset_one)
unfolding finalize finalize_cached evict sqlite_call init
finalize_run = refl

finalize_balance_example :
    opened 1 reset_one.trace ≡ closed 1 reset_one.trace + (held 1 holding.caches + 0)
finalize_balance_example =
    finalize_balance demo 1 0 (init 2) (some statement_a) opened_one (unfold init in omega arith)
      finalize_run

ring-place_example :
    (oldest : Option Statement) × (rest : List (Option Statement)) × (ring holding ≡ oldest ∷ rest)
    × (get_elem? holding.caches holding.next_eviction ≡ some oldest)
    × (ring (place holding statement_ab) ≡ rest ++ some statement_ab ∷ [])
ring-place_example = ring-place holding statement_ab holding-Inv (unfold place init in omega arith)

prepare_internal-IsHit_example : IsHit demo holding text_a 9 plain reset_one
prepare_internal-IsHit_example =
    prepare_internal-IsHit demo holding text_a 9 0 plain statement_a reset_one holding-Inv
      (unfold place init in omega arith) (omega arith) refl (omega arith)
      (unfold place init in refl) (omega (arith, hash_a)) hash_a-ne
      (unfold same_query options_eq in refl)

finalize_reused_example : IsHit demo holding text_a 9 plain start
finalize_reused_example =
    finalize_reused demo (init 2) statement_a text_a 9 opened_one start (init-Inv 2)
      (unfold init in omega arith) (omega arith) refl refl refl (omega (arith, hash_a))
      (λ e. absurd (omega arith)) finalize_run

abbrev hit_world : World Db
hit_world = record reset_one { trace = Call.clear_bindings (some 1) ∷ reset_one.trace }

abbrev hit_cache : StatementCache
hit_cache = record holding { hashes = sentinel_hash ∷ 0 ∷ []; caches = none ∷ none ∷ []; hits = 1 }

hit_run :
    prepare_internal demo holding text_a 9 plain reset_one
    ≡ some (0, some (record statement_a { uses = 2 }), hit_cache, hit_world)
unfolding prepare_internal look hit scan same_query options_eq sqlite_call place init
    apsw_hash_bytes hash_from hash_step
hit_run = refl

prepare_internal_balance_example :
    opened 1 hit_world.trace ≡ closed 1 hit_world.trace + (held 1 hit_cache.caches + (0 + 1))
prepare_internal_balance_example =
    prepare_internal_balance demo 1 0 holding text_a 9 plain reset_one
      (unfold place init in omega arith) hit_run

-- "a;b" goes on to "b".
abbrev next_world : World Db
next_world = record opened_one {
  db = (3, b'b' ∷ []);
  trace = Call.reset (some 1) ∷ Call.prepare_made (some 2) ∷ opened_one.trace;
}

abbrev statement_b : Statement
statement_b = record {
  vdbestatement = some 2;
  query = none;
  utf8 = some (b'b' ∷ []);
  utf8_size = 1;
  query_size = 1;
  hash = 98;
  options = plain;
  uses = 1;
}

abbrev next_cache : StatementCache
next_cache = record (place (init 2) statement_ab) { misses = 1 }

next_run :
    next demo (init 2) statement_ab opened_one ≡ some (0, some statement_b, next_cache, next_world)
unfolding next next_if next_text swap_in prepare_internal look miss explain_miss finish_miss
    allocate fill skip_blanks scan finalize finalize_cached evict sqlite_call place init
    apsw_hash_bytes hash_from hash_step
next_run = refl
