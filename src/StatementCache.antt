-- ===== src/StatementCache.antt =====
-- The prepared statement cache (src/statementcache.c): its data, and the operations on one entry.
-- A result `none` stands for an access outside an array or through a null pointer.
pub mod Prepare
pub mod Slots
pub mod Totality
pub mod Ring
pub mod Sentinel
pub mod Balance
pub mod Lifetime
pub mod Lookup
pub mod Reuse
pub mod Tests
use apsw.Prelude.{
  ℕ, zero, suc, ◌+◌, ◌-◌, ◌*◌, ◌%◌, ◌^◌, ◌≡◌, max, bit_xor, Bool, true, false, Option, none, some,
  List, [], ◌∷◌, ltb, ◌==◌, if◌then◌else◌, ◌&&◌, ◌||◌, not, bool_eq, bytes_eq, u32, ◌>>=◌, length,
  get_elem?, set, take,
}
use apsw.Prelude.Int.{ℤ, eq_ℤ}
use apsw.Errors.{Exn, sqlite_ok, sqlite_error}
use apsw.World.{World, Call, sqlite_call, occurred}

-- What is called of SQLite and of Python. A null `sqlite3_stmt` is `none`. `prepare` is given the
-- text and the flags, and returns the code, the statement, how far the first query goes, the
-- exception of a callback, and its state; the others return the code, the exception, the state.
pub record Prepared (S : Type 0) : Type 0 where
  pub res : ℕ
  pub vdbe : Option ℕ
  pub tail : ℕ
  pub exn : Option Exn
  pub next : S

pub record StmtApi (S : Type 0) : Type 0 where
  pub prepare_v3 : S → List ℕ → ℤ → Prepared S
  pub reset : S → Option ℕ → ℕ × Option Exn × S
  pub finalize : S → Option ℕ → ℕ × Option Exn × S
  pub clear_bindings : S → Option ℕ → ℕ × Option Exn × S
  pub stmt_explain : S → Option ℕ → ℤ → ℕ × Option Exn × S
  pub sql : S → ℕ → Option (List ℕ)
  pub calloc : S → Bool × S
  pub as_utf8 : S → ℕ → Option (List ℕ)
  pub as_utf8_error : Exn

pub record Options : Type 0 where
  pub can_cache : Bool
  pub prepare_flags : ℤ
  pub explain : ℤ

-- `hash` is the bit pattern of the C value. `query` is the Python string, by its identity.
pub record Statement : Type 0 where
  pub vdbestatement : Option ℕ
  pub query : Option ℕ
  pub utf8 : Option (List ℕ)
  pub utf8_size : ℕ
  pub query_size : ℕ
  pub hash : ℕ
  pub options : Options
  pub uses : ℕ

-- The arrays are lists, a null array the empty list. `recycle_bin` is the part of that array below
-- `recycle_bin_next`, its top first.
pub record StatementCache : Type 0 where
  pub hashes : List ℕ
  pub caches : List (Option Statement)
  pub recycle_bin : List Statement
  pub highest_used : ℕ
  pub maxentries : ℕ
  pub next_eviction : ℕ
  pub evictions : ℕ
  pub no_cache : ℕ
  pub hits : ℕ
  pub misses : ℕ
  pub no_vdbe : ℕ
  pub too_big : ℕ

abbrev pub max_item_size : ℕ
max_item_size = 16384

abbrev pub recycle_bin_entries : ℕ
recycle_bin_entries = 4

-- -1, as a 64 bit pattern.
abbrev pub sentinel_hash : ℕ
sentinel_hash = 2 ^ 64 - 1

-- One round of the loop of `apsw_hash_bytes`.
unfoldable pub hash_step : ℕ → ℕ → ℕ
hash_step h c = bit_xor (bit_xor (h * 8 % 2 ^ 64) h) c

unfoldable pub hash_from : ℕ → List ℕ → ℕ
hash_from h [] = h
hash_from h (c ∷ cs) = hash_from (hash_step h c) cs

unfoldable pub apsw_hash_bytes : List ℕ → ℕ
apsw_hash_bytes data' = hash_from 0 data'

-- `memcmp` of two option structs.
unfoldable pub options_eq : Options → Options → Bool
options_eq a b =
    bool_eq a.can_cache b.can_cache
    && eq_ℤ a.prepare_flags b.prepare_flags
    && eq_ℤ a.explain b.explain

unfoldable pub hasmore : Option Statement → Bool
hasmore none = false
hasmore (some s) = not (s.query_size == s.utf8_size)

-- The test of one slot whose hash is right.
unfoldable pub same_query : List ℕ → Options → Statement → Bool
same_query utf8 options s =
    s.utf8_size == length utf8
    && (elim s.utf8 [ none ↦ length utf8 == 0 | some t ↦ bytes_eq (take (length utf8) t) utf8 ])
    && options_eq s.options options

-- The entry goes to the slot whose turn it is.
unfoldable pub place : StatementCache → Statement → StatementCache
place sc s = record sc {
  hashes = set sc.hashes sc.next_eviction s.hash;
  caches = set sc.caches sc.next_eviction (some s);
  highest_used = max sc.highest_used sc.next_eviction;
  next_eviction = if sc.next_eviction + 1 == sc.maxentries then 0 else sc.next_eviction + 1;
}

module _ {S : Type 0} (api : StmtApi S) where
  -- `statementcache_free_statement`: the bin takes the struct, or it is freed.
  unfoldable pub free_statement :
      StatementCache → Statement → World S → ℕ × StatementCache × World S
  free_statement sc s w =
      let (res, w') =
        sqlite_call (Call.finalize s.vdbestatement) (λ d. api.finalize d s.vdbestatement) w in
      (
        res,
        (if ltb (length sc.recycle_bin + 1) recycle_bin_entries
            then record sc { recycle_bin = record s { query = none } ∷ sc.recycle_bin }
            else sc),
        w',
      )

  -- A callback's exception turns a success into an error.
  abbrev pub or_error : ℕ → World S → ℕ
  or_error res w = if res == sqlite_ok && occurred w then sqlite_error else res

  -- The evictee is freed, its result dropped.
  unfoldable pub evict : Option Statement → StatementCache → World S → StatementCache × World S
  evict none sc w = (sc, w)
  evict (some e) sc w =
      let (_, sc', w') = free_statement sc e w in
      (record sc' { evictions = u32 (sc'.evictions + 1) }, w')

  unfoldable pub finalize_cached :
      StatementCache → Statement → World S → Option (ℕ × StatementCache × World S)
  finalize_cached sc s w =
      let (res, w') =
        sqlite_call (Call.reset s.vdbestatement) (λ d. api.reset d s.vdbestatement) w in
      get_elem? sc.caches sc.next_eviction >>= λ evictee.
      let (sc', w'') = evict evictee (place sc s) w' in some (or_error res w', sc', w'')

  unfoldable pub finalize_uncached :
      StatementCache → Statement → World S → Option (ℕ × StatementCache × World S)
  finalize_uncached sc s w =
      let (res, sc', w') = free_statement sc s w in some (or_error res w', sc', w')

  -- `statementcache_finalize`.
  unfoldable pub finalize :
      StatementCache → Option Statement → World S → Option (ℕ × StatementCache × World S)
  finalize sc none w = some (sqlite_ok, sc, w)
  finalize sc (some s) w =
      if s.hash == sentinel_hash then finalize_uncached sc s w else finalize_cached sc s w
