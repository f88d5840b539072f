-- ===== src/StatementCache/Lifetime.antt =====
-- The balance of statement handles over the queries of one text and the end of the cache
-- (src/statementcache.c).
use apsw.Prelude.{
  ℕ, zero, suc, ◌+◌, ◌≤◌, ◌<◌, ◌≡◌, refl, Option, none, some, List, [], ◌∷◌, arith, length, ◌>>=◌,
  drop,
}
use mathlib.Core.Path.{subst}
use apsw.World.{World, sqlite_call}
use apsw.StatementCache.{StmtApi, StatementCache, Statement, free_statement, finalize}
use apsw.StatementCache.Prepare.{
  prepare_internal, swap_in, next_text, next_if, next, free_from, free_all, free, Out,
}
use apsw.StatementCache.Slots.{Slots, Inv}
use apsw.StatementCache.Balance.{
  opened, closed, held, owned, held-unused, Balanced, AfterDone, AfterOut, finalize-Balanced,
  prepare_internal-Balanced,
}

module _ {S : Type 0} (api : StmtApi S) (h k : ℕ) where
  swap_in-Balanced :
      (new : Option Statement) (res : ℕ) (done : Option (ℕ × StatementCache × World S))
      → AfterDone api h (k + owned h new) done
      → AfterOut api h k (swap_in api new res done)
  unfolding swap_in
  swap_in-Balanced new res none b = tt
  swap_in-Balanced new res (some (res2, sc, w)) b =
      ground (arith, finalize-Balanced api h k sc new w b)

  after-Balanced :
      (old : Statement) (out : Out api)
      → AfterOut api h (k + owned h (some old)) out
      → AfterOut api h k
          (out >>= λ (res, new, sc', w'). swap_in api new res (finalize api sc' (some old) w'))
  after-Balanced old none b = tt
  after-Balanced old (some (res, new, sc', w')) b =
      swap_in-Balanced new res (finalize api sc' (some old) w')
        (finalize-Balanced api h (k + owned h new) sc' (some old) w' (omega arith))

  next_if-Balanced :
      (sc : StatementCache) (old : Statement) (t : Option (List ℕ)) (q : Option ℕ) (w : World S)
      → Balanced api h k sc w (k + owned h (some old))
      → AfterOut api h k (next_if api sc old t q w)
  unfolding next_if next_text
  next_if-Balanced sc old (some t) (some q) w b =
      after-Balanced old (prepare_internal api sc (drop old.query_size t) q old.options w) (
        prepare_internal-Balanced api h (k + owned h (some old)) sc (drop old.query_size t) q
          old.options w b)
  next_if-Balanced sc old _ _ w b = tt

  -- Going on to the next query hands the caller the new statement for the old one, or takes the
  -- old one and hands out none: of each handle, as many were made as were finalized, are in the
  -- slots, are in the caller's new statement and are with other callers.
  pub next_balance :
      (sc : StatementCache) (old : Statement) (w : World S) {res : ℕ} {s : Option Statement}
      {sc' : StatementCache} {w' : World S}
      → opened h w.trace ≡ closed h w.trace + (held h sc.caches + (k + owned h (some old)))
      → next api sc old w ≡ some (res, s, sc', w')
      → opened h w'.trace ≡ closed h w'.trace + (held h sc'.caches + (k + owned h s))
  unfolding next
  next_balance sc old w b e =
      subst (AfterOut api h k) e (next_if-Balanced sc old old.utf8 old.query w b)

  abbrev AfterFree : ℕ → Option (StatementCache × World S) → Type 0
  AfterFree n none = ⊥
  AfterFree n (some (sc, w)) = opened h w.trace ≡ closed h w.trace + n

  trace_of_free :
      (sc : StatementCache) (s : Statement) (w : World S) (n : ℕ)
      → opened h w.trace ≡ closed h w.trace + (owned h (some s) + n)
      → opened h (free_statement api sc s w).2.trace
        ≡ closed h (free_statement api sc s w).2.trace + n
  unfolding free_statement sqlite_call
  trace_of_free sc s w n b = omega arith

  free_from-Balanced :
      (n : ℕ) (hs : List ℕ) (cs : List (Option Statement)) (sc : StatementCache) (w : World S)
      → Slots n hs cs
      → n ≤ length cs
      → opened h w.trace ≡ closed h w.trace + (held h cs + k)
      → AfterFree k (free_from api n cs sc w)
  unfolding free_from
  free_from-Balanced zero hs cs sc w v le b = omega (arith, held-unused h hs cs v)
  free_from-Balanced (suc n) hs [] sc w v le b = absurd (omega arith)
  free_from-Balanced (suc n) [] (c ∷ cs) sc w v le b = absurd v
  free_from-Balanced (suc n) (x ∷ hs) (none ∷ cs) sc w v le b =
      free_from-Balanced n hs cs sc w v.1 (omega arith) (omega arith)
  free_from-Balanced (suc n) (x ∷ hs) (some s ∷ cs) sc w v le b =
      free_from-Balanced n hs cs (free_statement api sc s w).1 (free_statement api sc s w).2 v.1
        (omega arith) (trace_of_free sc s w (held h cs + k) (omega arith))

  abbrev Freed : Option (World S) → Type 0
  Freed none = ⊥
  Freed (some w) = opened h w.trace ≡ closed h w.trace + k

  free_all-Balanced :
      (high : ℕ) (hs : List ℕ) (cs : List (Option Statement)) (sc : StatementCache) (w : World S)
      → Slots (suc high) hs cs
      → (0 < length cs → high < length cs)
      → opened h w.trace ≡ closed h w.trace + (held h cs + k)
      → Freed (free_all api high cs sc w)
  unfolding free_all
  free_all-Balanced high hs [] sc w v le b = omega arith
  free_all-Balanced high [] (c ∷ cs) sc w v le b = absurd v
  free_all-Balanced high (x ∷ hs) (c ∷ cs) sc w v le b =
      ground (arith, free_from-Balanced (suc high) (x ∷ hs) (c ∷ cs) sc w v (le (omega arith)) b)

  -- Freeing the cache finishes every statement in it, once, without leaving its arrays: of each
  -- handle, as many were made as were finalized and are with callers, in a cache whose arrays are
  -- in step.
  pub free_balance :
      (sc : StatementCache) (w : World S)
      → Inv sc
      → opened h w.trace ≡ closed h w.trace + (held h sc.caches + k)
      → (w' : World S) × (free api sc w ≡ some w') × (opened h w'.trace ≡ closed h w'.trace + k)
  unfolding free
  free_balance sc w v b = of_Freed (free_all api sc.highest_used sc.caches sc w) (
      free_all-Balanced sc.highest_used sc.hashes sc.caches sc w v.slots
        (λ room. omega (arith, v.caches_length, v.highest_lt (omega (arith, v.caches_length)))) b)
    where
      of_Freed :
          (o : Option (World S))
          → Freed o
          → (w' : World S) × (o ≡ some w') × (opened h w'.trace ≡ closed h w'.trace + k)
      of_Freed none f = absurd f
      of_Freed (some w') f = (w', refl, f)
