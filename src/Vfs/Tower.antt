-- ===== src/Vfs/Tower.antt =====
-- Files on top of each other, each of a class that inherits from VFSFile (src/vfs.c).
use apsw.Prelude.{ℕ, zero, suc, ◌≡◌, ◌⊎◌, refl, sym, ◌∙◌, none, [], inl, inr}
use mathlib.Core.Path.{subst}
use apsw.Prelude.Int.{ℤ}
use apsw.World.{World}
use apsw.Vfs.{Plain, BaseFile}
use apsw.Vfs.File.{as_file}
use apsw.Vfs.Python.{inherited}
use apsw.Vfs.Through.{Says, Honest, plain_through}
use apsw.Vfs.ReadThrough.{read_through}

filled : (c d : ℕ) → c ≡ d → (d ≡ 0) ⊎ (d ≡ 522) → (c ≡ 0) ⊎ (c ≡ 522)
filled c d e (inl z) = inl (e ∙ z)
filled c d e (inr z) = inr (e ∙ z)

module _ {S : Type 0} where
  -- `n` files, each of which calls the one below.
  unfoldable pub tower : ℕ → BaseFile S → BaseFile S
  tower zero b = b
  tower (suc n) b = as_file (inherited (tower n b))

  as_file-Honest : (b : BaseFile S) → Honest b → Honest (as_file (inherited b))
  unfolding as_file
  as_file-Honest b h = record {
    has_version = refl;
    has_all = λ call. refl;
    says_plain = λ p w q.
        let x = plain_through b p w h q in
        subst (λ c. Says c ((as_file (inherited b)).x_plain p w).1) (sym x.0) x.1;
    says_read = λ amount offset w q. (read_through b amount offset [] w h q).2;
  }

  tower-Honest : (n : ℕ) (b : BaseFile S) → Honest b → Honest (tower n b)
  unfolding tower
  tower-Honest zero b h = h
  tower-Honest (suc n) b h = as_file-Honest (tower n b) (tower-Honest n b h)

  -- Through any number of files a call to write, truncate, sync, lock or unlock gives the result code
  -- of the file at the bottom, errors with their extended codes included, and does to SQLite what that
  -- file does, where that file has every method, it fails with codes of SQLite, C integers whose low byte is
  -- one of the primary codes 1 to 26, with no exception or with the one that is made of the code,
  -- and it leaves no exception where it succeeds.
  pub tower_plain :
      (n : ℕ) (b : BaseFile S) (p : Plain) (w : World S)
      → Honest b
      → w.exc ≡ none
      → (((tower n b).x_plain p w).0 ≡ (b.x_plain p w).0)
        × (((tower n b).x_plain p w).1.db ≡ (b.x_plain p w).1.db)
  unfolding tower
  tower_plain zero b p w h q = (refl, refl)
  tower_plain (suc n) b p w h q =
      let below = plain_through (tower n b) p w (tower-Honest n b h) q in
      let rest = tower_plain n b p w h q in (below.0 ∙ rest.0, below.2 ∙ rest.1)

  tower_reads :
      (n : ℕ) (b : BaseFile S) (amount : ℕ) (offset : ℤ) (w : World S)
      → Honest b
      → w.exc ≡ none
      → (((tower n b).x_read amount offset w).0.0 ≡ (b.x_read amount offset w).0.0)
        × (((b.x_read amount offset w).0.0 ≡ 0) ⊎ ((b.x_read amount offset w).0.0 ≡ 522)
            → ((tower n b).x_read amount offset w).0.1 ≡ (b.x_read amount offset w).0.1)
  unfolding tower as_file
  tower_reads zero b amount offset w h q = (refl, λ u. refl)
  tower_reads (suc n) b amount offset w h q =
      let below = read_through (tower n b) amount offset [] w (tower-Honest n b h) q in
      let rest = tower_reads n b amount offset w h q in
      (below.0 ∙ rest.0, λ u. below.1 (filled _ _ rest.0 u) ∙ rest.1 u)

  -- Through any number of files a full or a short read gives the result code and the bytes of the file
  -- at the bottom, where that file has every method and what it says of its reads is true: a short
  -- read ends in a zero, which the class takes off and the next file puts back.
  pub tower_read :
      (n : ℕ) (b : BaseFile S) (amount : ℕ) (offset : ℤ) (w : World S)
      → Honest b
      → w.exc ≡ none
      → ((b.x_read amount offset w).0.0 ≡ 0) ⊎ ((b.x_read amount offset w).0.0 ≡ 522)
      → ((tower n b).x_read amount offset w).0 ≡ (b.x_read amount offset w).0
  tower_read n b amount offset w h q u =
      let r = tower_reads n b amount offset w h q in λ i. (r.0 i, r.1 u i)
