-- ===== src/Vfs/Tests.antt =====
-- Files at concrete inputs (src/vfs.c).
use apsw.Prelude.{
  ℕ, zero, suc, ◌≡◌, ◌<◌, refl, ap, true, false, none, List, [], ◌∷◌, length-replicate, replicate,
  get_or, arith, inl, inr,
}
use apsw.Prelude.Int.{ℤ, pos}
use apsw.World.{World}
use apsw.Vfs.{Plain, BaseFile}
use apsw.Vfs.Python.{shorten}
use apsw.Vfs.Padding.{shorten_le}
use apsw.Vfs.Through.{Says, SaysRead, Honest}
use apsw.Vfs.Tower.{tower, tower_plain, tower_read}

-- A file of one byte that another process has locked for recovery.
abbrev read_one : ℕ → ℤ → World (Unit {0}) → (ℕ × List ℕ) × World (Unit {0})
read_one zero offset w = ((0, []), w)
read_one (suc zero) offset w = ((0, 7 ∷ []), w)
read_one (suc (suc n)) offset w = ((522, 7 ∷ 0 ∷ replicate n 0), w)

abbrev plain_one : Plain → World (Unit {0}) → ℕ × World (Unit {0})
plain_one (Plain.lock level) w = (261, w)
plain_one (Plain.write bytes offset) w = (0, w)
plain_one (Plain.truncate size) w = (0, w)
plain_one (Plain.sync flags) w = (0, w)
plain_one (Plain.unlock level) w = (0, w)

abbrev one_byte : BaseFile (Unit {0})
one_byte = record {
  i_version = 3;
  implements = λ call. true;
  x_read = read_one;
  x_plain = plain_one;
  x_file_size = λ w. ((0, pos 1), w);
  x_check_reserved_lock = λ w. ((0, pos 1), w);
  x_sector_size = λ w. (pos 4096, w);
  x_device_characteristics = λ w. (pos 0, w);
  x_close = λ w. (0, w);
}

get_or-replicate : (n i : ℕ) → ◌≡◌ {A = ℕ} (get_or (replicate n 0) i 0) 0
get_or-replicate zero i = refl
get_or-replicate (suc n) zero = refl
get_or-replicate (suc n) (suc i) = get_or-replicate n i

shorten_lt : (n : ℕ) → shorten (suc (suc n)) (7 ∷ replicate (suc n) 0) < suc (suc n)
unfolding shorten
shorten_lt n =
    rw (get_or-replicate (suc n) n) (omega (arith, shorten_le (suc n) (7 ∷ replicate (suc n) 0)))

plain_one-Says :
    (p : Plain) (w : World (Unit {0})) → w.exc ≡ none → Says (plain_one p w).0 (plain_one p w).1
plain_one-Says (Plain.lock level) w q = inr (omega arith, omega arith, omega arith, inl q)
plain_one-Says (Plain.write bytes offset) w q = inl (refl, q)
plain_one-Says (Plain.truncate size) w q = inl (refl, q)
plain_one-Says (Plain.sync flags) w q = inl (refl, q)
plain_one-Says (Plain.unlock level) w q = inl (refl, q)

read_one-SaysRead :
    (amount : ℕ) (offset : ℤ) (w : World (Unit {0}))
    → w.exc ≡ none
    → SaysRead amount (read_one amount offset w).0 (read_one amount offset w).1
read_one-SaysRead zero offset w q = inl (refl, refl, q)
read_one-SaysRead (suc zero) offset w q = inl (refl, refl, q)
read_one-SaysRead (suc (suc n)) offset w q =
    inr (inl (refl, ap (λ k. suc (suc k)) (length-replicate n 0), shorten_lt n, q))

one_byte-Honest : Honest one_byte
one_byte-Honest = record {
  has_version = refl;
  has_all = λ call. refl;
  says_plain = plain_one-Says;
  says_read = read_one-SaysRead;
}

abbrev quiet_world : World (Unit {0})
quiet_world = record {
  db = tt;
  exc = none;
  trace = [];
  conns = λ i. record { open_db = true; inuse = false; dependents = [] };
  unraised = [];
}

tower_plain_example :
    (((tower 3 one_byte).x_plain (Plain.lock (pos 1)) quiet_world).0 ≡ 261)
    × (((tower 3 one_byte).x_plain (Plain.lock (pos 1)) quiet_world).1.db ≡ tt)
tower_plain_example = tower_plain 3 one_byte (Plain.lock (pos 1)) quiet_world one_byte-Honest refl

tower_read_example : ((tower 2 one_byte).x_read 4 (pos 0) quiet_world).0 ≡ (522, 7 ∷ 0 ∷ 0 ∷ 0 ∷ [])
tower_read_example = tower_read 2 one_byte 4 (pos 0) quiet_world one_byte-Honest refl (inr refl)
