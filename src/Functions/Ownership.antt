-- ===== src/Functions/Ownership.antt =====
-- Who holds what the registrations of SQL functions allocate (src/connection.c).
use apsw.Prelude.{
  ℕ, ◌+◌, ◌-◌, ◌≤◌, ◌≡◌, refl, ap, sym, inl, inr, ◌∙◌, Option, none, some, List, [], ◌∷◌,
  if◌then◌else◌, ◌==◌, arith, Bool-cases,
}
use mathlib.Core.Path.{subst}
use apsw.World.{World, set_exc-db, raise, threading_violation}
use apsw.Functions.Register.{
  Registration, RegisterApi, Infos, allocfunccbinfo, free_funcs, register_info, create_open,
  create_function, create_all, no_infos,
}

abbrev pub occurrences : ℕ → List ℕ → ℕ
occurrences x [] = 0
occurrences x (y ∷ ys) = (if y == x then 1 else 0) + occurrences x ys

abbrev pub is_info : ℕ → Option ℕ → ℕ
is_info x none = 0
is_info x (some y) = if y == x then 1 else 0

-- SQLite keeps what it is given or calls the destructor for it, also where it refuses, and calls the
-- destructor for what it had and keeps no more.
pub record RegisterLaws {S : Type 0} (api : RegisterApi S) : Type 0 where
  pub held : S → List ℕ
  pub balance :
      (d : S) (reg : Registration) (info : Option ℕ) (x : ℕ)
      → occurrences x (held (api.register d reg info).2) + occurrences x (api.destroyed d reg info)
        ≡ occurrences x (held d) + is_info x info

threading_violation-db : {S : Type 0} (w : World S) → (threading_violation w).db ≡ w.db
unfolding threading_violation
threading_violation-db w = ground arith

free_funcs-refs :
    (xs : List ℕ) (i : Infos) (x : ℕ) → (free_funcs xs i).refs x ≡ i.refs x - occurrences x xs
unfolding free_funcs
free_funcs-refs [] i x = omega arith
free_funcs-refs (y ∷ ys) i x = free_funcs-refs ys _ x ∙ ground arith

free_funcs-count : (xs : List ℕ) (i : Infos) → (free_funcs xs i).count ≡ i.count
unfolding free_funcs
free_funcs-count [] i = refl
free_funcs-count (y ∷ ys) i = free_funcs-count ys _

module _ {S : Type 0} (api : RegisterApi S) (laws : RegisterLaws api) where
  -- Each object has as many references as SQLite holds it; those that are not made yet have none.
  abbrev pub IsOwned : Infos → S → Type 0
  IsOwned i d = (x : ℕ) → (i.refs x ≡ occurrences x (laws.held d)) × ((i.count ≤ x) → i.refs x ≡ 0)

  -- The state that a registration of `info` finds.
  abbrev IsOffered : Option ℕ → Infos → S → Type 0
  IsOffered info i d =
      (x : ℕ)
      → (i.refs x ≡ occurrences x (laws.held d) + is_info x info) × ((i.count ≤ x) → i.refs x ≡ 0)

  register_info-IsOwned :
      (reg : Registration) (info : Option ℕ) (i : Infos) (w : World S)
      → IsOffered info i w.db
      → IsOwned (register_info api reg info i w).1 (register_info api reg info i w).2.db
  unfolding register_info
  register_info-IsOwned reg info i w h x =
      let after : (free_funcs (api.destroyed w.db reg info) i).refs x
          ≡ i.refs x - occurrences x (api.destroyed w.db reg info) =
        free_funcs-refs (api.destroyed w.db reg info) i x in
      (
        after
            ∙ rw
                (set_exc-db (api.register w.db reg info).0 (record w {
                  db = (api.register w.db reg info).2;
                  exc = raise (api.register w.db reg info).1 w.exc;
                }))
                (omega (arith, (h x).0, laws.balance w.db reg info x)),
        λ more.
            after
            ∙ rw
                ((h x).1
                  (subst (λ n. n ≤ x) (free_funcs-count (api.destroyed w.db reg info) i) more))
                (omega arith),
      )

  alloc-IsOffered :
      (f : ℕ) (i : Infos) (d : S) → IsOwned i d → IsOffered (some i.count) (allocfunccbinfo f i) d
  unfolding allocfunccbinfo
  alloc-IsOffered f i d h x =
      (ground (arith, (h x).0, (h x).1), λ more. ground (arith, (h x).1, more))

  create_open-IsOwned :
      (reg : Registration) (f : Option ℕ) (i : Infos) (w : World S)
      → IsOwned i w.db
      → IsOwned (create_open api reg f i w).1 (create_open api reg f i w).2.db
  unfolding create_open
  create_open-IsOwned reg none i w h =
      register_info-IsOwned reg none i w (λ x. ((h x).0 ∙ omega arith, (h x).1))
  create_open-IsOwned reg (some f) i w h = elim (Bool-cases (api.has_memory w.db)) [
    | inl q ↦ rw q (register_info-IsOwned reg (some i.count) _ w (alloc-IsOffered f i w.db h))
    | inr q ↦ rw q h
  ]

  create_function-IsOwned :
      (con : ℕ) (reg : Registration) (f : Option ℕ) (i : Infos) (w : World S)
      → IsOwned i w.db
      → IsOwned (create_function api con reg f i w).1 (create_function api con reg f i w).2.db
  unfolding create_function
  create_function-IsOwned con reg f i w h = elim (Bool-cases (w.conns con).inuse) [
    | inl q ↦ rw (q, threading_violation-db w) h
    | inr q ↦ elim (Bool-cases (w.conns con).open_db) [
      | inl o ↦ rw (q, o) (create_open-IsOwned reg f i w h)
      | inr o ↦ rw (q, o) h
    ]
  ]

  create_all-IsOwned :
      (con : ℕ) (rs : List (Registration × Option ℕ)) (i : Infos) (w : World S)
      → IsOwned i w.db
      → IsOwned (create_all api con rs i w).0 (create_all api con rs i w).1.db
  unfolding create_all
  create_all-IsOwned con [] i w h = h
  create_all-IsOwned con (r ∷ rs) i w h =
      create_all-IsOwned con rs _ _ (create_function-IsOwned con r.0 r.1 i w h)

  -- Whatever functions are registered, replaced and deleted, with calls that SQLite refuses and with
  -- memory or without: each object that was made for a function has exactly one reference for each time that
  -- SQLite holds it, so that none is freed while SQLite can call it and none is left over. SQLite keeps what it
  -- is given or calls the destructor for it, and holds none at first.
  pub create_all-refs :
      (con : ℕ) (rs : List (Registration × Option ℕ)) (w : World S) (x : ℕ)
      → laws.held w.db ≡ []
      → (create_all api con rs no_infos w).0.refs x
        ≡ occurrences x (laws.held (create_all api con rs no_infos w).1.db)
  create_all-refs con rs w x none_held =
      (create_all-IsOwned con rs no_infos w
        (λ y. (sym (ap (occurrences y) none_held), λ more. refl)) x).0
